-- ===== src/Rc/Arena.antt =====
-- runtime/wok_rc.c, the slab backend: the arena scopes, a stack of checkpoints over a bump region of
-- its own, and the end of a heap.
use wokml.Prelude.{
  ℕ, ◌+◌, not, ◌&&◌, ◌||◌, Option, none, some, List, [], ◌∷◌, ltb, leb, ◌==◌, if◌then◌else◌, length,
  ◌>>=◌,
}
use wokml.Rc.{
  Ptr, Heap, Region, ArenaFrame, write, header, cell_bytes, add64, grow_slab, no_room, logical_mark,
  phys_sub, arena_size, arena_max_depth,
}

-- The head of a list of slabs, NULL for none.
abbrev pub head_slab : List Ptr → Ptr
head_slab [] = 0
head_slab (s ∷ ss) = s

abbrev pub frame_of : Heap → ArenaFrame
frame_of h = record {
  slab_at_open = head_slab h.arena.slabs;
  bump_ptr_save = h.arena.bump_ptr;
  bump_end_save = h.arena.bump_end;
  arena_bytes_before = h.arena_bytes;
}

unfoldable pub arena_open : Heap → Option (ℕ × Heap)
arena_open h =
    if leb arena_max_depth (length h.frames)
    then none
    else some (length h.frames, record h { frames = frame_of h ∷ h.frames })

abbrev pub install : Region × Heap → Heap
install (r, h) = record h { arena = r }

-- `wok_new_arena_slab`, off the list of the slabs that closes have put aside: one of them, or a new
-- one.
unfoldable pub recycle : (m : Ptr) → Heap → List Ptr → Option Heap
recycle m h [] = do r ← grow_slab m h h.arena none; some (install r)
recycle m h (s ∷ ss) = do
  r ← grow_slab m (record h { arena_free_slabs = ss }) h.arena (some s)
  some (install r)

abbrev pub new_arena_slab : (m : Ptr) → Heap → Option Heap
new_arena_slab m h = recycle m h h.arena_free_slabs

-- Behind the test for room: the cell at the frontier, with no reference counted.
unfoldable pub arena_take : Heap → (tag arity : ℕ) → Ptr × Heap
arena_take h tag arity =
    let p = h.arena.bump_ptr in
    let bytes = add64 h.arena_bytes (cell_bytes arity) in
    (
      p,
      logical_mark (record h {
        mem = write h.mem p (header 0 tag arity 0);
        arena = record h.arena { bump_ptr = p + cell_bytes arity };
        arena_bytes = bytes;
        arena_peak = (if ltb h.arena_peak bytes then bytes else h.arena_peak);
      }),
    )

unfoldable pub arena_room : (m : Ptr) → Heap → (sz : ℕ) → Option Heap
arena_room m h sz = if no_room h.arena sz then new_arena_slab m h else some h

unfoldable pub arena_alloc : (m : Ptr) → Heap → (tag arity : ℕ) → Option (Ptr × Heap)
arena_alloc m h tag arity =
    if not (ltb tag 65536 && ltb arity 256) || length h.frames == 0
    then none
    else (do g ← arena_room m h (cell_bytes arity); some (arena_take g tag arity))

-- The loop of `wok_arena_close`: the slabs in front of `stop` go on the free list. A list that does
-- not hold `stop` would be run off its end, a read through NULL.
unfoldable pub unwind : (stop : Ptr) → (grown free_slabs : List Ptr) → Option (List Ptr × List Ptr)
unwind stop [] free_slabs = if stop == 0 then some ([], free_slabs) else none
unwind stop (s ∷ ss) free_slabs =
    let rest = unwind stop ss (s ∷ free_slabs) in
    if s == stop then some (s ∷ ss, free_slabs) else rest

abbrev pub restore : Heap → ArenaFrame → List ArenaFrame → List Ptr × List Ptr → Heap
restore h f fs (slabs, free_slabs) = record h {
  arena = record h.arena { slabs = slabs; bump_ptr = f.bump_ptr_save; bump_end = f.bump_end_save };
  arena_free_slabs = free_slabs;
  arena_bytes = f.arena_bytes_before;
  frames = fs;
}

-- `wok_arena_close`, off the stack of frames: the handle has to be that of the innermost scope.
unfoldable pub close_frame : Heap → (handle : ℕ) → List ArenaFrame → Option Heap
close_frame h handle [] = none
close_frame h handle (f ∷ fs) =
    if handle == length fs
    then (do r ← unwind f.slab_at_open h.arena.slabs h.arena_free_slabs; some (restore h f fs r))
    else none

abbrev pub arena_close : Heap → (handle : ℕ) → Option Heap
arena_close h handle = close_frame h handle h.frames

-- The walk over one list of slabs in `wok_heap_free`.
unfoldable pub free_slabs : Heap → List Ptr → Heap
free_slabs h [] = h
free_slabs h (s ∷ ss) = free_slabs (phys_sub h arena_size) ss

-- `wok_heap_free`, up to the `free` of the heap itself: the last `assert` says that the physical
-- bytes are back at 0 when no cell is live.
unfoldable pub heap_free : Heap → Option Heap
heap_free h =
    let g =
      free_slabs (free_slabs (free_slabs h h.counted.slabs) h.arena.slabs) h.arena_free_slabs in
    if not (g.live == 0) || g.cur_physical == 0 then some g else none
