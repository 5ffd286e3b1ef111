-- ===== src/Rc/Tests.antt =====
-- Runs of the slab backend at fixed inputs: an empty heap, and one with a node and an array in use.
use wokml.Prelude.{
  ℕ, ◌+◌, ◌*◌, ◌≡◌, refl, Option, none, some, [], ◌∷◌, ltb, ◌==◌, if◌then◌else◌, arith,
}
use wokml.Rc.{
  Ptr, Memory, Heap, header, cell_bytes, measure_words, array_cell_bytes, array_class, heap_new,
  array_tag, take_cell, grow_slab, phys_add, logical_mark, give_back, free,
}
use wokml.Rc.Cells.{alloc, array_alloc, slot_set, alloc_at}
use wokml.Rc.Arena.{
  arena_open, arena_room, recycle, arena_take, arena_alloc, unwind, close_frame, arena_close,
  heap_free,
}
use wokml.Rc.Owner.{unowned, frontier, cell, Owners, Cell, here}
use wokml.Rc.Space.{Within}
use wokml.Rc.Sources.{Fresh}
use wokml.Rc.Grant.{Kept}
use wokml.Rc.Allocate.{Allocated, alloc-Allocated, array_alloc-Allocated}
use wokml.Rc.Release.{Released, free_lem}
use wokml.Rc.Update.{slot_set_lem, alloc_at_lem}
use wokml.Rc.Teardown.{Books, heap_free_lem, free-Books}
use wokml.Rc.Reuse.{free-take_cell}
use wokml.Rc.Slabs.{Sound, count}
use wokml.Rc.Scopes.{
  Scoped, start, within, inner, Restored, opened, arena_scope_lem, arena_close-none,
}

abbrev no_words : Memory
no_words a = 0

abbrev empty_heap : Heap
empty_heap = heap_new no_words

abbrev no_owners : Owners
no_owners a = unowned

abbrev no_depth : ℕ → ℕ
no_depth c = 0

empty-Kept : Kept no_owners no_depth empty_heap []
empty-Kept = record {
  space = record { live = tt; distinct = tt; chains = λ c lt. refl };
  room = λ a l u. ground arith;
}

at_65536 : Fresh no_owners 65536 65536
at_65536 = (λ e. omega arith, λ a l u. refl)

alloc-Allocated_example :
    (p : Ptr) × (g : Heap) × (alloc 65536 empty_heap 7 2 ≡ some (p, g))
    × (g.mem p ≡ header 1 7 2 0)
    × Allocated no_owners empty_heap g p (cell_bytes 2) 2 []
alloc-Allocated_example =
    alloc-Allocated no_owners no_depth empty_heap [] 65536 empty-Kept 7 2 (omega arith)
      (omega arith) at_65536

array_alloc-Allocated_example :
    (p : Ptr) × (g : Heap) × (array_alloc 65536 empty_heap 3 1 ≡ some (p, g))
    × (g.mem p ≡ header 1 array_tag 1 0)
    × (g.mem (p + 8) ≡ 3)
    × Allocated no_owners empty_heap g p (16 + 3 * 8) (array_class 3) []
unfolding array_class
array_alloc-Allocated_example =
    array_alloc-Allocated no_owners no_depth empty_heap [] 65536 empty-Kept 3 1 (omega arith)
      (omega arith) at_65536

-- A node of two slots and an array of three elements in one slab; their counts are 0 and 1.
abbrev node : Cell
node = record { at = 65544; bytes = 24; cls = 2 }

abbrev array : Cell
array = record { at = 65568; bytes = 40; cls = 4 }

abbrev two_words : Memory
two_words a =
    if a == 65544
    then header 0 7 2 0
    else if a == 65568
    then header 1 array_tag 1 0
    else if a == 65576
    then 3
    else 0

abbrev two_cells : Heap
two_cells = record empty_heap {
  mem = two_words;
  allocs = 2;
  live = 2;
  cur_bytes = 64;
  cur_physical = 65536;
  counted = record { slabs = 65536 ∷ []; bump_ptr = 65608; bump_end = 131072; nslabs = 1 };
}

abbrev two_owners : Owners
two_owners a =
    if ltb a 65544
    then unowned
    else if ltb a 65568
    then cell 65544
    else if ltb a 65608
    then cell 65568
    else if ltb a 131072
    then frontier
    else unowned

two-Kept : Kept two_owners no_depth two_cells (node ∷ array ∷ [])
unfolding measure_words array_cell_bytes array_class
two-Kept = record {
  space = record {
    live = (
      record {
        nonnull = λ e. omega arith;
        owns = λ a l u. ground arith;
        says = refl;
        has_header = omega arith;
        fits = λ lt. refl;
      },
      (
        record {
          nonnull = λ e. omega arith;
          owns = λ a l u. ground arith;
          says = refl;
          has_header = omega arith;
          fits = λ lt. refl;
        },
        tt,
      ),
    );
    distinct = ((λ e. omega arith, tt), (tt, tt));
    chains = λ c lt. refl;
  };
  room = λ a l u. ground arith;
}

two-Books : Books two_cells (node ∷ array ∷ [])
two-Books = record {
  live = refl;
  balance = refl;
  bytes = refl;
  slabs = refl;
  scopes = refl;
  physical = refl;
  bounded = (omega arith, omega arith);
}

free_lem_example :
    (g : Heap) × (free two_cells 65544 ≡ some g)
    × Released two_owners no_depth two_cells g node (array ∷ [])
free_lem_example =
    free_lem two_owners no_depth two_cells node (node ∷ array ∷ []) (array ∷ []) two-Kept here refl

slot_set_lem_example :
    (g : Heap) × (slot_set two_cells 65544 1 99 ≡ some g)
    × Kept two_owners no_depth g (node ∷ array ∷ [])
    × (g.mem 65560 ≡ 99)
    × Within 65560 1 two_words g.mem
slot_set_lem_example =
    slot_set_lem two_owners no_depth two_cells node (node ∷ array ∷ []) (array ∷ []) two-Kept here 1
      99 (omega arith) (omega arith)

alloc_at_lem_example :
    (g : Heap) × (alloc_at two_cells 9 2 65544 ≡ some (65544, g))
    × Kept two_owners no_depth g (node ∷ array ∷ [])
    × (g.mem 65544 ≡ header 1 9 2 0)
alloc_at_lem_example =
    alloc_at_lem two_owners no_depth two_cells node (node ∷ array ∷ []) (array ∷ []) two-Kept here 9
      (omega arith) (omega arith) refl

heap_free_lem_example : (g : Heap) × (heap_free two_cells ≡ some g) × (g.cur_physical ≡ 0)
heap_free_lem_example = heap_free_lem two_cells (node ∷ array ∷ []) two-Books (omega arith)

free-take_cell_example :
    (g : Heap) × (g' : Heap) × (free two_cells 65544 ≡ some g)
    × (take_cell 0 g 24 2 ≡ some (65544, g'))
    × ((k : ℕ) → g'.freelist k ≡ 0)
    × (g'.counted ≡ two_cells.counted)
    × (g'.cur_physical ≡ 65536)
    × (g'.reused ≡ 1)
unfolding measure_words
free-take_cell_example = free-take_cell two_cells node 0 (λ e. omega arith) (omega arith) refl refl

abbrev or_else : {A : Type 0} → Option A → A → A
or_else none d = d
or_else (some a) d = a

abbrev allocated : Ptr × Heap
allocated = or_else (alloc 65536 empty_heap 7 2) (0, empty_heap)

abbrev freed : Heap
freed = or_else (free two_cells 65544) two_cells

free-Books_example : Books freed (array ∷ [])
unfolding free give_back measure_words
free-Books_example =
    free-Books two_cells freed node (node ∷ array ∷ []) (array ∷ []) here refl refl two-Books

-- A scope with an allocation in it and an inner scope.
abbrev first : Ptr × Heap
first = or_else (arena_alloc 131072 (opened empty_heap) 3 1) (0, empty_heap)

abbrev second : Ptr × Heap
second = or_else (arena_alloc 262144 (opened first.1) 4 200) (0, empty_heap)

abbrev closed : Heap
closed = or_else (arena_close second.1 1) empty_heap

empty-Sound : Sound empty_heap
unfolding count
empty-Sound = record { once = λ s. omega arith; no_null = refl }

scope-Scoped : Scoped (opened empty_heap) closed
unfolding count arena_alloc arena_room recycle grow_slab phys_add arena_take logical_mark arena_open
    close_frame unwind
scope-Scoped =
    inner first.1 (opened first.1) second.1 closed 1
      (within 131072 (opened empty_heap) 3 1 first.0 first.1 start refl refl) refl
      (within 262144 (opened first.1) 4 200 second.0 second.1 start refl refl) refl

arena_scope_lem_example :
    (f : Heap) × (arena_close closed 0 ≡ some f) × Restored empty_heap closed f × Sound f
unfolding arena_open
arena_scope_lem_example =
    arena_scope_lem empty_heap (opened empty_heap) closed 0 empty-Sound refl scope-Scoped

arena_close-none_example : arena_close closed 1 ≡ none
unfolding arena_open
arena_close-none_example =
    arena_close-none empty_heap (opened empty_heap) closed 0 1 empty-Sound refl scope-Scoped
      (λ e. omega arith)
