-- ===== src/Rc.antt =====
-- runtime/wok_rc.c, the slab backend: the state of a heap, how large a cell is, and where the
-- memory of a cell comes from and goes to.
-- `mem` holds the 8-byte words of the process by address; the first word of a cell is its header.
-- Pointers are addresses, and NULL is 0. The links of the slab lists, which only those lists read,
-- are lists here. `none` is `abort()` or a failed `assert`. An operation that may call `malloc` takes
-- what `malloc` would return. Counters wrap at 2^64; `live` and `peak` are 64-bit patterns.
pub mod Cells
pub mod Arena
pub mod Owner
pub mod Space
pub mod Words
pub mod Sources
pub mod Grant
pub mod Allocate
pub mod Release
pub mod Update
pub mod Books
pub mod Teardown
pub mod Slabs
pub mod Scopes
pub mod Reuse
mod Tests
use wokml.Prelude.{
  ℕ, zero, suc, ◌+◌, ◌-◌, ◌*◌, ◌/◌, ◌%◌, Bool, true, false, not, ◌&&◌, ◌||◌, Option, none, some,
  List, [], ◌∷◌, ltb, leb, ◌==◌, if◌then◌else◌, length, ◌>>=◌,
}

abbrev pub Ptr : Type 0
Ptr = ℕ

abbrev pub u64 : ℕ
u64 = 18446744073709551616

abbrev pub add64 : ℕ → ℕ → ℕ
add64 a b = (a + b) % 18446744073709551616

abbrev pub sub64 : ℕ → ℕ → ℕ
sub64 a b = (a + 18446744073709551616 - b) % 18446744073709551616

-- `a > b` for two `int64_t`.
abbrev pub signed_gt : ℕ → ℕ → Bool
signed_gt a b = ltb (add64 b 9223372036854775808) (add64 a 9223372036854775808)

abbrev pub Memory : Type 0
Memory = Ptr → ℕ

unfoldable pub write : Memory → Ptr → ℕ → Memory
write m p v a = if a == p then v else m a

abbrev pub arena_size : ℕ
arena_size = 65536

abbrev pub granule : ℕ
granule = 8

abbrev pub num_classes : ℕ
num_classes = 64

abbrev pub arena_max_depth : ℕ
arena_max_depth = 32

abbrev pub array_tag : ℕ
array_tag = 0xFFFF

abbrev pub string_tag : ℕ
string_tag = 0xFFFE

abbrev pub string_view_tag : ℕ
string_view_tag = 0xFFFD

abbrev pub bytes_tag : ℕ
bytes_tag = 0xFFFC

abbrev pub foreign_bytes_tag : ℕ
foreign_bytes_tag = 0xFFFB

abbrev pub borrow_view_tag : ℕ
borrow_view_tag = 0xFFFA

-- A header: `rc`, `tag`, `arity` and `scan`, of 32, 16, 8 and 8 bits.
abbrev pub header : (rc tag arity scan : ℕ) → ℕ
header rc tag arity scan =
    rc + tag * 4294967296 + arity * 281474976710656 + scan * 72057594037927936

abbrev pub header_rc : ℕ → ℕ
header_rc w = w % 4294967296

abbrev pub header_tag : ℕ → ℕ
header_tag w = w / 4294967296 % 65536

abbrev pub header_arity : ℕ → ℕ
header_arity w = w / 281474976710656 % 256

abbrev pub set_rc : (w rc : ℕ) → ℕ
set_rc w rc = w / 4294967296 * 4294967296 + rc

-- A bump region: the counted one or that of the arena scopes.
pub record Region : Type 0 where
  pub slabs : List Ptr
  pub bump_ptr : Ptr
  pub bump_end : Ptr
  pub nslabs : ℕ

pub record ArenaFrame : Type 0 where
  pub slab_at_open : Ptr
  pub bump_ptr_save : Ptr
  pub bump_end_save : Ptr
  pub arena_bytes_before : ℕ

-- `frames` is `arena_stack` up to `arena_depth`, the innermost first.
pub record Heap : Type 0 where
  pub mem : Memory
  pub allocs : ℕ
  pub frees : ℕ
  pub live : ℕ
  pub peak : ℕ
  pub cur_bytes : ℕ
  pub peak_bytes : ℕ
  pub cur_physical : ℕ
  pub peak_physical : ℕ
  pub peak_logical : ℕ
  pub reused : ℕ
  pub reused_inplace : ℕ
  pub counted : Region
  pub freelist : ℕ → Ptr
  pub arena : Region
  pub arena_free_slabs : List Ptr
  pub arena_bytes : ℕ
  pub arena_peak : ℕ
  pub frames : List ArenaFrame

abbrev pub empty_region : Region
empty_region = record { slabs = []; bump_ptr = 0; bump_end = 0; nslabs = 0 }

-- `wok_heap_new`, over a process with the memory `mem`.
abbrev pub heap_new : Memory → Heap
heap_new mem = record {
  mem = mem;
  allocs = 0;
  frees = 0;
  live = 0;
  peak = 0;
  cur_bytes = 0;
  peak_bytes = 0;
  cur_physical = 0;
  peak_physical = 0;
  peak_logical = 0;
  reused = 0;
  reused_inplace = 0;
  counted = empty_region;
  freelist = λ c. 0;
  arena = empty_region;
  arena_free_slabs = [];
  arena_bytes = 0;
  arena_peak = 0;
  frames = [];
}

abbrev pub cell_bytes : (arity : ℕ) → ℕ
cell_bytes arity = 8 + arity * 8

unfoldable pub array_cell_bytes : (len : ℕ) → Option ℕ
array_cell_bytes len =
    if ltb ((18446744073709551615 - 16) / 8) len then none else some (16 + len * 8)

unfoldable pub array_class : (len : ℕ) → ℕ
array_class len = if ltb len (num_classes - 1) then len + 1 else num_classes

unfoldable pub string_cell_bytes : (byte_len : ℕ) → Option ℕ
string_cell_bytes byte_len =
    if ltb (18446744073709551615 - 16 - 7) byte_len
    then none
    else some (16 + 8 * ((byte_len + 7) / 8))

unfoldable pub string_class : (byte_len : ℕ) → ℕ
string_class byte_len =
    let granules = (byte_len + 7) / 8 in
    if ltb granules (num_classes - 1) then granules + 1 else num_classes

-- WOK_PHYS_ADD, WOK_PHYS_SUB and WOK_LOGICAL_MARK
unfoldable pub phys_add : Heap → ℕ → Heap
phys_add h delta =
    let cur = add64 h.cur_physical delta in
    record h {
      cur_physical = cur;
      peak_physical = (if ltb h.peak_physical cur then cur else h.peak_physical);
    }

abbrev pub phys_sub : Heap → ℕ → Heap
phys_sub h delta = record h { cur_physical = sub64 h.cur_physical delta }

unfoldable pub logical_mark : Heap → Heap
logical_mark h =
    let both = add64 h.cur_bytes h.arena_bytes in
    record h { peak_logical = (if ltb h.peak_logical both then both else h.peak_logical) }

-- `wok_grow_slab`, for the region `r` and a slab to install instead of a new one.
unfoldable pub grow_slab :
    (m : Ptr) → Heap → Region → (recycled : Option Ptr) → Option (Region × Heap)
grow_slab m h r none =
    if m == 0
    then none
    else some (
      record {
        slabs = m ∷ r.slabs;
        bump_ptr = m + granule;
        bump_end = m + arena_size;
        nslabs = add64 r.nslabs 1;
      },
      phys_add h arena_size,
    )
grow_slab m h r (some s) =
    some (record r { slabs = s ∷ r.slabs; bump_ptr = s + granule; bump_end = s + arena_size }, h)

-- `bump_ptr == NULL || sz > bump_end - bump_ptr`
abbrev pub no_room : Region → (sz : ℕ) → Bool
no_room r sz = r.bump_ptr == 0 || ltb (r.bump_end - r.bump_ptr) sz

unfoldable pub new_slab : (m : Ptr) → Heap → Option Heap
new_slab m h = do (r, g) ← grow_slab m h h.counted none; some (record g { counted = r })

-- A cell of `sz` bytes off the frontier of the counted region.
abbrev pub bump_off : Heap → (sz : ℕ) → Ptr × Heap
bump_off h sz = (
  h.counted.bump_ptr,
  record h { counted = record h.counted { bump_ptr = h.counted.bump_ptr + sz } },
)

unfoldable pub bump : (m : Ptr) → Heap → (sz : ℕ) → Option (Ptr × Heap)
bump m h sz =
    if no_room h.counted sz
    then (do g ← new_slab m h; some (bump_off g sz))
    else some (bump_off h sz)

unfoldable pub set_freelist : (ℕ → Ptr) → ℕ → Ptr → ℕ → Ptr
set_freelist f cls p c = if c == cls then p else f c

-- The head of a free list, which is not empty; `fl_next` reads the first word of a dead cell.
abbrev pub pop : Heap → (cls : ℕ) → Ptr × Heap
pop h cls = (
  h.freelist cls,
  record h {
    freelist = set_freelist h.freelist cls (h.mem (h.freelist cls));
    reused = add64 h.reused 1;
  },
)

unfoldable pub small : (m : Ptr) → Heap → (sz cls : ℕ) → Option (Ptr × Heap)
small m h sz cls = if h.freelist cls == 0 then bump m h sz else some (pop h cls)

unfoldable pub large : (m : Ptr) → Heap → (sz : ℕ) → Option (Ptr × Heap)
large m h sz = if m == 0 then none else some (m, phys_add h sz)

-- Where the memory of a cell comes from: the part that all allocators share.
unfoldable pub take_cell : (m : Ptr) → Heap → (sz cls : ℕ) → Option (Ptr × Heap)
take_cell m h sz cls = if ltb cls num_classes then small m h sz cls else large m h sz

-- The counters of an allocation of `sz` bytes.
unfoldable pub count_alloc : Heap → (sz : ℕ) → Heap
count_alloc h sz =
    let live = add64 h.live 1 in
    let cur = add64 h.cur_bytes sz in
    logical_mark (record h {
      allocs = add64 h.allocs 1;
      live = live;
      peak = (if signed_gt live h.peak then live else h.peak);
      cur_bytes = cur;
      peak_bytes = (if ltb h.peak_bytes cur then cur else h.peak_bytes);
    })

-- The bytes and the class of a cell, off its header and the word behind it.
unfoldable pub measure_words : (word len : ℕ) → Option (ℕ × ℕ)
measure_words word len =
    let tag = header_tag word in
    if tag == array_tag
    then (do bytes ← array_cell_bytes len; some (bytes, array_class len))
    else if tag == string_tag
    then (do bytes ← string_cell_bytes len; some (bytes, string_class len))
    else if tag == bytes_tag
    then (do bytes ← string_cell_bytes len; some (bytes, string_class len))
    else if tag == string_view_tag
    then some (32, 3)
    else if tag == foreign_bytes_tag
    then some (24, 2)
    else if tag == borrow_view_tag
    then some (24, 2)
    else some (cell_bytes (header_arity word), header_arity word)

-- The bytes and the class of the cell at `p`, as `wok_free` reads them off its tag.
abbrev pub measure : Memory → Ptr → Option (ℕ × ℕ)
measure mem p = measure_words (mem p) (mem (p + 8))

-- The dead cell goes on the free list of its class, or back to `malloc`.
unfoldable pub give_back : Heap → Ptr → (bytes cls : ℕ) → Heap
give_back h p bytes cls =
    if ltb cls num_classes
    then record h { mem = write h.mem p (h.freelist cls); freelist = set_freelist h.freelist cls p }
    else phys_sub h bytes

abbrev pub count_free : Heap → (bytes : ℕ) → Heap
count_free h bytes = record h {
  frees = add64 h.frees 1;
  live = sub64 h.live 1;
  cur_bytes = sub64 h.cur_bytes bytes;
}

unfoldable pub free : Heap → Ptr → Option Heap
free h p =
    if not (header_rc (h.mem p) == 0)
    then none
    else (do (bytes, cls) ← measure h.mem p; some (give_back (count_free h bytes) p bytes cls))
