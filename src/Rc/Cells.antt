-- ===== src/Rc/Cells.antt =====
-- runtime/wok_rc.c, the slab backend: the allocators of each kind of cell, reuse in place, the
-- counts of references and the words of a cell.
use wokml.Prelude.{
  ℕ, ◌+◌, ◌-◌, ◌*◌, ◌%◌, Bool, not, ◌&&◌, Option, none, some, ltb, ◌==◌, if◌then◌else◌, ◌>>=◌,
}
use wokml.Rc.{
  Ptr, Heap, write, header, header_rc, header_tag, header_arity, set_rc, cell_bytes,
  array_cell_bytes, array_class, string_cell_bytes, string_class, take_cell, count_alloc, array_tag,
  string_tag, string_view_tag, bytes_tag, foreign_bytes_tag, borrow_view_tag, add64,
}

-- The header of a new cell, with one reference.
abbrev pub stamp : Heap → Ptr → (tag arity : ℕ) → Heap
stamp h p tag arity = record h { mem = write h.mem p (header 1 tag arity 0) }

abbrev pub set_word : Heap → Ptr → ℕ → Heap
set_word h a v = record h { mem = write h.mem a v }

unfoldable pub alloc : (m : Ptr) → Heap → (tag arity : ℕ) → Option (Ptr × Heap)
alloc m h tag arity =
    if ltb tag 65536 && ltb arity 256
    then (do
      (p, g) ← take_cell m h (cell_bytes arity) arity
      some (p, count_alloc (stamp g p tag arity) (cell_bytes arity)))
    else none

unfoldable pub array_alloc : (m : Ptr) → Heap → (len elemkind : ℕ) → Option (Ptr × Heap)
array_alloc m h len elemkind = do
  sz ← array_cell_bytes len
  (p, g) ← take_cell m h sz (array_class len)
  some (p, count_alloc (set_word (stamp g p array_tag elemkind) (p + 8) len) sz)

unfoldable pub string_alloc : (m : Ptr) → Heap → (byte_len : ℕ) → Option (Ptr × Heap)
string_alloc m h byte_len = do
  sz ← string_cell_bytes byte_len
  (p, g) ← take_cell m h sz (string_class byte_len)
  some (p, count_alloc (set_word (stamp g p string_tag 0) (p + 8) byte_len) sz)

unfoldable pub bytes_alloc : (m : Ptr) → Heap → (byte_len : ℕ) → Option (Ptr × Heap)
bytes_alloc m h byte_len = do
  sz ← string_cell_bytes byte_len
  (p, g) ← take_cell m h sz (string_class byte_len)
  some (p, count_alloc (set_word (stamp g p bytes_tag 0) (p + 8) byte_len) sz)

unfoldable pub string_view_alloc :
    (m : Ptr) → Heap → (parent : Ptr) → (off len : ℕ) → Option (Ptr × Heap)
string_view_alloc m h parent off len = do
  (p, g) ← take_cell m h 32 3
  let f = set_word (stamp g p string_view_tag 0) (p + 8) parent
  some (p, count_alloc (set_word (set_word f (p + 16) off) (p + 24) len) 32)

unfoldable pub foreign_bytes_alloc :
    (m : Ptr) → Heap → (data_ptr : Ptr) → (byte_len : ℕ) → Option (Ptr × Heap)
foreign_bytes_alloc m h data_ptr byte_len = do
  (p, g) ← take_cell m h 24 2
  let f = set_word (stamp g p foreign_bytes_tag 0) (p + 8) data_ptr
  some (p, count_alloc (set_word f (p + 16) byte_len) 24)

unfoldable pub borrow_view_alloc :
    (m : Ptr) → Heap → (ptr : Ptr) → (byte_len : ℕ) → Option (Ptr × Heap)
borrow_view_alloc m h ptr byte_len = do
  (p, g) ← take_cell m h 24 2
  let f = set_word (stamp g p borrow_view_tag 0) (p + 8) ptr
  some (p, count_alloc (set_word f (p + 16) byte_len) 24)

-- Reuse in place of the cell at `p`, whose count has reached 0.
unfoldable pub alloc_at : Heap → (tag arity : ℕ) → Ptr → Option (Ptr × Heap)
alloc_at h tag arity p =
    if not (ltb tag 65536 && ltb arity 256)
    then none
    else if not (header_arity (h.mem p) == arity)
    then none
    else if not (header_rc (h.mem p) == 0)
    then none
    else some (p, record (stamp h p tag arity) { reused_inplace = add64 h.reused_inplace 1 })

-- `wok_dup`; the count has 32 bits.
unfoldable pub dup : Heap → Ptr → Heap
dup h p = set_word h p (set_rc (h.mem p) ((header_rc (h.mem p) + 1) % 4294967296))

-- `wok_dec`, with the new count.
unfoldable pub dec : Heap → Ptr → Option (ℕ × Heap)
dec h p =
    let rc = header_rc (h.mem p) in
    if rc == 0 then none else some (rc - 1, set_word h p (set_rc (h.mem p) (rc - 1)))

abbrev has_tag : Heap → Ptr → ℕ → Bool
has_tag h p t = header_tag (h.mem p) == t

unfoldable pub slot_set : Heap → Ptr → (i word : ℕ) → Option Heap
slot_set h p i word =
    if ltb i (header_arity (h.mem p)) then some (set_word h (p + 8 + 8 * i) word) else none

unfoldable pub slot_get : Heap → Ptr → (i : ℕ) → Option ℕ
slot_get h p i = if ltb i (header_arity (h.mem p)) then some (h.mem (p + 8 + 8 * i)) else none

unfoldable pub array_slot_set : Heap → Ptr → (i word : ℕ) → Option Heap
array_slot_set h p i word =
    if has_tag h p array_tag && ltb i (h.mem (p + 8))
    then some (set_word h (p + 16 + 8 * i) word)
    else none

unfoldable pub array_slot_get : Heap → Ptr → (i : ℕ) → Option ℕ
array_slot_get h p i =
    if has_tag h p array_tag && ltb i (h.mem (p + 8)) then some (h.mem (p + 16 + 8 * i)) else none

-- A word of a cell behind the test of its tag: the lengths and pointers of the special cells.
abbrev word_of : Heap → Ptr → (tag offset : ℕ) → Option ℕ
word_of h p tag offset = if has_tag h p tag then some (h.mem (p + offset)) else none

unfoldable pub array_len : Heap → Ptr → Option ℕ
array_len h p = word_of h p array_tag 8

unfoldable pub array_elemkind : Heap → Ptr → Option ℕ
array_elemkind h p = if has_tag h p array_tag then some (header_arity (h.mem p)) else none

unfoldable pub string_len : Heap → Ptr → Option ℕ
string_len h p = word_of h p string_tag 8

unfoldable pub bytes_len : Heap → Ptr → Option ℕ
bytes_len h p = word_of h p bytes_tag 8

unfoldable pub string_view_parent : Heap → Ptr → Option Ptr
string_view_parent h p = word_of h p string_view_tag 8

unfoldable pub string_view_offset : Heap → Ptr → Option ℕ
string_view_offset h p = word_of h p string_view_tag 16

unfoldable pub string_view_len : Heap → Ptr → Option ℕ
string_view_len h p = word_of h p string_view_tag 24

unfoldable pub foreign_bytes_ptr : Heap → Ptr → Option Ptr
foreign_bytes_ptr h p = word_of h p foreign_bytes_tag 8

unfoldable pub foreign_bytes_len : Heap → Ptr → Option ℕ
foreign_bytes_len h p = word_of h p foreign_bytes_tag 16

unfoldable pub borrow_view_ptr : Heap → Ptr → Option Ptr
borrow_view_ptr h p = word_of h p borrow_view_tag 8

unfoldable pub borrow_view_len : Heap → Ptr → Option ℕ
borrow_view_len h p = word_of h p borrow_view_tag 16
