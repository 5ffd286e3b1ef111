-- ===== src/Rc/Teardown.antt =====
-- runtime/wok_rc.c, the slab backend: the counters through each operation, up to the end of a heap.
use wokml.Prelude.{
  ℕ, ◌+◌, ◌-◌, ◌*◌, ◌/◌, ◌%◌, ◌≡◌, ◌<◌, refl, ◌∙◌, subst, true, ◌&&◌, ◌||◌, not, Option, none, some,
  List, [], ◌∷◌, ltb, ◌==◌, length, Bool-cases, inl, inr, arith, ◌>>=◌, some-injective,
}
use wokml.Rc.{
  Ptr, Memory, Heap, u64, arena_size, cell_bytes, array_cell_bytes, array_class, string_cell_bytes,
  string_class, phys_sub, take_cell, count_alloc, measure, free,
}
use wokml.Rc.Cells.{stamp, set_word, alloc, array_alloc, string_alloc}
use wokml.Rc.Arena.{free_slabs, heap_free}
use wokml.Rc.Owner.{Cell, Picked, here, there}
use wokml.Rc.Books.{Accounts, held, take_cell-Accounts, count_alloc-Accounts, free-Accounts}

abbrev pub total : List Cell → ℕ
total [] = 0
total (c ∷ cs) = c.bytes + total cs

abbrev pub held_total : List Cell → ℕ
held_total [] = 0
held_total (c ∷ cs) = held c.bytes c.cls + held_total cs

-- The counters of a heap with these cells in use.
abbrev pub Books : Heap → List Cell → Type 0
Books h cells = Accounts h (length cells) (total cells) (held_total cells)

pub Accounts-cons :
    (g : Heap) (p sz cls : ℕ) (cells : List Cell)
    → Accounts g (length cells + 1) (total cells + sz) (held_total cells + held sz cls)
    → Books g (record { at = p; bytes = sz; cls = cls } ∷ cells)
Accounts-cons g p sz cls cells a = record {
  live = omega (arith, a.live);
  balance = a.balance;
  bytes = omega (arith, a.bytes);
  slabs = a.slabs;
  scopes = a.scopes;
  physical = omega (arith, a.physical);
  bounded = a.bounded;
}

-- What the allocators share.
taken :
    (m : Ptr) (h g : Heap) (mem : Memory) (p sz cls : ℕ) (cells : List Cell)
    → take_cell m h sz cls ≡ some (p, g)
    → Books h cells
    → Books
        (count_alloc (record g { mem = mem }) sz)
        (record { at = p; bytes = sz; cls = cls } ∷ cells)
taken m h g mem p sz cls cells e a = Accounts-cons _ p sz cls cells (
    count_alloc-Accounts g mem (length cells) (total cells) (held_total cells + held sz cls) sz
      (take_cell-Accounts m h (length cells) (total cells) (held_total cells) a p g sz cls e))

-- A property of what a chain of two steps returns.
done :
    {A B : Type 0} (o : Option A) (f : A → B) (P : B → Type 0) {b : B}
    → ((a : A) → o ≡ some a → P (f a))
    → o >>= (λ a. some (f a)) ≡ some b
    → P b
done none f P k e = cc
done (some a) f P {b} k e = subst P (some-injective (f a) b e) (k a refl)

-- The cell that an allocation of `sz` bytes adds.
abbrev Adds : List Cell → (sz cls : ℕ) → Ptr × Heap → Type 0
Adds cells sz cls (p, g) = Books g (record { at = p; bytes = sz; cls = cls } ∷ cells)

module _ (m : Ptr) (h g : Heap) (p : Ptr) (cells : List Cell) (books : Books h cells) where
  -- If `alloc` returns, and the counters of cells, bytes, slabs and physical bytes agreed with
  -- the cells in use, they agree with them and the new cell, modulo 2^64.
  pub alloc-Books :
      (tag arity : ℕ)
      → alloc m h tag arity ≡ some (p, g)
      → Books g (record { at = p; bytes = cell_bytes arity; cls = arity } ∷ cells)
  unfolding alloc
  alloc-Books tag arity e = elim (Bool-cases (ltb tag 65536 && ltb arity 256)) [
    | inr z ↦ let e' = rw z at e in cc
    | inl z ↦
        let e' = rw z at e in
        done (take_cell m h (cell_bytes arity) arity)
          (λ (q, f). (q, count_alloc (stamp f q tag arity) (cell_bytes arity)))
          (Adds cells (cell_bytes arity) arity)
          (λ (q, f) t. taken m h f _ q (cell_bytes arity) arity cells t books) e'
  ]

  pub array_alloc-Books :
      (len elemkind : ℕ)
      → array_alloc m h len elemkind ≡ some (p, g)
      → Books g (record { at = p; bytes = 16 + len * 8; cls = array_class len } ∷ cells)
  unfolding array_alloc array_cell_bytes
  array_alloc-Books len elemkind e = elim (Bool-cases (ltb ((18446744073709551615 - 16) / 8) len)) [
    | inl z ↦ let e' = rw z at e in cc
    | inr z ↦
        let e' = rw z at e in
        done (take_cell m h (16 + len * 8) (array_class len))
          (λ (q, f).
            (q, count_alloc (set_word (stamp f q 0xFFFF elemkind) (q + 8) len) (16 + len * 8)))
          (Adds cells (16 + len * 8) (array_class len))
          (λ (q, f) t. taken m h f _ q (16 + len * 8) (array_class len) cells t books) e'
  ]

  pub string_alloc-Books :
      (byte_len : ℕ)
      → string_alloc m h byte_len ≡ some (p, g)
      → Books g (
          record { at = p; bytes = 16 + 8 * ((byte_len + 7) / 8); cls = string_class byte_len }
          ∷ cells)
  unfolding string_alloc string_cell_bytes
  string_alloc-Books byte_len e = elim (Bool-cases (ltb (18446744073709551615 - 16 - 7) byte_len)) [
    | inl z ↦ let e' = rw z at e in cc
    | inr z ↦
        let e' = rw z at e in
        let sz = 16 + 8 * ((byte_len + 7) / 8) in
        done (take_cell m h sz (string_class byte_len))
          (λ (q, f). (q, count_alloc (set_word (stamp f q 0xFFFE 0) (q + 8) byte_len) sz))
          (Adds cells sz (string_class byte_len))
          (λ (q, f) t. taken m h f _ q sz (string_class byte_len) cells t books) e'
  ]

-- Releasing a cell takes it off the counters.
Picked-total :
    (c : Cell) {cells rest : List Cell} (k : Picked c cells rest)
    → total cells ≡ total rest + c.bytes
Picked-total c here = omega arith
Picked-total c (there d k) = omega (arith, Picked-total c k)

Picked-held :
    (c : Cell) {cells rest : List Cell} (k : Picked c cells rest)
    → held_total cells ≡ held_total rest + held c.bytes c.cls
Picked-held c here = omega arith
Picked-held c (there d k) = omega (arith, Picked-held c k)

Picked-length :
    (c : Cell) {cells rest : List Cell} (k : Picked c cells rest) → length cells ≡ length rest + 1
Picked-length c here = omega arith
Picked-length c (there d k) = omega (arith, Picked-length c k)

-- If `free` of a cell in use returns, and the counters of cells, bytes, slabs and physical bytes
-- agreed with the cells in use, they agree with the other cells, modulo 2^64.
pub free-Books :
    (h g : Heap) (c : Cell) (cells rest : List Cell)
    → Picked c cells rest
    → measure h.mem c.at ≡ some (c.bytes, c.cls)
    → free h c.at ≡ some g
    → Books h cells
    → Books g rest
free-Books h g c cells rest k says e books =
    free-Accounts h g c.at (length rest) (total rest) (held_total rest) c.bytes c.cls e says (
      subst (λ n. Accounts h n (total rest + c.bytes) (held_total rest + held c.bytes c.cls))
        (Picked-length c k)
        (subst (λ b. Accounts h (length cells) b (held_total rest + held c.bytes c.cls))
          (Picked-total c k)
          (subst (λ x. Accounts h (length cells) (total cells) x) (Picked-held c k) books)))

free_slabs-physical :
    (h : Heap) (ss : List Ptr) (k x : ℕ)
    → h.cur_physical ≡ (arena_size * (length ss + k) + x) % u64
    → ((free_slabs h ss).cur_physical ≡ (arena_size * k + x) % u64)
      × ((free_slabs h ss).live ≡ h.live)
unfolding free_slabs
free_slabs-physical h [] k x e = (omega (arith, e), refl)
free_slabs-physical h (s ∷ ss) k x e =
    free_slabs-physical (phys_sub h arena_size) ss k x (omega (arith, e))

free_slabs-others :
    (h : Heap) (ss : List Ptr)
    → ((free_slabs h ss).counted ≡ h.counted)
      × ((free_slabs h ss).arena ≡ h.arena)
      × ((free_slabs h ss).arena_free_slabs ≡ h.arena_free_slabs)
unfolding free_slabs
free_slabs-others h [] = (refl, refl, refl)
free_slabs-others h (s ∷ ss) = free_slabs-others (phys_sub h arena_size) ss

empty_when_none : (cells : List Cell) → length cells ≡ 0 → held_total cells ≡ 0
empty_when_none [] e = refl
empty_when_none (c ∷ cs) e = omega (arith, e)

-- `heap_free` of a heap whose counters agree with its cells, fewer than 2^64 of them, does not
-- abort. The physical bytes that it leaves are those of the large cells that were not released,
-- modulo 2^64.
pub heap_free_lem :
    (h : Heap) (cells : List Cell)
    → Books h cells
    → length cells < u64
    → (g : Heap) × (heap_free h ≡ some g) × (g.cur_physical ≡ held_total cells % u64)
unfolding heap_free
heap_free_lem h cells books few =
    let x = held_total cells in
    let a = length h.counted.slabs in
    let b = length h.arena.slabs in
    let c = length h.arena_free_slabs in
    let h1 = free_slabs h h.counted.slabs in
    let h2 = free_slabs h1 h.arena.slabs in
    let (p1, l1) =
      free_slabs-physical h h.counted.slabs (b + c) x (omega (arith, books.physical)) in
    let (p2, l2) = free_slabs-physical h1 h.arena.slabs c x p1 in
    let (p3, l3) = free_slabs-physical h2 h.arena_free_slabs 0 x (omega (arith, p2)) in
    let g = free_slabs h2 h.arena_free_slabs in
    let end : g.cur_physical ≡ held_total cells % u64 = omega (arith, p3) in
    let live : g.live ≡ length cells % u64 = l3 ∙ l2 ∙ l1 ∙ books.live in
    let ok : (not (g.live == 0) || g.cur_physical == 0) ≡ true = elim (Bool-cases (g.live == 0)) [
      | inl z ↦
          let n : length cells ≡ 0 = ground arith in
          let o = empty_when_none cells n in
          let zero_bytes : g.cur_physical ≡ 0 = omega (arith, end, o) in rw (z, zero_bytes) refl
      | inr z ↦ rw z refl
    ] in
    (g, rw ok refl, end)
