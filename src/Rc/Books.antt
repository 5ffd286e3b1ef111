-- ===== src/Rc/Books.antt =====
-- runtime/wok_rc.c, the slab backend: the counters of cells, bytes, slabs and physical memory.
use wokml.Prelude.{
  ℕ, ◌+◌, ◌*◌, ◌%◌, ◌≡◌, ◌<◌, refl, sym, ap, subst, none, some, ◌∷◌, ltb, ◌==◌, if◌then◌else◌,
  length, Bool-cases, inl, inr, arith, >>=-eq-some,
}
use wokml.Rc.{
  Ptr, Memory, Heap, u64, add64, sub64, heap_new, arena_size, num_classes, phys_add, grow_slab,
  no_room, new_slab, bump_off, bump, pop, small, large, take_cell, count_alloc, logical_mark,
  measure, measure_words, array_cell_bytes, string_cell_bytes, give_back, free,
}

-- The counters when `n` cells of `b` bytes are in use, `x` of them bytes of large cells.
pub record Accounts (h : Heap) (n b x : ℕ) : Type 0 where
  pub live : h.live ≡ n % u64
  pub balance : h.live ≡ sub64 h.allocs h.frees
  pub bytes : h.cur_bytes ≡ b % u64
  pub slabs : h.counted.nslabs ≡ length h.counted.slabs % u64
  pub scopes : h.arena.nslabs ≡ (length h.arena.slabs + length h.arena_free_slabs) % u64
  pub physical :
      h.cur_physical
      ≡ (arena_size * (length h.counted.slabs + length h.arena.slabs + length h.arena_free_slabs)
          + x)
        % u64
  pub bounded : (h.allocs < u64) × (h.frees < u64)

pub heap_new-Accounts : (mem : Memory) → Accounts (heap_new mem) 0 0 0
heap_new-Accounts mem = record {
  live = refl;
  balance = refl;
  bytes = refl;
  slabs = refl;
  scopes = refl;
  physical = refl;
  bounded = (omega arith, omega arith);
}

-- The bytes of a large cell.
abbrev pub held : (sz cls : ℕ) → ℕ
held sz cls = if ltb cls num_classes then 0 else sz

module _ (m : Ptr) (h : Heap) (n b x : ℕ) (a : Accounts h n b x) where
  new_slab-Accounts : (g : Heap) → new_slab m h ≡ some g → Accounts g n b x
  unfolding new_slab grow_slab phys_add
  new_slab-Accounts g e = elim (Bool-cases (m == 0)) [
    | inl z ↦ let e' = rw z at e in cc
    | inr z ↦
        let e' = rw z at e in
        let same : g ≡ record (phys_add h arena_size) {
          counted = record {
            slabs = m ∷ h.counted.slabs;
            bump_ptr = m + 8;
            bump_end = m + arena_size;
            nslabs = add64 h.counted.nslabs 1;
          };
        } =
          cc in
        subst (λ k. Accounts k n b x) (sym same)
          (record {
            live = a.live;
            balance = a.balance;
            bytes = a.bytes;
            slabs = omega (arith, a.slabs);
            scopes = a.scopes;
            physical = omega (arith, a.physical);
            bounded = a.bounded;
          })
  ]

  bump-Accounts : (p : Ptr) (g : Heap) (sz : ℕ) → bump m h sz ≡ some (p, g) → Accounts g n b x
  unfolding bump
  bump-Accounts p g sz e = elim (Bool-cases (no_room h.counted sz)) [
    | inl z ↦
        let e' = rw z at e in
        let (k, f, s) = >>=-eq-some (new_slab m h) (λ g. some (bump_off g sz)) e' in
        let a' = new_slab-Accounts k f in
        let same : g ≡ (bump_off k sz).1 = cc in
        subst (λ k. Accounts k n b x) (sym same)
          (record {
            live = a'.live;
            balance = a'.balance;
            bytes = a'.bytes;
            slabs = a'.slabs;
            scopes = a'.scopes;
            physical = a'.physical;
            bounded = a'.bounded;
          })
    | inr z ↦
        let e' = rw z at e in
        let same : g ≡ (bump_off h sz).1 = cc in
        subst (λ k. Accounts k n b x) (sym same)
          (record {
            live = a.live;
            balance = a.balance;
            bytes = a.bytes;
            slabs = a.slabs;
            scopes = a.scopes;
            physical = a.physical;
            bounded = a.bounded;
          })
  ]

  small-Accounts :
      (p : Ptr) (g : Heap) (sz cls : ℕ) → small m h sz cls ≡ some (p, g) → Accounts g n b x
  unfolding small
  small-Accounts p g sz cls e = elim (Bool-cases (h.freelist cls == 0)) [
    | inl z ↦ bump-Accounts p g sz (rw z at e)
    | inr z ↦
        let e' = rw z at e in
        let same : g ≡ (pop h cls).1 = cc in
        subst (λ k. Accounts k n b x) (sym same)
          (record {
            live = a.live;
            balance = a.balance;
            bytes = a.bytes;
            slabs = a.slabs;
            scopes = a.scopes;
            physical = a.physical;
            bounded = a.bounded;
          })
  ]

  large-Accounts :
      (p : Ptr) (g : Heap) (sz : ℕ) → large m h sz ≡ some (p, g) → Accounts g n b (x + sz)
  unfolding large phys_add
  large-Accounts p g sz e = elim (Bool-cases (m == 0)) [
    | inl z ↦ let e' = rw z at e in cc
    | inr z ↦
        let e' = rw z at e in
        let same : g ≡ phys_add h sz = cc in
        subst (λ k. Accounts k n b (x + sz)) (sym same)
          (record {
            live = a.live;
            balance = a.balance;
            bytes = a.bytes;
            slabs = a.slabs;
            scopes = a.scopes;
            physical = omega (arith, a.physical);
            bounded = a.bounded;
          })
  ]

  pub take_cell-Accounts :
      (p : Ptr) (g : Heap) (sz cls : ℕ)
      → take_cell m h sz cls ≡ some (p, g)
      → Accounts g n b (x + held sz cls)
  unfolding take_cell
  take_cell-Accounts p g sz cls e = elim (Bool-cases (ltb cls num_classes)) [
    | inl z ↦
        let s = small-Accounts p g sz cls (rw z at e) in
        rw z (subst (Accounts g n b) (omega arith) s)
    | inr z ↦ rw z (large-Accounts p g sz (rw z at e))
  ]

-- A counted cell, in whatever memory.
pub count_alloc-Accounts :
    (h : Heap) (mem : Memory) (n b x sz : ℕ)
    → Accounts h n b x
    → Accounts (count_alloc (record h { mem = mem }) sz) (n + 1) (b + sz) x
unfolding count_alloc logical_mark
count_alloc-Accounts h mem n b x sz a = record {
  live = omega (arith, a.live);
  balance = omega (arith, a.balance, a.bounded.0, a.bounded.1);
  bytes = omega (arith, a.bytes);
  slabs = a.slabs;
  scopes = a.scopes;
  physical = a.physical;
  bounded = (omega arith, a.bounded.1);
}

-- A size never wraps.
pub measure_words-bytes : (w l bytes cls : ℕ) → measure_words w l ≡ some (bytes, cls) → bytes < u64
unfolding measure_words array_cell_bytes string_cell_bytes
measure_words-bytes w l bytes cls says = ground arith

pub free-Accounts :
    (h g : Heap) (p : Ptr) (n b x bytes cls : ℕ)
    → free h p ≡ some g
    → measure h.mem p ≡ some (bytes, cls)
    → Accounts h (n + 1) (b + bytes) (x + held bytes cls)
    → Accounts g n b x
unfolding free give_back
free-Accounts h g p n b x bytes cls e says a =
    let wrap = measure_words-bytes (h.mem p) (h.mem (p + 8)) bytes cls says in
    elim (Bool-cases (h.mem p % 4294967296 == 0)) [
      | inr z ↦ let e' = rw z at e in cc
      | inl z ↦ elim (Bool-cases (ltb cls num_classes)) [
        | inl s ↦
            let e' = rw (z, says, s) at e in
            let held0 : held bytes cls ≡ 0 = rw s refl in
            let same = ap (λ o. elim o [ none ↦ g | some k ↦ k ]) e' in
            subst (λ k. Accounts k n b x) same
              (record {
                live = omega (arith, a.live);
                balance = omega (arith, a.live, a.balance, a.bounded.0, a.bounded.1);
                bytes = omega (arith, a.bytes, wrap);
                slabs = a.slabs;
                scopes = a.scopes;
                physical = omega (arith, a.physical, held0);
                bounded = (a.bounded.0, omega arith);
              })
        | inr s ↦
            let e' = rw (z, says, s) at e in
            let held1 : held bytes cls ≡ bytes = rw s refl in
            let same = ap (λ o. elim o [ none ↦ g | some k ↦ k ]) e' in
            subst (λ k. Accounts k n b x) same
              (record {
                live = omega (arith, a.live);
                balance = omega (arith, a.live, a.balance, a.bounded.0, a.bounded.1);
                bytes = omega (arith, a.bytes, wrap);
                slabs = a.slabs;
                scopes = a.scopes;
                physical = omega (arith, a.physical, held1);
                bounded = (a.bounded.0, omega arith);
              })
      ]
    ]
