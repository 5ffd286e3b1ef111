-- ===== src/Fixity/Index.antt =====
-- grammar/c/wok_resolve.c: the index of names finds what a search from the first operator on finds.
use wokml.Prelude.{
  ℕ, zero, suc, ◌+◌, ◌≡◌, ◌≢◌, ◌≤◌, ◌<◌, inl, inr, refl, sym, ap, ◌∙◌, subst, true, false, Option,
  none, some, some-injective, List, [], ◌∷◌, ◌==◌, length, get_or, Bool-cases, Option-cases, arith,
  ne_of_==,
}
use wokml.Ast.{WokSpan}
use wokml.Reorder.{Ro, WokFixOp, span_eq, find_from}
use wokml.Reorder.Compare.{span_eq-Same, Same-span_eq}
use wokml.Fixity.{
  u32_max, name_eq, name_hash, NameIdx, entry_at, key_at, next_slot, first_slot, probe, idx_find,
  nobody,
}
use wokml.Fixity.Slots.{
  IsSized, masked-lt, gap, gap_next, gap-lt, Leads, stop, step, count_used, free_slot,
}

abbrev pub name_at : List WokFixOp → ℕ → WokSpan
name_at ops i = (get_or ops i nobody).name

-- A search that finds a place finds an operator of that name there.
pub find_from_hit :
    (ro : Ro) (a : WokSpan) (i k : ℕ) (ops : List WokFixOp)
    → find_from ro a i ops ≡ some k
    → (j : ℕ) × (k ≡ i + j) × (j < length ops) × (span_eq ro a (name_at ops j) ≡ true)
unfolding find_from
find_from_hit ro a i k [] e = cc
find_from_hit ro a i k (op ∷ ops) e = elim (Bool-cases (span_eq ro a op.name)) [
  | inl z ↦ (0, let f = some-injective i k (rw z at e) in omega arith, omega arith, z)
  | inr z ↦
      let (j, f, l, h) = find_from_hit ro a (i + 1) k ops (rw z at e) in
      (suc j, omega arith, omega arith, h)
]

pub find_from_miss :
    (ro : Ro) (a : WokSpan) (i j : ℕ) (ops : List WokFixOp)
    → find_from ro a i ops ≡ none
    → j < length ops
    → span_eq ro a (name_at ops j) ≡ false
unfolding find_from
find_from_miss ro a i j [] e l = absurd (omega arith)
find_from_miss ro a i zero (op ∷ ops) e l = elim (Bool-cases (span_eq ro a op.name)) [
  | inl z ↦ let f = rw z at e in cc
  | inr z ↦ z
]
find_from_miss ro a i (suc j) (op ∷ ops) e l = elim (Bool-cases (span_eq ro a op.name)) [
  | inl z ↦ let f = rw z at e in cc
  | inr z ↦ find_from_miss ro a (i + 1) j ops (rw z at e) (omega arith)
]

pub span_eq_sym : (ro : Ro) (a b : WokSpan) → span_eq ro a b ≡ true → span_eq ro b a ≡ true
span_eq_sym ro a b h = let (l, t) = span_eq-Same ro a b h in Same-span_eq ro b a (sym l, sym t)

pub span_eq_trans :
    (ro : Ro) (a b c : WokSpan)
    → span_eq ro a b ≡ true
    → span_eq ro b c ≡ true
    → span_eq ro a c ≡ true
span_eq_trans ro a b c h g =
    let (l, t) = span_eq-Same ro a b h in
    let (l', t') = span_eq-Same ro b c g in Same-span_eq ro a c (l ∙ l', t ∙ t')

-- Two names that are spelled alike start a probe at one slot.
first_slot_same :
    (ro : Ro) (ix : NameIdx) (a b : WokSpan)
    → span_eq ro a b ≡ true
    → first_slot ro.src ix a ≡ first_slot ro.src ix b
unfolding name_hash
first_slot_same ro ix a b h = let (l, t) = span_eq-Same ro a b h in rw t refl

pub name_eq-span_eq : (ro : Ro) (a b : WokSpan) → name_eq ro.src a b ≡ span_eq ro a b
unfolding name_eq span_eq
name_eq-span_eq ro a b = refl

-- The index holds the names of `ops`, each at its place, and nothing else.
pub record Holds (ro : Ro) (ix : NameIdx) (ops : List WokFixOp) : Type 0 where
  pub sized : IsSized ix
  pub used : count_used ix.entry ≡ length ops
  pub small : length ops ≤ u32_max
  pub sound :
      (k : ℕ)
      → k < ix.mask + 1
      → entry_at ix k ≢ u32_max
      → (entry_at ix k < length ops) × (key_at ix k ≡ name_at ops (entry_at ix k))
  pub found :
      (e : ℕ)
      → e < length ops
      → (s : ℕ) × (s < ix.mask + 1)
        × (entry_at ix s ≡ e)
        × Leads ix s (first_slot ro.src ix (name_at ops e))
  pub distinct :
      (i j : ℕ)
      → i < length ops
      → j < length ops
      → span_eq ro (name_at ops i) (name_at ops j) ≡ true
      → i ≡ j

-- The place of a name as the index gives it.
abbrev pub place : Option ℕ → ℕ
place none = u32_max
place (some i) = i

module _ (ro : Ro) (ix : NameIdx) (ops : List WokFixOp) (h : Holds ro ix ops) where
  -- A key spelled like `name` stands at the place of the operator of that name.
  key_match :
      (name : WokSpan) (e k : ℕ)
      → e < length ops
      → span_eq ro name (name_at ops e) ≡ true
      → k < ix.mask + 1
      → entry_at ix k ≢ u32_max
      → name_eq ro.src (key_at ix k) name ≡ true
      → entry_at ix k ≡ e
  key_match name e k l m p n q =
      let (inside, key) = h.sound k p n in
      let q' : span_eq ro (name_at ops (entry_at ix k)) name ≡ true =
        ap (λ s. span_eq ro s name) (sym key) ∙ sym (name_eq-span_eq ro (key_at ix k) name) ∙ q in
      h.distinct (entry_at ix k) e inside l
        (span_eq_trans ro (name_at ops (entry_at ix k)) name (name_at ops e) q' m)

  probe_present :
      (name : WokSpan) (e s f fuel k : ℕ)
      → e < length ops
      → span_eq ro name (name_at ops e) ≡ true
      → k < ix.mask + 1
      → f < ix.mask + 1
      → entry_at ix f ≡ u32_max
      → gap ix k f < fuel
      → entry_at ix s ≡ e
      → Leads ix s k
      → probe fuel ro.src ix name k ≡ some e
  unfolding probe
  probe_present name e s f zero k l m p q g d at way = absurd (omega arith)
  probe_present name e s f (suc fuel) k l m p q g d at stop =
      let small = h.small in
      let taken : (entry_at ix s == u32_max) ≡ false = ground arith in
      let (inside, key) = h.sound s p (λ c. omega arith) in
      let alike : span_eq ro (name_at ops e) name ≡ true = span_eq_sym ro name (name_at ops e) m in
      let same : name_eq ro.src (key_at ix s) name ≡ true =
        name_eq-span_eq ro (key_at ix s) name
        ∙ ap (λ v. span_eq ro v name) (key ∙ ap (λ v. name_at ops v) at)
        ∙ alike in
      rw (taken, same) (ap (λ v. some v) at)
  probe_present name e s f (suc fuel) k l m p q g d at (step n way) =
      let taken : (entry_at ix k == u32_max) ≡ false = ground arith in
      elim (Bool-cases (name_eq ro.src (key_at ix k) name)) [
        | inl z ↦ rw (taken, z) (ap (λ v. some v) (key_match name e k l m p n z))
        | inr z ↦
            let ne : k ≢ f = λ c. n (ap (λ t. entry_at ix t) c ∙ g) in
            let near = gap_next ix k f h.sized p q ne in
            rw (taken, z)
              (probe_present name e s f fuel (next_slot ix k) l m (masked-lt ix (k + 1) h.sized) q g
                (omega arith) at way)
      ]

  probe_absent :
      (name : WokSpan) (f fuel k : ℕ)
      → ((j : ℕ) → j < length ops → span_eq ro name (name_at ops j) ≡ false)
      → k < ix.mask + 1
      → f < ix.mask + 1
      → entry_at ix f ≡ u32_max
      → gap ix k f < fuel
      → probe fuel ro.src ix name k ≡ some u32_max
  unfolding probe
  probe_absent name f zero k m p q g d = absurd (omega arith)
  probe_absent name f (suc fuel) k m p q g d = elim (Bool-cases (entry_at ix k == u32_max)) [
    | inl z ↦ rw z refl
    | inr z ↦
        let n = ne_of_== (entry_at ix k) u32_max z in
        let (inside, key) = h.sound k p n in
        let ne : k ≢ f = λ c. n (ap (λ t. entry_at ix t) c ∙ g) in
        let near = gap_next ix k f h.sized p q ne in
        elim (Bool-cases (name_eq ro.src (key_at ix k) name)) [
          | inl y ↦
              let match : span_eq ro (name_at ops (entry_at ix k)) name ≡ true =
                ap (λ s. span_eq ro s name) (sym key)
                ∙ sym (name_eq-span_eq ro (key_at ix k) name)
                ∙ y in
              let back = span_eq_sym ro (name_at ops (entry_at ix k)) name match in
              let miss = m (entry_at ix k) inside in cc
          | inr y ↦
              rw (z, y)
                (probe_absent name f fuel (next_slot ix k) m (masked-lt ix (k + 1) h.sized) q g
                  (omega arith))
        ]
  ]

  -- In an index that holds the names of the operators, with fewer operators than slots: a lookup
  -- ends, and gives the place of the first operator of that name, or `UINT32_MAX` if there is
  -- none.
  pub idx_find-find_from :
      (name : WokSpan)
      → length ops < ix.mask + 1
      → idx_find ro.src ix name ≡ some (place (find_from ro name 0 ops))
  unfolding idx_find
  idx_find-find_from name roomy =
      let used = h.used in
      let (f, q, g) = free_slot ix h.sized (omega arith) in
      let p : first_slot ro.src ix name < ix.mask + 1 =
        masked-lt ix (name_hash ro.src name) h.sized in
      let d = gap-lt ix (first_slot ro.src ix name) f p q in
      elim (Option-cases (find_from ro name 0 ops)) [
        | inl z ↦ rw z (
            probe_absent name f (ix.mask + 1) (first_slot ro.src ix name)
              (λ j l. find_from_miss ro name 0 j ops z l) p q g d)
        | inr (k, z) ↦
            let (e, k', l, m) = find_from_hit ro name 0 k ops z in
            let (s, _, at, way) = h.found e l in
            let start : first_slot ro.src ix (name_at ops e) ≡ first_slot ro.src ix name =
              sym (first_slot_same ro ix name (name_at ops e) m) in
            rw z (
              probe_present name e s f (ix.mask + 1) (first_slot ro.src ix name) l m p q g d at
                (subst (λ v. Leads ix s v) start way)
              ∙ ap (λ v. some v) (omega arith))
      ]
