-- ===== src/Fixity/Circles.antt =====
-- grammar/c/wok_resolve.c: where `check_fixity_cycles` reports.
use wokml.Prelude.{
  ℕ, zero, suc, ◌+◌, ◌≡◌, ◌≤◌, ◌<◌, ◌⊎◌, inl, inr, sym, subst, true, false, ◌&&◌, List, [], ◌∷◌,
  ◌==◌, ltb, length, Bool-cases, arith, eq_of_==, ne_of_==,
}
use wokml.Reorder.{WokFixTable}
use wokml.Fixity.Table.{fix_bit}
use wokml.Fixity.Checks.{mutual_bits, speaks, spokesmen}

-- An operator that is on a circle and is the first of its circle.
pub record Speaks (t : WokFixTable) (i : ℕ) : Type 0 where
  pub circular : fix_bit t i i ≡ true
  pub first :
      (j : ℕ) → j < i → fix_bit t j j ≡ true → fix_bit t i j ≡ true → fix_bit t j i ≡ true → ⊥

speaks-first :
    (t : WokFixTable) (i left : ℕ)
    → speaks t i left ≡ true
    → (j : ℕ) → j < left
    → fix_bit t j j ≡ true
    → fix_bit t i j ≡ true
    → fix_bit t j i ≡ true
    → ⊥
unfolding speaks
speaks-first t i zero h j l a b c = omega arith
speaks-first t i (suc n) h j l a b c = elim (Bool-cases (j == n)) [
  | inl z ↦
      let at = eq_of_== j n z in
      let a' : fix_bit t n n ≡ true = subst (λ v. fix_bit t v v ≡ true) at a in
      let b' : fix_bit t i n ≡ true = subst (λ v. fix_bit t i v ≡ true) at b in
      let c' : fix_bit t n i ≡ true = subst (λ v. fix_bit t v i ≡ true) at c in
      let e = rw (a', b', c') at h in cc
  | inr z ↦ let ne = ne_of_== j n z in speaks-first t i n (ground arith) j (omega arith) a b c
]

-- An operator that does not speak has one before it in its circle.
silent :
    (t : WokFixTable) (i left : ℕ)
    → speaks t i left ≡ false
    → (j : ℕ) × (j < left)
      × (fix_bit t j j ≡ true)
      × (fix_bit t i j ≡ true)
      × (fix_bit t j i ≡ true)
unfolding speaks
silent t i zero h = cc
silent t i (suc n) h = elim (Bool-cases (fix_bit t n n && mutual_bits t i n)) [
  | inl z ↦ (n, omega arith, ground arith, ground arith, ground arith)
  | inr z ↦ let (j, l, a, b, c) = silent t i n (rw z at h) in (j, omega arith, a, b, c)
]

abbrev pub Among : ℕ → List ℕ → Type 0
Among i [] = ⊥
Among i (j ∷ js) = (i ≡ j) ⊎ Among i js

speaks_lem : (t : WokFixTable) (i : ℕ) → Speaks t i → speaks t i i ≡ true
speaks_lem t i s = elim (Bool-cases (speaks t i i)) [
  | inl z ↦ z
  | inr z ↦ let (j, l, a, b, c) = silent t i i z in absurd (s.first j l a b c)
]

spokesmen-Among :
    (t : WokFixTable) (left i j : ℕ)
    → i ≤ j
    → j < i + left
    → Speaks t j
    → Among j (spokesmen t left i)
unfolding spokesmen
spokesmen-Among t zero i j p q s = absurd (omega arith)
spokesmen-Among t (suc left) i j p q s = elim (Bool-cases (j == i)) [
  | inl z ↦
      let at = eq_of_== j i z in
      let a : fix_bit t i i ≡ true = subst (λ v. fix_bit t v v ≡ true) at s.circular in
      let b : speaks t i i ≡ true = subst (λ v. speaks t v v ≡ true) at (speaks_lem t j s) in
      rw (a, b) (inl at)
  | inr z ↦
      let ne = ne_of_== j i z in
      let later = spokesmen-Among t left (i + 1) j (ground arith) (omega arith) s in
      elim (Bool-cases (fix_bit t i i && speaks t i i)) [
        | inl y ↦ rw y (inr later)
        | inr y ↦ rw y later
      ]
]

Among-spokesmen :
    (t : WokFixTable) (left i j : ℕ) → Among j (spokesmen t left i) → Speaks t j × (j < i + left)
unfolding spokesmen
Among-spokesmen t zero i j a = elim a [ ]
Among-spokesmen t (suc left) i j a = elim (Bool-cases (fix_bit t i i && speaks t i i)) [
  | inl z ↦ elim (rw z at a) [
    | inl e ↦ (
      record {
        circular = subst (λ v. fix_bit t v v ≡ true) (sym e) (ground arith);
        first =
            subst
              (λ v.
                (j : ℕ)
                → j < v
                → fix_bit t j j ≡ true
                → fix_bit t v j ≡ true
                → fix_bit t j v ≡ true
                → ⊥)
              (sym e) (speaks-first t i i (ground arith));
      },
      omega arith,
    )
    | inr b ↦ let (s, l) = Among-spokesmen t left (i + 1) j b in (s, omega arith)
  ]
  | inr z ↦ let (s, l) = Among-spokesmen t left (i + 1) j (rw z at a) in (s, omega arith)
]

-- Two operators of one circle.
pub record SameCircle (t : WokFixTable) (i j : ℕ) : Type 0 where
  pub there : fix_bit t i j ≡ true
  pub back : fix_bit t j i ≡ true

-- The bits of the table are those of a transitive relation.
abbrev pub IsTransitive : WokFixTable → Type 0
IsTransitive t =
    (i j k : ℕ)
    → i < length t.ops
    → j < length t.ops
    → k < length t.ops
    → fix_bit t i j ≡ true
    → fix_bit t j k ≡ true
    → fix_bit t i k ≡ true

module _ (t : WokFixTable) (closed : IsTransitive t) (i : ℕ) (p : i < length t.ops) where
  -- The first operator of the circle, from one that is no later than `i`.
  speaker :
      (bound j : ℕ)
      → j < bound
      → j ≤ i
      → SameCircle t i j
      → (k : ℕ) × (k ≤ i) × Speaks t k × SameCircle t i k
  speaker zero j l m c = absurd (omega arith)
  speaker (suc bound) j l m c =
      let pj : j < length t.ops = omega arith in
      elim (Bool-cases (speaks t j j)) [
        | inl z ↦ (
          j,
          m,
          record { circular = closed j i j pj p pj c.back c.there; first = speaks-first t j j z },
          c,
        )
        | inr z ↦
            let (k, b, a, to, from) = silent t j j z in
            let pk : k < length t.ops = omega arith in
            speaker bound k (omega arith) (omega arith) (record {
              there = closed i j k p pj pk c.there to;
              back = closed k j i pk pj p from c.back;
            })
      ]

  one_speaker :
      (j k : ℕ)
      → j < length t.ops
      → k < length t.ops
      → SameCircle t i j
      → SameCircle t i k
      → Speaks t j
      → Speaks t k
      → j ≡ k
  one_speaker j k pj pk c d s r =
      let jk = closed j i k pj p pk c.back d.there in
      let kj = closed k i j pk p pj d.back c.there in
      elim (Bool-cases (ltb j k)) [
        | inl z ↦ absurd (r.first j (ground arith) s.circular kj jk)
        | inr z ↦ elim (Bool-cases (ltb k j)) [
          | inl y ↦ absurd (s.first k (ground arith) r.circular jk kj)
          | inr y ↦ ground arith
        ]
      ]

-- What is reported of the circle of `i`: one of its members, and no other.
pub record ReportedOnce (t : WokFixTable) (i : ℕ) : Type 0 where
  pub member : ℕ
  pub no_later : member ≤ i
  pub same_circle : SameCircle t i member
  pub reported : Among member (spokesmen t (length t.ops) 0)
  pub no_other : (k : ℕ) → SameCircle t i k → Among k (spokesmen t (length t.ops) 0) → k ≡ member

-- In a table whose relation is transitive: of the circle of an operator that reaches itself
-- exactly one member is reported, and it stands no later in the table than that operator.
pub circle-ReportedOnce :
    (t : WokFixTable) (i : ℕ)
    → IsTransitive t
    → i < length t.ops
    → fix_bit t i i ≡ true
    → ReportedOnce t i
circle-ReportedOnce t i closed p c =
    let (k, l, s, m) =
      speaker t closed i p (suc i) i (omega arith) (omega arith) (record { there = c; back = c }) in
    record {
      member = k;
      no_later = l;
      same_circle = m;
      reported = spokesmen-Among t (length t.ops) 0 k (omega arith) (omega arith) s;
      no_other = λ j d a.
          let (r, q) = Among-spokesmen t (length t.ops) 0 j a in
          one_speaker t closed i p j k (omega arith) (omega arith) d m r s;
    }

-- Where nothing is reported, no operator reaches itself.
pub spokesmen-none :
    (t : WokFixTable) (i : ℕ)
    → IsTransitive t
    → spokesmen t (length t.ops) 0 ≡ []
    → i < length t.ops
    → fix_bit t i i ≡ false
spokesmen-none t i closed e p = elim (Bool-cases (fix_bit t i i)) [
  | inr z ↦ z
  | inl z ↦
      let once = circle-ReportedOnce t i closed p z in
      absurd (subst (λ l. Among once.member l) e once.reported)
]
