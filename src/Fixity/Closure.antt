-- ===== src/Fixity/Closure.antt =====
-- grammar/c/wok_resolve.c: the closure of the table, `a` reaches `b` if edges lead from `a` to `b`.
use wokml.Prelude.{
  ℕ, zero, suc, ◌+◌, ◌≡◌, ◌<◌, ◌⊎◌, inl, inr, refl, sym, ap, ◌∙◌, Bool, true, false, ◌&&◌, ◌||◌,
  ◌↔◌, length, Bool-cases, arith, ◌==◌, eq_of_==, ne_of_==, subst,
}
use wokml.Reorder.{WokFixTable}
use wokml.Fixity.Table.{fix_bit, close_rows, close_rounds, warshall}
use wokml.Fixity.Matrix.{IsShaped, close_rows_ops, close_rows-IsShaped, close_round_bit}

-- A walk along the edges of a table, of one edge or more.
pub data Reaches (t : WokFixTable) : ℕ → ℕ → Type 0 where
  edge : {i j : ℕ} → i < length t.ops → j < length t.ops → fix_bit t i j ≡ true → Reaches t i j
  walk : {i j k : ℕ} → Reaches t i j → Reaches t j k → Reaches t i k

or_cases : (a b : Bool) → (a || b) ≡ true → (a ≡ true) ⊎ (b ≡ true)
or_cases true b h = inl refl
or_cases false b h = inr h

or_true : (b : Bool) → (b || true) ≡ true
or_true true = refl
or_true false = refl

and_cases : (a b : Bool) → (a && b) ≡ true → (a ≡ true) × (b ≡ true)
and_cases true b h = (refl, h)
and_cases false b h = cc

-- Walks through operators before `k` are bits.
abbrev Through : ℕ → WokFixTable → Type 0
Through k t =
    (a b c : ℕ)
    → a < length t.ops
    → b < length t.ops
    → c < length t.ops
    → b < k
    → fix_bit t a b ≡ true
    → fix_bit t b c ≡ true
    → fix_bit t a c ≡ true

module _ (k : ℕ) (t : WokFixTable) (s : IsShaped t) (r : k < length t.ops) where
  round : WokFixTable
  round = close_rows (length t.ops) 0 k t

  round_size : length round.ops ≡ length t.ops
  unfolding round
  round_size = ap (λ ops. length ops) (close_rows_ops (length t.ops) 0 k t)

  into_k : (a : ℕ) → a < length t.ops → fix_bit round a k ≡ true → fix_bit t a k ≡ true
  unfolding round
  into_k a p h = elim (or_cases _ _ (sym (close_round_bit k a k t s p r r) ∙ h)) [
    | inl x ↦ x
    | inr y ↦ (and_cases _ _ y).0
  ]

  out_of_k : (c : ℕ) → c < length t.ops → fix_bit round k c ≡ true → fix_bit t k c ≡ true
  unfolding round
  out_of_k c p h = elim (or_cases _ _ (sym (close_round_bit k k c t s r p r) ∙ h)) [
    | inl x ↦ x
    | inr y ↦ (and_cases _ _ y).1
  ]

  -- What a bit of the round comes from.
  round_cases :
      (a b : ℕ)
      → a < length t.ops
      → b < length t.ops
      → fix_bit round a b ≡ true
      → (fix_bit t a b ≡ true) ⊎ ((fix_bit t a k ≡ true) × (fix_bit t k b ≡ true))
  unfolding round
  round_cases a b p q h = elim (or_cases _ _ (sym (close_round_bit k a b t s p q r) ∙ h)) [
    | inl x ↦ inl x
    | inr y ↦ inr (and_cases _ _ y)
  ]

  round_keeps :
      (a b : ℕ)
      → a < length t.ops
      → b < length t.ops
      → fix_bit t a b ≡ true
      → fix_bit round a b ≡ true
  unfolding round
  round_keeps a b p q h = close_round_bit k a b t s p q r ∙ rw h refl

  round_joins :
      (a b : ℕ)
      → a < length t.ops
      → b < length t.ops
      → fix_bit t a k ≡ true
      → fix_bit t k b ≡ true
      → fix_bit round a b ≡ true
  unfolding round
  round_joins a b p q h g = close_round_bit k a b t s p q r ∙ rw (h, g) (or_true (fix_bit t a b))

  round-Through : Through k t → Through (k + 1) round
  round-Through th a b c p q u l h g =
      let size = round_size in
      let pa : a < length t.ops = omega arith in
      let pb : b < length t.ops = omega arith in
      let pc : c < length t.ops = omega arith in
      elim (Bool-cases (b == k)) [
        | inl z ↦
            let at = eq_of_== b k z in
            let x : fix_bit t a k ≡ true =
              into_k a pa (subst (λ v. fix_bit round a v ≡ true) at h) in
            let y : fix_bit t k c ≡ true =
              out_of_k c pc (subst (λ v. fix_bit round v c ≡ true) at g) in
            round_joins a c pa pc x y
        | inr z ↦
            let low : b < k = let ne = ne_of_== b k z in ground arith in
            elim (round_cases a b pa pb h) [
              | inl x ↦ elim (round_cases b c pb pc g) [
                | inl y ↦ round_keeps a c pa pc (th a b c pa pb pc low x y)
                | inr (y, w) ↦ round_joins a c pa pc (th a b k pa pb r low x y) w
              ]
              | inr (x, v) ↦ elim (round_cases b c pb pc g) [
                | inl y ↦ round_joins a c pa pc x (th k b c r pb pc low v y)
                | inr (y, w) ↦ round_joins a c pa pc x w
              ]
            ]
      ]

  -- A walk of the round is a walk of the table.
  round-Reaches : {i j : ℕ} → Reaches round i j → Reaches t i j
  round-Reaches (walk f g) = walk (round-Reaches f) (round-Reaches g)
  round-Reaches {i} {j} (edge p q h) =
      let size = round_size in
      let pi : i < length t.ops = omega arith in
      let pj : j < length t.ops = omega arith in
      elim (round_cases i j pi pj h) [
        | inl x ↦ edge pi pj x
        | inr (x, y) ↦ walk (edge pi r x) (edge r pj y)
      ]

rounds_ops : (left k : ℕ) (t : WokFixTable) → (close_rounds left k t).ops ≡ t.ops
unfolding close_rounds
rounds_ops zero k t = refl
rounds_ops (suc left) k t =
    rounds_ops left (k + 1) (close_rows (length t.ops) 0 k t) ∙ close_rows_ops (length t.ops) 0 k t

pub warshall_ops : (t : WokFixTable) → (warshall t).ops ≡ t.ops
unfolding warshall
warshall_ops t = rounds_ops (length t.ops) 0 t

rounds-Through :
    (left k : ℕ) (t : WokFixTable)
    → IsShaped t
    → k + left ≡ length t.ops
    → Through k t
    → Through (k + left) (close_rounds left k t)
unfolding close_rounds round
rounds-Through zero k t s e th = subst (λ v. Through v t) (omega arith) th
rounds-Through (suc left) k t s e th =
    let size : length (close_rows (length t.ops) 0 k t).ops ≡ length t.ops =
      round_size k t s (omega arith) in
    subst (λ v. Through v (close_rounds left (k + 1) (close_rows (length t.ops) 0 k t)))
      (omega arith)
      (rounds-Through left (k + 1) (close_rows (length t.ops) 0 k t)
        (close_rows-IsShaped (length t.ops) 0 k t s) (omega arith)
        (round-Through k t s (omega arith) th))

rounds_keep :
    (left k : ℕ) (t : WokFixTable) (a b : ℕ)
    → IsShaped t
    → k + left ≡ length t.ops
    → a < length t.ops
    → b < length t.ops
    → fix_bit t a b ≡ true
    → fix_bit (close_rounds left k t) a b ≡ true
unfolding close_rounds round
rounds_keep zero k t a b s e p q h = h
rounds_keep (suc left) k t a b s e p q h =
    let size : length (close_rows (length t.ops) 0 k t).ops ≡ length t.ops =
      round_size k t s (omega arith) in
    rounds_keep left (k + 1) (close_rows (length t.ops) 0 k t) a b
      (close_rows-IsShaped (length t.ops) 0 k t s) (omega arith) (omega arith) (omega arith)
      (round_keeps k t s (omega arith) a b p q h)

rounds-Reaches :
    (left k : ℕ) (t : WokFixTable)
    → IsShaped t
    → k + left ≡ length t.ops
    → {i j : ℕ} → Reaches (close_rounds left k t) i j
    → Reaches t i j
unfolding close_rounds round
rounds-Reaches zero k t s e h = h
rounds-Reaches (suc left) k t s e h =
    let size : length (close_rows (length t.ops) 0 k t).ops ≡ length t.ops =
      round_size k t s (omega arith) in
    round-Reaches k t s (omega arith) (
      rounds-Reaches left (k + 1) (close_rows (length t.ops) 0 k t)
        (close_rows-IsShaped (length t.ops) 0 k t s) (omega arith) h)

module _ (t : WokFixTable) (s : IsShaped t) where
  closed_size : length (warshall t).ops ≡ length t.ops
  closed_size = ap (λ ops. length ops) (warshall_ops t)

  pub warshall_transitive :
      (a b c : ℕ)
      → a < length t.ops
      → b < length t.ops
      → c < length t.ops
      → fix_bit (warshall t) a b ≡ true
      → fix_bit (warshall t) b c ≡ true
      → fix_bit (warshall t) a c ≡ true
  unfolding warshall
  warshall_transitive a b c p q u h g =
      let size = closed_size in
      rounds-Through (length t.ops) 0 t s (omega arith) (λ x y z _ _ _ l. absurd (omega arith)) a b
        c (omega arith) (omega arith) (omega arith) (omega arith) h g

  Reaches-ends : {i j : ℕ} → Reaches t i j → (i < length t.ops) × (j < length t.ops)
  Reaches-ends (edge p q h) = (p, q)
  Reaches-ends (walk f g) = ((Reaches-ends f).0, (Reaches-ends g).1)

  Reaches-bit : {i j : ℕ} → Reaches t i j → fix_bit (warshall t) i j ≡ true
  unfolding warshall
  Reaches-bit {i} {j} (edge p q h) = rounds_keep (length t.ops) 0 t i j s (omega arith) p q h
  Reaches-bit {i} {j} (walk {j = m} f g) =
      warshall_transitive i m j (Reaches-ends f).0 (Reaches-ends f).1 (Reaches-ends g).1
        (Reaches-bit f) (Reaches-bit g)

  bit-Reaches :
      (i j : ℕ)
      → i < length t.ops
      → j < length t.ops
      → fix_bit (warshall t) i j ≡ true
      → Reaches t i j
  unfolding warshall
  bit-Reaches i j p q h =
      let size = closed_size in
      rounds-Reaches (length t.ops) 0 t s (omega arith) (edge (omega arith) (omega arith) h)

  -- In a table with a row of words for each operator and a bit for each in every row: after the
  -- closure the bit between two operators is set exactly when a walk along the edges leads from
  -- the one to the other.
  pub warshall-Reaches :
      (i j : ℕ)
      → i < length t.ops
      → j < length t.ops
      → (fix_bit (warshall t) i j ≡ true) ↔ Reaches t i j
  warshall-Reaches i j p q = (bit-Reaches i j p q, Reaches-bit)
