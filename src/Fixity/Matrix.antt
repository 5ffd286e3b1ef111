-- ===== src/Fixity/Matrix.antt =====
-- grammar/c/wok_resolve.c: what a written bit and a row that takes another row's bits do to the table.
use Prim.Native.Nat.{◌^◌, bit_or}
use wokml.Prelude.{
  ℕ, zero, suc, ◌+◌, ◌*◌, ◌/◌, ◌%◌, ◌≡◌, ◌≢◌, ◌≤◌, ◌<◌, inl, inr, refl, sym, ap, ◌∙◌, Bool, true,
  false, ◌&&◌, ltb, leb, ◌||◌, List, ◌==◌, length, get_or, set, length-set, get_or-set_self,
  get_or-set_ne, Bool-cases, arith, eq_of_==, ne_of_==,
}
use wokml.Reorder.{WokFixTable}
use wokml.Fixity.Bits.{bit_at, bit_at-bit_or, bit_at_power}
use wokml.Fixity.Table.{fix_bit, fix_set, or_row, close_row, close_rows}

-- The matrix has a row of words for each operator, and a bit for each in every row.
pub record IsShaped (t : WokFixTable) : Type 0 where
  pub wide : length t.ops ≤ 64 * t.words
  pub filled : length t.edge ≡ length t.ops * t.words

inside : (n words i w : ℕ) → i < n → w < words → i * words + w < n * words
inside n words i w p q = grind arith

-- Words of different rows, and words of different columns, are different.
apart_rows : (words a i x y : ℕ) → x < words → y < words → a ≢ i → a * words + x ≢ i * words + y
apart_rows words a i x y p q n e = elim (Bool-cases (ltb a i)) [
  | inl l ↦ let h = inside i words a x (ground arith) p in omega arith
  | inr l ↦ let h = inside a words i y (ground arith) q in omega arith
]

apart_columns : (words a i x y : ℕ) → x < words → y < words → x ≢ y → a * words + x ≢ i * words + y
apart_columns words a i x y p q n e = elim (Bool-cases (a == i)) [
  | inl z ↦ let h : a * words ≡ i * words = ap (λ t. t * words) (eq_of_== a i z) in n (omega arith)
  | inr z ↦ apart_rows words a i x y p q (ne_of_== a i z) e
]

length-or_row :
    (left w words i k : ℕ) (edge : List ℕ) → length (or_row left w words i k edge) ≡ length edge
unfolding or_row
length-or_row zero w words i k edge = refl
length-or_row (suc left) w words i k edge =
    length-or_row left (w + 1) words i k _ ∙ length-set edge (i * words + w) _

-- A word that the loop does not reach.
or_row_out :
    (left w words i k : ℕ) (edge : List ℕ) (p : ℕ)
    → ((y : ℕ) → w ≤ y → y < w + left → i * words + y ≢ p)
    → get_or (or_row left w words i k edge) p 0 ≡ get_or edge p 0
unfolding or_row
or_row_out zero w words i k edge p h = refl
or_row_out (suc left) w words i k edge p h =
    or_row_out left (w + 1) words i k _ p (λ y l u. h y (omega arith) (omega arith))
    ∙ get_or-set_ne edge (i * words + w) p _ 0 (h w (omega arith) (omega arith))

-- A word that it reaches.
or_row_in :
    (left w words i k n : ℕ) (edge : List ℕ) (x : ℕ)
    → w + left ≤ words
    → i < n
    → length edge ≡ n * words
    → w ≤ x
    → x < w + left
    → get_or (or_row left w words i k edge) (i * words + x) 0
      ≡ bit_or (get_or edge (i * words + x) 0) (get_or edge (k * words + x) 0)
unfolding or_row
or_row_in zero w words i k n edge x f p e l u = absurd (omega arith)
or_row_in (suc left) w words i k n edge x f p e l u =
    let next =
      set edge (i * words + w)
        (bit_or (get_or edge (i * words + w) 0) (get_or edge (k * words + w) 0)) in
    elim (Bool-cases (x == w)) [
      | inl z ↦
          let at : x ≡ w = eq_of_== x w z in
          rw at (
            or_row_out left (w + 1) words i k next (i * words + w) (λ y l' u' c. omega arith)
            ∙ get_or-set_self edge (i * words + w) _ 0 (rw e (inside n words i w p (omega arith))))
      | inr z ↦
          let ne : w ≢ x = λ c. ne_of_== x w z (sym c) in
          or_row_in left (w + 1) words i k n next x (omega arith) p
            (length-set edge (i * words + w) _ ∙ e) (ground arith) (omega arith)
          ∙ ap (λ v. bit_or v (get_or next (k * words + x) 0))
              (get_or-set_ne edge (i * words + w) (i * words + x) _ 0 (λ c. ne (omega arith)))
          ∙ ap (λ v. bit_or (get_or edge (i * words + x) 0) v)
              (get_or-set_ne edge (i * words + w) (k * words + x) _ 0
                (apart_columns words i k w x (omega arith) (omega arith) ne))
    ]

or_false : (b : Bool) → (b || false) ≡ b
or_false true = refl
or_false false = refl

or_false_and : (b c : Bool) → (b || (c && false)) ≡ b
or_false_and true c = refl
or_false_and false true = refl
or_false_and false false = refl

close_row-IsShaped : (t : WokFixTable) (i k : ℕ) → IsShaped t → IsShaped (close_row t i k)
unfolding close_row
close_row-IsShaped t i k s = elim (Bool-cases (fix_bit t i k)) [
  | inl z ↦
      rw z
        (record { wide = s.wide; filled = length-or_row t.words 0 t.words i k t.edge ∙ s.filled })
  | inr z ↦ rw z s
]

module _ (t : WokFixTable) (s : IsShaped t) where
  taken : (i k : ℕ) → WokFixTable
  taken i k = record t { edge = or_row t.words 0 t.words i k t.edge }

  taken_same :
      (i k b : ℕ)
      → i < length t.ops
      → b < length t.ops
      → fix_bit (taken i k) i b ≡ (fix_bit t i b || fix_bit t k b)
  unfolding fix_bit taken
  taken_same i k b p q =
      let w = s.wide in
      ap (λ v. bit_at v (b % 64))
        (or_row_in t.words 0 t.words i k (length t.ops) t.edge (b / 64) (omega arith) p s.filled
          (omega arith) (omega arith))
      ∙ bit_at-bit_or _ _ (b % 64)

  taken_other : (i k a b : ℕ) → a ≢ i → b < length t.ops → fix_bit (taken i k) a b ≡ fix_bit t a b
  unfolding fix_bit taken
  taken_other i k a b n q =
      let w = s.wide in
      ap (λ v. bit_at v (b % 64))
        (or_row_out t.words 0 t.words i k t.edge (a * t.words + b / 64)
          (λ y l u e. apart_rows t.words a i (b / 64) y (omega arith) (omega arith) n (sym e)))

  -- Bit `b` of row `a`, once row `i` may have taken the bits of row `k`.
  pub close_row_bit :
      (i k a b : ℕ)
      → i < length t.ops
      → b < length t.ops
      → fix_bit (close_row t i k) a b
        ≡ (fix_bit t a b || (a == i && (fix_bit t i k && fix_bit t k b)))
  unfolding close_row taken
  close_row_bit i k a b p q = elim (Bool-cases (fix_bit t i k)) [
    | inl z ↦ elim (Bool-cases (a == i)) [
      | inl y ↦ let at = eq_of_== a i y in rw (z, y) (rw at (taken_same i k b p q))
      | inr y ↦ rw (z, y) (taken_other i k a b (ne_of_== a i y) q ∙ sym (or_false (fix_bit t a b)))
    ]
    | inr z ↦ rw z (sym (or_false_and (fix_bit t a b) (a == i)))
  ]

pub close_row_ops : (t : WokFixTable) (i k : ℕ) → (close_row t i k).ops ≡ t.ops
unfolding close_row
close_row_ops t i k = elim (Bool-cases (fix_bit t i k)) [ inl z ↦ rw z refl | inr z ↦ rw z refl ]

pub close_rows_ops : (left i k : ℕ) (t : WokFixTable) → (close_rows left i k t).ops ≡ t.ops
unfolding close_rows
close_rows_ops zero i k t = refl
close_rows_ops (suc left) i k t =
    close_rows_ops left (i + 1) k (close_row t i k) ∙ close_row_ops t i k

pub close_rows-IsShaped :
    (left i k : ℕ) (t : WokFixTable) → IsShaped t → IsShaped (close_rows left i k t)
unfolding close_rows
close_rows-IsShaped zero i k t s = s
close_rows-IsShaped (suc left) i k t s =
    close_rows-IsShaped left (i + 1) k (close_row t i k) (close_row-IsShaped t i k s)

visited :
    (ab on ak kb c ik : Bool)
    → ((ab || false) || (on && ((ak || false) && (kb || (c && (ik && kb))))))
      ≡ (ab || (on && (ak && kb)))
visited ab on ak true c ik = rw (or_false ab, or_false ak) refl
visited ab on ak false true true = rw (or_false ab, or_false ak) refl
visited ab on ak false true false = rw (or_false ab, or_false ak) refl
visited ab on ak false false ik = rw (or_false ab, or_false ak) refl

-- A row before `i` is not visited; another takes the bits of row `k` if it has bit `k`.
close_rows_from :
    (left i k a b : ℕ) (t : WokFixTable)
    → IsShaped t
    → i + left ≡ length t.ops
    → a < length t.ops
    → b < length t.ops
    → k < length t.ops
    → fix_bit (close_rows left i k t) a b
      ≡ (fix_bit t a b || (leb i a && (fix_bit t a k && fix_bit t k b)))
unfolding close_rows
close_rows_from zero i k a b t s e p q r =
    let low : leb i a ≡ false = ground arith in rw low (sym (or_false (fix_bit t a b)))
close_rows_from (suc left) i k a b t s e p q r =
    let u = close_row t i k in
    let same : length u.ops ≡ length t.ops = ap (λ ops. length ops) (close_row_ops t i k) in
    let in_row = λ (c d : ℕ) (h : d < length t.ops). close_row_bit t s i k c d (omega arith) h in
    close_rows_from left (i + 1) k a b u (close_row-IsShaped t i k s) (omega arith) (omega arith)
      (omega arith) (omega arith)
    ∙ rw (in_row a b q, in_row a k r, in_row k b q)
        (elim (Bool-cases (a == i)) [
          | inl z ↦
              let at = eq_of_== a i z in
              let past : leb (i + 1) i ≡ false = ground arith in
              let now : leb i i ≡ true = ground arith in rw (z, at, past, now) (or_false _)
          | inr z ↦
              let ne = ne_of_== a i z in
              let later : leb (i + 1) a ≡ leb i a = ground arith in
              rw (z, later)
                (visited (fix_bit t a b) (leb i a) (fix_bit t a k) (fix_bit t k b) (k == i)
                  (fix_bit t i k))
        ])

-- A round of the closure.
pub close_round_bit :
    (k a b : ℕ) (t : WokFixTable)
    → IsShaped t
    → a < length t.ops
    → b < length t.ops
    → k < length t.ops
    → fix_bit (close_rows (length t.ops) 0 k t) a b
      ≡ (fix_bit t a b || (fix_bit t a k && fix_bit t k b))
close_round_bit k a b t s p q r =
    let low : leb 0 a ≡ true = ground arith in
    close_rows_from (length t.ops) 0 k a b t s (omega arith) p q r ∙ rw low refl

pub fix_set-IsShaped : (t : WokFixTable) (i j : ℕ) → IsShaped t → IsShaped (fix_set t i j)
unfolding fix_set
fix_set-IsShaped t i j s = record {
  wide = s.wide;
  filled = length-set t.edge (i * t.words + j / 64) _ ∙ s.filled;
}

-- The written bit is set, and no other bit changes.
pub fix_set_bit :
    (t : WokFixTable) (i j a b : ℕ)
    → IsShaped t
    → i < length t.ops
    → j < length t.ops
    → b < length t.ops
    → fix_bit (fix_set t i j) a b ≡ (fix_bit t a b || (a == i && b == j))
unfolding fix_bit fix_set
fix_set_bit t i j a b s p q r =
    let w = s.wide in
    let v = i * t.words + j / 64 in
    let on = bit_or (get_or t.edge v 0) (2 ^ (j % 64)) in
    let held : get_or (set t.edge v on) v 0 ≡ on =
      get_or-set_self t.edge v on 0
        (rw s.filled (inside (length t.ops) t.words i (j / 64) p (omega arith))) in
    elim (Bool-cases (a == i)) [
      | inl y ↦ elim (Bool-cases (b / 64 == j / 64)) [
        | inl z ↦
            let at = eq_of_== a i y in
            let same : a * t.words + b / 64 ≡ v =
              ap (λ c. c * t.words + b / 64) at
              ∙ ap (λ c. i * t.words + c) (eq_of_== (b / 64) (j / 64) z) in
            rw (same, held, y)
              (bit_at-bit_or (get_or t.edge v 0) (2 ^ (j % 64)) (b % 64)
                ∙ rw (bit_at_power (j % 64) (b % 64)) (
                    ap (λ c. bit_at (get_or t.edge v 0) (b % 64) || c)
                      (let quotient = eq_of_== (b / 64) (j / 64) z in ground arith)))
        | inr z ↦
            let ne : b ≢ j = λ e. ne_of_== (b / 64) (j / 64) z (ap (λ c. c / 64) e) in
            let other : (b == j) ≡ false = ground arith in
            rw
              (
                get_or-set_ne t.edge v (a * t.words + b / 64) on 0 (
                    apart_columns t.words i a (j / 64) (b / 64) (omega arith) (omega arith)
                      (λ e. ne_of_== (b / 64) (j / 64) z (sym e))),
                y,
                other,
              )
              (sym (or_false _))
      ]
      | inr y ↦
          rw
            (
              get_or-set_ne t.edge v (a * t.words + b / 64) on 0 (
                  apart_rows t.words i a (j / 64) (b / 64) (omega arith) (omega arith)
                    (λ e. ne_of_== a i y (sym e))),
              y,
            )
            (sym (or_false _))
    ]
