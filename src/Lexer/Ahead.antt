-- ===== src/Lexer/Ahead.antt =====
-- How far the loops of the scanner take it, and what they leave as it was.
use wokml.Prelude.{
  ℕ, ◌+◌, ◌≡◌, ◌≤◌, ◌<◌, refl, ap, ◌∙◌, Bool, true, false, [], ◌∷◌, ◌==◌, length, Bool-cases, inl,
  inr, arith,
}
use wokml.Utf8.{Bytes}
use wokml.Token.Classes.{is_hex}
use wokml.Lexer.{
  u32, Scanner, advance, advance_while, add_comment, block_loop, opens_comment, closes_comment,
  is_outside, end_comment, skip_block_comment, hex_digits, check_hex, escape, simple_escape,
}

-- The scanner `t` stands at least `m` bytes behind `s` in a source of `n` bytes, and has emitted
-- nothing since.
pub record Ahead (n m : ℕ) (s t : Scanner) : Type 0 where
  pub here : t.i + length t.rest ≡ n
  pub col_pos : 1 ≤ t.col
  pub col_le : t.col ≤ t.i + 1
  pub keeps : t.tok ≡ s.tok
  pub far : s.i + m ≤ t.i

pub u32-small : (x : ℕ) → x < 4294967296 → u32 x ≡ x
u32-small x h = omega arith

pub advance-rest : (s : Scanner) (c : ℕ) (q : Bytes) → (advance s c q).rest ≡ q
unfolding advance
advance-rest s c q = elim (Bool-cases (c == 10)) [ inl e ↦ rw e refl | inr e ↦ rw e refl ]

-- What the sink holds does not matter, nor do the comments and the tab flag.
pub Ahead-like :
    {n m : ℕ} {s t u : Scanner}
    → Ahead n m s t
    → u.rest ≡ t.rest
    → u.i ≡ t.i
    → u.col ≡ t.col
    → u.tok ≡ t.tok
    → Ahead n m s u
Ahead-like a r i c k = record {
  here = omega (arith, a.here, ap length r, i);
  col_pos = omega (arith, a.col_pos, c);
  col_le = omega (arith, a.col_le, c, i);
  keeps = k ∙ a.keeps;
  far = omega (arith, a.far, i);
}

pub Ahead-weaken : {n m k : ℕ} {s t : Scanner} → k ≤ m → Ahead n m s t → Ahead n k s t
Ahead-weaken h a = record {
  here = a.here;
  col_pos = a.col_pos;
  col_le = a.col_le;
  keeps = a.keeps;
  far = omega (arith, a.far);
}

pub Ahead-trans :
    {n m k : ℕ} {s t u : Scanner} → Ahead n m s t → Ahead n k t u → Ahead n (m + k) s u
Ahead-trans a b = record {
  here = b.here;
  col_pos = b.col_pos;
  col_le = b.col_le;
  keeps = b.keeps ∙ a.keeps;
  far = omega (arith, a.far, b.far);
}

pub Ahead-self : {n m : ℕ} {s t : Scanner} → Ahead n m s t → Ahead n 0 t t
Ahead-self a = record {
  here = a.here;
  col_pos = a.col_pos;
  col_le = a.col_le;
  keeps = refl;
  far = omega arith;
}

-- Further ahead, less of the source is left.
pub Ahead-rest :
    {n : ℕ} {s t : Scanner} → Ahead n 0 s s → Ahead n 1 s t → length t.rest < length s.rest
Ahead-rest a b = omega (arith, a.here, b.here, b.far)

-- The four cases of a round in a block comment.
module _ (c d : ℕ) (q : Bytes) (depth : ℕ) (t : Scanner) where
  abbrev two_on : Scanner
  two_on = advance (advance t c (d ∷ q)) d q

  block-open :
      opens_comment c d ≡ true
      → block_loop (c ∷ d ∷ q) depth t ≡ block_loop q (u32 (depth + 1)) two_on
  unfolding block_loop
  block-open h = rw (h, block_loop)

  block-end :
      opens_comment c d ≡ false
      → closes_comment c d ≡ true
      → is_outside (u32 (depth + 4294967295)) ≡ true
      → block_loop (c ∷ d ∷ q) depth t ≡ (two_on, 0)
  unfolding block_loop
  block-end h k z = rw (h, k, z, block_loop)

  block-close :
      opens_comment c d ≡ false
      → closes_comment c d ≡ true
      → is_outside (u32 (depth + 4294967295)) ≡ false
      → block_loop (c ∷ d ∷ q) depth t ≡ block_loop q (u32 (depth + 4294967295)) two_on
  unfolding block_loop
  block-close h k z = rw (h, k, z, block_loop)

  block-inside :
      opens_comment c d ≡ false
      → closes_comment c d ≡ false
      → block_loop (c ∷ d ∷ q) depth t ≡ block_loop (d ∷ q) depth (advance t c (d ∷ q))
  unfolding block_loop
  block-inside h k = rw (h, k, block_loop)

module _ {n m : ℕ} {s t : Scanner} (small : n + 1 < 4294967296) where
  pub advance-Ahead :
      (c : ℕ) (q : Bytes) → t.rest ≡ c ∷ q → Ahead n m s t → Ahead n (m + 1) s (advance t c q)
  unfolding advance
  advance-Ahead c q e a = elim (Bool-cases (c == 10)) [
    | inl z ↦ rw z (record {
      here = omega (arith, a.here, ap length e);
      col_pos = omega arith;
      col_le = omega arith;
      keeps = a.keeps;
      far = omega (arith, a.far);
    })
    | inr z ↦ rw z (
        let k = u32-small (t.col + 1) (omega (arith, a.here, a.col_le, ap length e)) in
        record {
          here = omega (arith, a.here, ap length e);
          col_pos = omega (arith, k);
          col_le = omega (arith, a.col_le, k);
          keeps = a.keeps;
          far = omega (arith, a.far);
        })
  ]

module _ {n : ℕ} (small : n + 1 < 4294967296) where
  -- A loop of `advance` stops where it stood or behind it.
  pub advance_while-Ahead :
      (p : ℕ → Bool) (q : Bytes) {m : ℕ} {s : Scanner} (t : Scanner)
      → t.rest ≡ q
      → Ahead n m s t
      → Ahead n m s (advance_while p q t)
  unfolding advance_while
  advance_while-Ahead p [] t e a = a
  advance_while-Ahead p (c ∷ q) {m} {s} t e a = elim (Bool-cases (p c)) [
    | inl h ↦ rw h (
        advance_while-Ahead p q (advance t c q) (advance-rest t c q)
          (Ahead-weaken (omega arith) (advance-Ahead small c q e a)))
    | inr h ↦ rw h a
  ]

  -- And it takes the first byte, when that is one of its class.
  pub advance_while-first :
      (p : ℕ → Bool) {c : ℕ} {q : Bytes} {m : ℕ} {s : Scanner} (t : Scanner) (r : Bytes)
      → r ≡ c ∷ q
      → t.rest ≡ r
      → p c ≡ true
      → Ahead n m s t
      → Ahead n (m + 1) s (advance_while p r t)
  unfolding advance_while
  advance_while-first p {c} {q} t r f e h a =
      rw (f, h)
        (advance_while-Ahead p q (advance t c q) (advance-rest t c q)
          (advance-Ahead small c q (e ∙ f) a))

  advance_two-Ahead :
      {m : ℕ} {s t : Scanner} (c d : ℕ) (q : Bytes)
      → t.rest ≡ c ∷ d ∷ q
      → Ahead n m s t
      → Ahead n (m + 2) s (advance (advance t c (d ∷ q)) d q)
  advance_two-Ahead c d q e a =
      Ahead-weaken (omega arith)
        (advance-Ahead small d q (advance-rest _ c (d ∷ q)) (advance-Ahead small c (d ∷ q) e a))

  pub block_loop-Ahead :
      (p : Bytes) (depth : ℕ) {m : ℕ} {s : Scanner} (t : Scanner)
      → t.rest ≡ p
      → Ahead n m s t
      → Ahead n m s (block_loop p depth t).0
  unfolding block_loop
  block_loop-Ahead [] depth t e a = a
  block_loop-Ahead (c ∷ []) depth t e a = Ahead-weaken (omega arith) (advance-Ahead small c [] e a)
  block_loop-Ahead (c ∷ d ∷ q) depth t e a =
      let two = Ahead-weaken (omega arith) (advance_two-Ahead c d q e a) in
      elim (Bool-cases (opens_comment c d)) [
        | inl h ↦ rw (block-open c d q depth t h) (block_loop-Ahead q _ _ (advance-rest _ d q) two)
        | inr h ↦ elim (Bool-cases (closes_comment c d)) [
          | inl k ↦ elim (Bool-cases (is_outside (u32 (depth + 4294967295)))) [
            | inl z ↦ rw (block-end c d q depth t h k z) two
            | inr z ↦
                rw (block-close c d q depth t h k z)
                  (block_loop-Ahead q _ _ (advance-rest _ d q) two)
          ]
          | inr k ↦ rw (block-inside c d q depth t h k) (
              block_loop-Ahead (d ∷ q) depth _ (advance-rest t c (d ∷ q))
                (Ahead-weaken (omega arith) (advance-Ahead small c (d ∷ q) e a)))
        ]
      ]

  end_comment-Ahead :
      {m : ℕ} {s : Scanner} (off : ℕ) (r : Scanner × ℕ)
      → Ahead n m s r.0
      → Ahead n m s (end_comment off r)
  unfolding end_comment add_comment
  end_comment-Ahead off (t, depth) a = elim (Bool-cases (depth == 0)) [
    | inl z ↦ rw z (Ahead-like a refl refl refl refl)
    | inr z ↦ rw z (Ahead-like a refl refl refl refl)
  ]

  block_loop-first :
      (s : Scanner) (c d : ℕ) (q r : Bytes)
      → r ≡ c ∷ d ∷ q
      → s.rest ≡ r
      → opens_comment c d ≡ true
      → Ahead n 0 s s
      → Ahead n 2 s (block_loop r 0 s).0
  block_loop-first s c d q r f e h a =
      rw (f, block-open c d q 0 s h)
        (block_loop-Ahead q _ _ (advance-rest _ d q) (advance_two-Ahead c d q (e ∙ f) a))

  pub skip_block_comment-Ahead :
      (s : Scanner) (c d : ℕ) (q : Bytes)
      → s.rest ≡ c ∷ d ∷ q
      → opens_comment c d ≡ true
      → Ahead n 0 s s
      → Ahead n 2 s (skip_block_comment s)
  unfolding skip_block_comment
  skip_block_comment-Ahead s c d q e h a =
      end_comment-Ahead (u32 s.i) (block_loop s.rest 0 s)
        (block_loop-first s c d q s.rest e refl h a)

  pub hex_digits-Ahead :
      (q : Bytes) {m : ℕ} {s : Scanner} (t : Scanner)
      → t.rest ≡ q
      → Ahead n m s t
      → Ahead n m s (hex_digits q t).0
  unfolding hex_digits
  hex_digits-Ahead [] t e a = a
  hex_digits-Ahead (x ∷ []) t e a = elim (Bool-cases (is_hex x)) [
    | inl h ↦ rw h (Ahead-weaken (omega arith) (advance-Ahead small x [] e a))
    | inr h ↦ rw h a
  ]
  hex_digits-Ahead (x ∷ y ∷ q) t e a = elim (Bool-cases (is_hex x)) [
    | inl h ↦ elim (Bool-cases (is_hex y)) [
      | inl k ↦ rw (h, k) (Ahead-weaken (omega arith) (advance_two-Ahead x y q e a))
      | inr k ↦ rw (h, k) (Ahead-weaken (omega arith) (advance-Ahead small x (y ∷ q) e a))
    ]
    | inr h ↦ rw h a
  ]

  check_hex-Ahead :
      {m : ℕ} {s : Scanner} (esc : ℕ) (r : Scanner × ℕ)
      → Ahead n m s r.0
      → Ahead n m s (check_hex esc r)
  check_hex-Ahead esc (t, k) a = elim (Bool-cases (k == 2)) [
    | inl z ↦ rw z a
    | inr z ↦ rw z (Ahead-like a refl refl refl refl)
  ]

  pub escape-Ahead :
      {m : ℕ} {s : Scanner} (t : Scanner) (esc e : ℕ) (q : Bytes)
      → t.rest ≡ e ∷ q
      → Ahead n m s t
      → Ahead n (m + 1) s (escape t esc e q)
  unfolding escape
  escape-Ahead t esc e q r a = elim (Bool-cases (simple_escape e)) [
    | inl h ↦ rw h (advance-Ahead small e q r a)
    | inr h ↦ elim (Bool-cases (e == 120)) [
      | inl k ↦
          rw (h, k)
            (check_hex-Ahead esc (hex_digits q (advance t e q)) (
              hex_digits-Ahead q (advance t e q) (advance-rest t e q)
                (advance-Ahead small e q r a)))
      | inr k ↦ rw (h, k) (advance-Ahead small e q r (Ahead-like a refl refl refl refl))
    ]
  ]
