-- ===== src/Lexer/Literals.antt =====
-- The loop of `scan_literal`: it ends, and how far it goes.
use wokml.Prelude.{
  ℕ, zero, suc, ◌+◌, ◌≡◌, ◌<◌, refl, Bool, Option, some, [], ◌∷◌, ◌==◌, length, Bool-cases, inl,
  inr, arith,
}
use wokml.Utf8.{Bytes}
use wokml.Lexer.{
  u32, Scanner, advance, Literal, Round, ends, goes_on, after_backslash, literal_round,
  literal_loop, literal_next, literal_at,
}
use wokml.Lexer.Ahead.{
  Ahead, Ahead-weaken, Ahead-trans, Ahead-self, Ahead-rest, advance-rest, advance-Ahead,
  escape-Ahead,
}

-- What a round leaves: it ends no earlier, or goes on further ahead.
data Rounded (n m : ℕ) (s : Scanner) : Round → Type 0 where
  ended : {r : Literal} → Ahead n m s r.0 → Rounded n m s (ends r)
  further : {t : Scanner} {x : Bool} → Ahead n (m + 1) s t → Rounded n m s (goes_on t x)

pub data Looped (n m : ℕ) (s : Scanner) : Option Literal → Type 0 where
  looped : {r : Literal} → Ahead n m s r.0 → Looped n m s (some r)

module _ {n : ℕ} (small : n + 1 < 4294967296) where
  after_backslash-Rounded :
      {m : ℕ} {s : Scanner} (t : Scanner) (esc : ℕ) (q : Bytes)
      → t.rest ≡ q
      → Ahead n m s t
      → Rounded n m s (after_backslash t esc q)
  unfolding after_backslash
  after_backslash-Rounded t esc [] e a = ended a
  after_backslash-Rounded t esc (x ∷ q) e a = further (escape-Ahead small t esc x q e a)

  literal_round-Rounded :
      {m : ℕ} {s : Scanner} (quote : ℕ) (t : Scanner) (extra : Bool) (c : ℕ) (q : Bytes)
      → t.rest ≡ c ∷ q
      → Ahead n m s t
      → Rounded n m s (literal_round quote t extra c q)
  unfolding literal_round
  literal_round-Rounded quote t extra c q e a =
      let on = advance-Ahead small c q e a in
      let on_m = Ahead-weaken (omega arith) on in
      elim (Bool-cases (c == 10)) [
        | inl h ↦ rw h (ended a)
        | inr h ↦ elim (Bool-cases (c == 92)) [
          | inl k ↦
              rw (h, k)
                (after_backslash-Rounded (advance t c q) (u32 t.i) q (advance-rest t c q) on_m)
          | inr k ↦ elim (Bool-cases (c == quote)) [
            | inl z ↦ rw (h, k, z) (ended on_m)
            | inr z ↦ rw (h, k, z) (further on)
          ]
        ]
      ]

  literal_next-Looped :
      {m : ℕ} {s : Scanner} (rec : Scanner → Bool → Option Literal) {r : Round}
      → ((t : Scanner) (x : Bool) → Ahead n (m + 1) s t → Looped n m s (rec t x))
      → Rounded n m s r
      → Looped n m s (literal_next rec r)
  unfolding literal_next
  literal_next-Looped rec next (ended a) = looped a
  literal_next-Looped rec next (further {t} {x} a) = next t x a

  literal_at-Looped :
      {s : Scanner} (rec : Scanner → Bool → Option Literal) (quote : ℕ) (extra : Bool) (p : Bytes)
      → s.rest ≡ p
      → ((t : Scanner) (x : Bool) → Ahead n 1 s t → Looped n 0 s (rec t x))
      → Ahead n 0 s s
      → Looped n 0 s (literal_at rec quote s extra p)
  unfolding literal_at
  literal_at-Looped rec quote extra [] e next a = looped a
  literal_at-Looped {s} rec quote extra (c ∷ q) e next a =
      literal_next-Looped rec next (literal_round-Rounded quote s extra c q e a)

  Looped-after :
      {m : ℕ} {s t : Scanner} {r : Option Literal} → Ahead n m s t → Looped n 0 t r → Looped n m s r
  Looped-after a (looped b) = looped (Ahead-weaken (omega arith) (Ahead-trans a b))

  -- The rest of the source is fuel enough.
  pub literal_loop-Looped :
      (fuel quote : ℕ) (s : Scanner) (extra : Bool)
      → length s.rest < fuel
      → Ahead n 0 s s
      → Looped n 0 s (literal_loop fuel quote s extra)
  unfolding literal_loop
  literal_loop-Looped zero quote s extra h a = absurd (omega arith)
  literal_loop-Looped (suc fuel) quote s extra h a =
      literal_at-Looped (literal_loop fuel quote) quote extra s.rest refl
        (λ t x b.
          Looped-after (Ahead-weaken (omega arith) b)
            (literal_loop-Looped fuel quote t x (omega (arith, Ahead-rest a b)) (Ahead-self b)))
        a
