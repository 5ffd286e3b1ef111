-- ===== src/Lexer/IntValue.antt =====
-- grammar/c/wok_token.c: `wok_token_int_value`, with the checked operations of `stdckdint.h`.
use wokml.Prelude.{
  ℕ, ◌+◌, ◌-◌, ◌*◌, ◌%◌, ◌≡◌, ◌≤◌, ◌<◌, ◌⊎◌, refl, Bool, true, false, ◌||◌, [], ◌∷◌, All, take,
  drop, ltb, leb, ◌==◌, if◌then◌else◌, Bool-cases, inl, inr, arith,
}
use wokml.Utf8.{Bytes}
use wokml.Token.{WokToken}
use wokml.Token.Classes.{is_digit}
use wokml.Diag.{WokDiagSink, message, diag_add, e_lex_int_range}

-- 2^64
abbrev pub u64_size : ℕ
u64_size = 18446744073709551616

-- One byte of the literal: `acc` and `overflow` behind `ckd_mul` and `ckd_add`.
pub int_step : ℕ × Bool → (c : ℕ) → ℕ × Bool
int_step (acc, overflow) c =
    let digit = (c + u64_size - 48) % u64_size in
    let tens = acc * 10 % u64_size in
    if c == 95 then (acc, overflow) else (
      (tens + digit) % u64_size,
      overflow || leb u64_size (acc * 10) || leb u64_size (tens + digit),
    )

pub int_loop : Bytes → ℕ × Bool → ℕ × Bool
int_loop [] r = r
int_loop (c ∷ p) r = int_loop p (int_step r c)

-- Behind the loop: the result, `*out` and the sink.
pub int_result : WokDiagSink → WokToken → ℕ × Bool → Bool × ℕ × WokDiagSink
int_result d t (acc, overflow) =
    if overflow
    then (
      false,
      0,
      diag_add d e_lex_int_range t.off t.len (message "integer literal does not fit in U64" []),
    )
    else (true, acc, d)

pub int_value : (src : Bytes) → WokToken → WokDiagSink → Bool × ℕ × WokDiagSink
unfolding int_loop
int_value src t d = int_result d t (int_loop (take t.len (drop t.off src)) (0, false))

-- The number that decimal digits denote behind the number `v`, underscores apart.
unfoldable pub decimal : Bytes → (v : ℕ) → ℕ
decimal [] v = v
decimal (c ∷ p) v =
    let next = decimal p (v * 10 + (c - 48)) in if c == 95 then decimal p v else next

-- A byte of an integer literal.
abbrev pub IsIntByte : ℕ → Type 0
IsIntByte c = (is_digit c || c == 95) ≡ true

-- The accumulator is the number so far, or that number is too large.
abbrev Tracks : ℕ → ℕ × Bool → Type 0
Tracks v r = ((r.1 ≡ false) × (r.0 ≡ v) × (v < u64_size)) ⊎ ((r.1 ≡ true) × (u64_size ≤ v))

digit_small : (c : ℕ) → 48 ≤ c → c ≤ 57 → (c + u64_size - 48) % u64_size ≡ c - 48
digit_small c h k = omega arith

mod_small : (x : ℕ) → leb u64_size x ≡ false → x % u64_size ≡ x
mod_small x h = omega (arith, below x h)
  where
    below : (x : ℕ) → leb u64_size x ≡ false → x < u64_size
    below x h = ground arith

digit_step :
    (v c : ℕ) (r : ℕ × Bool)
    → 48 ≤ c
    → c ≤ 57
    → Tracks v r
    → Tracks (v * 10 + (c - 48)) (int_step r c)
unfolding int_step
digit_step v c (acc, o) h k (inr (x, big)) = inr (ground arith, omega arith)
digit_step v c (acc, o) h k (inl (x, e, lt)) =
    let z : (c == 95) ≡ false = ground arith in
    let dig = digit_small c h k in
    elim (Bool-cases (leb u64_size (acc * 10))) [
      | inl big ↦ rw (z, dig, x, big) (inr (refl, ground arith))
      | inr ok ↦
          let tens = mod_small (acc * 10) ok in
          elim (Bool-cases (leb u64_size (acc * 10 + (c - 48)))) [
            | inl big ↦ rw (z, dig, tens, x, ok, big) (inr (refl, ground arith))
            | inr fits ↦
                let sum = mod_small (acc * 10 + (c - 48)) fits in
                rw (z, dig, tens, x, ok, fits, sum) (inl (refl, omega arith, ground arith))
          ]
    ]

underscore_step : (v c : ℕ) (r : ℕ × Bool) → c ≡ 95 → Tracks v r → Tracks v (int_step r c)
unfolding int_step
underscore_step v c (acc, o) e t = rw e t

int_loop-decimal :
    (p : Bytes) (v : ℕ) (r : ℕ × Bool)
    → All IsIntByte p
    → Tracks v r
    → Tracks (decimal p v) (int_loop p r)
unfolding int_loop decimal
int_loop-decimal [] v r h t = t
int_loop-decimal (c ∷ p) v r h t = elim (Bool-cases (c == 95)) [
  | inl z ↦ rw z (int_loop-decimal p v (int_step r c) h.1 (underscore_step v c r (ground arith) t))
  | inr z ↦
      let digit : is_digit c ≡ true = ground (arith, h.0) in
      rw z (
        int_loop-decimal p (v * 10 + (c - 48)) (int_step r c) h.1
          (digit_step v c r (ground arith) (ground arith) t))
]

-- The bytes of a token.
abbrev pub token_bytes : Bytes → WokToken → Bytes
token_bytes src t = take t.len (drop t.off src)

result_of :
    (d : WokDiagSink) (t : WokToken) (v : ℕ) (r : ℕ × Bool)
    → Tracks v r
    → int_result d t r ≡ (
        if ltb v u64_size then (true, v, d) else (
          false,
          0,
          diag_add d e_lex_int_range t.off t.len (message "integer literal does not fit in U64" []),
        ))
unfolding int_result
result_of d t v (acc, o) (inl (x, e, lt)) =
    let z : ltb v u64_size ≡ true = ground arith in rw (x, z, e) refl
result_of d t v (acc, o) (inr (x, big)) =
    let z : ltb v u64_size ≡ false = ground arith in rw (x, z) refl

-- `wok_token_int_value` over digits and underscores returns the number that the digits denote when
-- it fits in 64 bits, and otherwise false, 0 and the fault E-LEX-INT-RANGE; the overflow checks
-- miss nothing and report nothing that fits.
pub int_value-decimal :
    (src : Bytes) (t : WokToken) (d : WokDiagSink)
    → All IsIntByte (token_bytes src t)
    → int_value src t d ≡ (
        if ltb (decimal (token_bytes src t) 0) u64_size
        then (true, decimal (token_bytes src t) 0, d)
        else (
          false,
          0,
          diag_add d e_lex_int_range t.off t.len (message "integer literal does not fit in U64" []),
        ))
unfolding int_value
int_value-decimal src t d h =
    result_of d t (decimal (token_bytes src t) 0) (int_loop (token_bytes src t) (0, false))
      (int_loop-decimal (token_bytes src t) 0 (0, false) h (inl (refl, refl, omega arith)))
