-- ===== src/Sexpr/Numbers.antt =====
-- grammar/c/wok_sexpr.c: a number that is dumped is read back, and one that 64 bits do not hold is
-- refused.
use Prim.Native.Nat.{◌^◌}
use wokml.Prelude.{
  ℕ, zero, suc, ◌+◌, ◌-◌, ◌*◌, ◌/◌, ◌%◌, ◌≡◌, ◌≤◌, ◌<◌, inl, inr, refl, ap, ◌∙◌, true, false, ◌||◌,
  Option, none, some, List, [], ◌∷◌, ◌++◌, ltb, ◌==◌, if◌then◌else◌, length, take, All, Bool-cases,
  arith,
}
use wokml.Diag.{WokDiagSink}
use wokml.Sexpr.{
  render_digits, render_uint, WokReader, is_ws, is_delim, ws_run, ahead, word_run, read_word, value,
  out_of_range, read_digits, word_number, number_of, read_uint_field,
}
use wokml.Sexpr.Text.{reader, skip_ws_lem, drop-append}

-- The number that the digits of a word spell, behind `v`.
pub decimal : (v : ℕ) → List ℕ → ℕ
decimal v [] = v
decimal v (c ∷ cs) = decimal (v * 10 + (c - b'0')) cs

abbrev pub IsDigit : ℕ → Type 0
IsDigit c = (b'0' ≤ c) × (c ≤ b'9')

decimal-ge : (v : ℕ) (cs : List ℕ) → v ≤ decimal v cs
unfolding decimal
decimal-ge v [] = omega arith
decimal-ge v (c ∷ cs) = omega (arith, decimal-ge (v * 10 + (c - b'0')) cs)

-- A word of digits is read as its number if 64 bits hold it, and is out of range otherwise.
read_digits-decimal :
    (v : ℕ) (cs : List ℕ)
    → All IsDigit cs
    → v < 18446744073709551616
    → read_digits v cs
      ≡ (if ltb (decimal v cs) 18446744073709551616 then value (decimal v cs) else out_of_range)
unfolding read_digits decimal
read_digits-decimal v [] h l = let t : ltb v 18446744073709551616 ≡ true = ground arith in rw t refl
read_digits-decimal v (c ∷ cs) ((lo, hi), hs) l =
    let d = c - b'0' in
    let digit : (ltb c b'0' || ltb b'9' c) ≡ false = ground arith in
    elim (Bool-cases (ltb ((18446744073709551615 - d) / 10) v)) [
      | inl z ↦
          let big = decimal-ge (v * 10 + d) cs in
          let over : ltb (decimal (v * 10 + d) cs) 18446744073709551616 ≡ false = ground arith in
          rw (digit, z, over) refl
      | inr z ↦ rw (digit, z) (read_digits-decimal (v * 10 + d) cs hs (ground arith))
    ]

decimal-render_digits :
    (fuel v : ℕ) (ds : List ℕ)
    → v < 10 ^ fuel
    → 0 < fuel
    → decimal 0 (render_digits fuel v ds) ≡ decimal v ds
unfolding decimal render_digits
decimal-render_digits zero v ds h p = absurd (omega arith)
decimal-render_digits (suc zero) v ds h p =
    let t : ltb v 10 ≡ true = ground arith in rw t (ap (λ n. decimal n ds) (omega arith))
decimal-render_digits (suc (suc fuel)) v ds h p = elim (Bool-cases (ltb v 10)) [
  | inl z ↦ rw z (ap (λ n. decimal n ds) (omega arith))
  | inr z ↦ rw z (
      decimal-render_digits (suc fuel) (v / 10) ((b'0' + v % 10) ∷ ds) (omega arith) (omega arith)
      ∙ ap (λ n. decimal n ds) (omega arith))
]

spelled : (v : ℕ) → v < 18446744073709551616 → decimal 0 (render_digits 20 v []) ≡ v
unfolding decimal
spelled v l = decimal-render_digits 20 v [] (omega arith) (omega arith)

add-IsDigit : (v : ℕ) → v < 10 → IsDigit (b'0' + v)
add-IsDigit v h = (omega arith, omega arith)

digits-IsDigit : (fuel v : ℕ) (ds : List ℕ) → All IsDigit ds → All IsDigit (render_digits fuel v ds)
unfolding render_digits
digits-IsDigit zero v ds h = h
digits-IsDigit (suc fuel) v ds h = elim (Bool-cases (ltb v 10)) [
  | inl z ↦ rw z (add-IsDigit v (ground arith), h)
  | inr z ↦
      rw z (
        digits-IsDigit fuel (v / 10) ((b'0' + v % 10) ∷ ds) (add-IsDigit (v % 10) (omega arith), h))
]

length-digits : (fuel v : ℕ) (ds : List ℕ) → length ds ≤ length (render_digits fuel v ds)
unfolding render_digits
length-digits zero v ds = omega arith
length-digits (suc fuel) v ds = elim (Bool-cases (ltb v 10)) [
  | inl z ↦ rw z (omega arith)
  | inr z ↦ rw z (let more = length-digits fuel (v / 10) ((b'0' + v % 10) ∷ ds) in omega arith)
]

digits_nonempty : (fuel v : ℕ) → 0 < length (render_digits (suc fuel) v [])
unfolding render_digits
digits_nonempty fuel v = elim (Bool-cases (ltb v 10)) [
  | inl z ↦ rw z (omega arith)
  | inr z ↦ rw z (let more = length-digits fuel (v / 10) ((b'0' + v % 10) ∷ []) in omega arith)
]

-- What follows a word: nothing, or a byte that ends it.
abbrev pub EndsWord : List ℕ → Type 0
EndsWord tail = word_run tail ≡ 0

digit_not_delim : (c : ℕ) → IsDigit c → is_delim c ≡ false
digit_not_delim c (lo, hi) = ground arith

word_run-digits :
    (word tail : List ℕ) → All IsDigit word → EndsWord tail → word_run (word ++ tail) ≡ length word
unfolding word_run
word_run-digits [] tail h e = e
word_run-digits (c ∷ word) tail (h, hs) e =
    rw (digit_not_delim c h) (ap (λ n. suc n) (word_run-digits word tail hs e))

take-append : (xs ys : List ℕ) → take (length xs) (xs ++ ys) ≡ xs
take-append [] ys = refl
take-append (x ∷ xs) ys = ap (λ l. x ∷ l) (take-append xs ys)

digits_not_ws :
    (word tail : List ℕ) → 0 < length word → All IsDigit word → ws_run (word ++ tail) ≡ 0
unfolding ws_run
digits_not_ws [] tail p h = absurd (omega arith)
digits_not_ws (c ∷ word) tail p ((lo, hi), hs) = let t : is_ws c ≡ false = ground arith in rw t refl

-- The word of a reader that stands before one.
word_of : WokReader → Option (ℕ × List ℕ) × WokReader
word_of r =
    let n = word_run r.rest in (if n == 0 then none else some (r.pos, take n r.rest), ahead r n)

read_word-digits :
    (ws word tail : List ℕ) (pos : ℕ) (d : WokDiagSink) (pool : List ℕ)
    → All (λ c. is_ws c ≡ true) ws
    → All IsDigit word
    → 0 < length word
    → EndsWord tail
    → read_word (reader (ws ++ (word ++ tail)) pos d pool)
      ≡ (some (pos + length ws, word), reader tail (pos + length ws + length word) d pool)
unfolding read_word word_of
read_word-digits ws word tail pos d pool h k p e =
    let at = pos + length ws in
    let some_byte : (length word == 0) ≡ false = ground arith in
    ap word_of (skip_ws_lem ws (word ++ tail) pos d pool h (digits_not_ws word tail p k))
    ∙ ap
        (λ n. (
          if n == 0 then none else some (at, take n (word ++ tail)),
          ahead (reader (word ++ tail) at d pool) n,
        ))
        (word_run-digits word tail k e)
    ∙ ap
        (λ b. (
          if b then none else some (at, take (length word) (word ++ tail)),
          ahead (reader (word ++ tail) at d pool) (length word),
        ))
        some_byte
    ∙ ap (λ w. (some (at, w), ahead (reader (word ++ tail) at d pool) (length word)))
        (take-append word tail)
    ∙ ap (λ r. (some (at, word), reader r (at + length word) d pool)) (drop-append word tail)

pub read_uint_field-decimal :
    (ws word tail : List ℕ) (pos : ℕ) (d : WokDiagSink) (pool : List ℕ)
    → All (λ c. is_ws c ≡ true) ws
    → All IsDigit word
    → 0 < length word
    → EndsWord tail
    → read_uint_field (reader (ws ++ (word ++ tail)) pos d pool)
      ≡ word_number (pos + length ws) word (reader tail (pos + length ws + length word) d pool) (
          if ltb (decimal 0 word) 18446744073709551616
          then value (decimal 0 word)
          else out_of_range)
unfolding read_uint_field number_of
read_uint_field-decimal ws word tail pos d pool h k p e =
    ap number_of (read_word-digits ws word tail pos d pool h k p e)
    ∙ ap (word_number (pos + length ws) word (reader tail (pos + length ws + length word) d pool))
        (read_digits-decimal 0 word k (omega arith))

-- A number below 2^64 that is dumped is read back, behind white space and before what ends a word,
-- with nothing reported.
pub read_uint_field-render_uint :
    (ws tail : List ℕ) (v pos : ℕ) (d : WokDiagSink) (pool : List ℕ)
    → All (λ c. is_ws c ≡ true) ws
    → v < 18446744073709551616
    → EndsWord tail
    → read_uint_field (reader (ws ++ (render_uint v ++ tail)) pos d pool)
      ≡ (some v, reader tail (pos + length ws + length (render_uint v)) d pool)
unfolding render_uint word_number
read_uint_field-render_uint ws tail v pos d pool h l e =
    let word = render_digits 20 v [] in
    let number : decimal 0 word ≡ v = spelled v l in
    let fits : ltb (decimal 0 word) 18446744073709551616 ≡ true = ground arith in
    read_uint_field-decimal ws word tail pos d pool h (digits-IsDigit 20 v [] tt)
      (digits_nonempty 19 v) e
    ∙ ap
        (λ b.
          word_number (pos + length ws) word (reader tail (pos + length ws + length word) d pool)
            (if b then value (decimal 0 word) else out_of_range))
        fits
    ∙ ap (λ n. (some n, reader tail (pos + length ws + length word) d pool)) number
