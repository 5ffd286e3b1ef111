-- ===== src/Fixity/Bits.antt =====
-- grammar/c/wok_resolve.c: the bits of a word under `|` and under a mask of ones.
use Prim.Native.Nat.{◌^◌, bit_or, max, min, digits, bitwise, bit_or-bitwise, bit_and-bitwise}
use native.Mathlib.Nat.{div-div-eq-div-mul, mod-eq-sub-mul-div, mul-div-le, zero-div, one-le-pow}
use wokml.Prelude.{
  ℕ, zero, suc, ◌+◌, ◌-◌, ◌*◌, ◌/◌, ◌%◌, ◌≡◌, ◌≤◌, refl, sym, ap, ◌∙◌, Bool, not, ◌||◌, ◌==◌,
  bit_and, arith,
}

-- An operation on binary digits, given by what it does past the end of the first word and on a digit.
module _ (past : ℕ → ℕ) (join : ℕ → ℕ → ℕ) where
  -- More digits to go than the first word has change nothing.
  digits_settle :
      (bound left x y : ℕ)
      → x ≤ bound
      → x ≤ left
      → digits past join left x y ≡ bitwise past join x y
  digits_settle bound zero zero y l m = refl
  digits_settle bound (suc left) zero y l m = refl
  digits_settle bound zero (suc x) y l m = absurd (omega arith)
  digits_settle zero (suc left) (suc x) y l m = absurd (omega arith)
  digits_settle (suc bound) (suc left) (suc x) y l m =
      let half = suc x / 2 in
      let low = join (suc x % 2) (y % 2) in
      ap (λ w. w * 2 + low)
        (digits_settle bound left half (y / 2) (omega arith) (omega arith)
          ∙ sym (digits_settle bound x half (y / 2) (omega arith) (omega arith)))

  -- The lowest digit, and the others.
  bitwise_low :
      (x y : ℕ)
      → bitwise past join (suc x) y
        ≡ bitwise past join (suc x / 2) (y / 2) * 2 + join (suc x % 2) (y % 2)
  bitwise_low x y =
      ap (λ w. w * 2 + join (suc x % 2) (y % 2))
        (digits_settle x x (suc x / 2) (y / 2) (omega arith) (omega arith))

or_lowest : (x y : ℕ) → bit_or x y ≡ bit_or (x / 2) (y / 2) * 2 + max (x % 2) (y % 2)
or_lowest zero y = let halves = bit_or-bitwise 0 (y / 2) in bit_or-bitwise 0 y ∙ omega arith
or_lowest (suc x) y =
    bit_or-bitwise (suc x) y
    ∙ bitwise_low (λ w. w) max x y
    ∙ ap (λ w. w * 2 + max (suc x % 2) (y % 2)) (sym (bit_or-bitwise (suc x / 2) (y / 2)))

-- Bit `k` of a word.
abbrev pub bit_at : ℕ → ℕ → Bool
bit_at x k = not (x / 2 ^ k % 2 == 0)

power_suc : (k : ℕ) → 2 ^ suc k ≡ 2 * 2 ^ k
power_suc k = omega arith

shift_suc : (x k : ℕ) → x / 2 ^ suc k ≡ x / 2 / 2 ^ k
shift_suc x k = ap (λ p. x / p) (power_suc k) ∙ sym (div-div-eq-div-mul x 2 (2 ^ k))

bit_or_half : (x y : ℕ) → bit_or x y / 2 ≡ bit_or (x / 2) (y / 2)
bit_or_half x y = omega (arith, or_lowest x y)

pub bit_at-bit_or : (x y k : ℕ) → bit_at (bit_or x y) k ≡ (bit_at x k || bit_at y k)
bit_at-bit_or x y zero = ground (arith, or_lowest x y)
bit_at-bit_or x y (suc k) =
    rw (shift_suc (bit_or x y) k, bit_or_half x y, shift_suc x k, shift_suc y k)
      (bit_at-bit_or (x / 2) (y / 2) k)

pub bit_at_power : (j k : ℕ) → bit_at (2 ^ j) k ≡ (k == j)
bit_at_power zero zero = refl
bit_at_power zero (suc k) =
    rw (shift_suc 1 k) (ap (λ t. not (t % 2 == 0)) (zero-div (2 ^ k)) ∙ ground arith)
bit_at_power (suc j) zero = ground (arith, power_suc j)
bit_at_power (suc j) (suc k) =
    let h : 2 ^ suc j / 2 ≡ 2 ^ j = omega (arith, power_suc j) in
    rw (shift_suc (2 ^ suc j) k, h) (bit_at_power j k ∙ ground arith)

and_lowest : (x y : ℕ) → bit_and x y ≡ bit_and (x / 2) (y / 2) * 2 + min (x % 2) (y % 2)
and_lowest zero y = let halves = bit_and-bitwise 0 (y / 2) in bit_and-bitwise 0 y ∙ omega arith
and_lowest (suc x) y =
    bit_and-bitwise (suc x) y
    ∙ bitwise_low (λ w. zero) min x y
    ∙ ap (λ w. w * 2 + min (suc x % 2) (y % 2)) (sym (bit_and-bitwise (suc x / 2) (y / 2)))

-- No bit is left under an empty mask.
no_mask : (bound x : ℕ) → x ≤ bound → bit_and x 0 ≡ 0
no_mask bound zero l = refl
no_mask zero (suc x) l = absurd (omega arith)
no_mask (suc bound) (suc x) l =
    let rest = no_mask bound (suc x / 2) (omega arith) in and_lowest (suc x) 0 ∙ omega arith

-- The low digit of a remainder by a doubled modulus.
mod_double : (x p : ℕ) → x % (2 * p) ≡ x / 2 % p * 2 + x % 2
mod_double x p =
    let q : x / 2 / p ≡ x / (2 * p) = div-div-eq-div-mul x 2 p in
    let twice : 2 * p * (x / 2 / p) ≡ 2 * (p * (x / 2 / p)) = omega arith in
    omega (
      arith,
      mod-eq-sub-mul-div x (2 * p) ∙ ap (λ t. x - 2 * p * t) (sym q),
      mod-eq-sub-mul-div (x / 2) p,
      mul-div-le (x / 2) p,
      twice,
    )

pub bit_and_ones : (k x : ℕ) → bit_and x (2 ^ k - 1) ≡ x % 2 ^ k
bit_and_ones zero x = no_mask x x (omega arith) ∙ omega arith
bit_and_ones (suc k) x =
    let positive : 1 ≤ 2 ^ k = one-le-pow k 2 (omega arith) in
    let half : (2 ^ suc k - 1) / 2 ≡ 2 ^ k - 1 = omega arith in
    let low : (2 ^ suc k - 1) % 2 ≡ 1 = omega arith in
    let rest : bit_and (x / 2) ((2 ^ suc k - 1) / 2) ≡ x / 2 % 2 ^ k =
      ap (λ t. bit_and (x / 2) t) half ∙ bit_and_ones k (x / 2) in
    let split : x % 2 ^ suc k ≡ x / 2 % 2 ^ k * 2 + x % 2 =
      ap (λ t. x % t) (power_suc k) ∙ mod_double x (2 ^ k) in
    omega (arith, and_lowest x (2 ^ suc k - 1), rest, split, low)
