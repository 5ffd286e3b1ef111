-- ===== src/Token/Classes.antt =====
-- grammar/c/wok_token.c: the character classes. The symbols are a bitmap of two 64-bit words.
use Prim.Native.Nat.{bit_or}
use wokml.Prelude.{
  ℕ, ◌-◌, ◌/◌, ◌%◌, ◌^◌, Bool, false, not, ◌&&◌, ◌||◌, ltb, leb, ◌==◌, if◌then◌else◌,
}

-- `BIT(c)`
abbrev bit : ℕ → ℕ
bit c = 2 ^ (c % 64)

abbrev pub or_bit : ℕ → ℕ → ℕ
or_bit c w = bit_or (bit c) w

-- `CC_SYM_LO`: ! # $ % & * + - / : < = > ?
pub sym_lo : ℕ
sym_lo = or_bit 33 (
    or_bit 35 (
      or_bit 36 (
        or_bit 37 (
          or_bit 38 (
            or_bit 42 (
              or_bit 43 (
                or_bit 45
                  (or_bit 47 (or_bit 58 (or_bit 60 (or_bit 61 (or_bit 62 (bit 63)))))))))))))

-- `CC_SYM_HI`: @ ^ | ~
pub sym_hi : ℕ
sym_hi = or_bit 64 (or_bit 94 (or_bit 124 (bit 126)))

-- `((w >> k) & 1u) != 0`
abbrev test_bit : ℕ → ℕ → Bool
test_bit w k = not (w / 2 ^ k % 2 == 0)

unfoldable pub is_sym : ℕ → Bool
unfolding sym_lo sym_hi
is_sym c =
    if ltb c 64 then test_bit sym_lo c else if ltb c 128 then test_bit sym_hi (c - 64) else false

abbrev pub is_lower : ℕ → Bool
is_lower c = leb 97 c && leb c 122

abbrev pub is_upper : ℕ → Bool
is_upper c = leb 65 c && leb c 90

abbrev pub is_digit : ℕ → Bool
is_digit c = leb 48 c && leb c 57

abbrev pub is_ident_start : ℕ → Bool
is_ident_start c = is_lower c || is_upper c || c == 95

abbrev pub is_ident_cont : ℕ → Bool
is_ident_cont c = is_ident_start c || is_digit c || c == 39

-- A digit of a `\x` escape.
abbrev pub is_hex : ℕ → Bool
is_hex c = is_digit c || leb 97 c && leb c 102 || leb 65 c && leb c 70
