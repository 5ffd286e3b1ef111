-- ===== src/Utf8/Spec.antt =====
-- Well-formed UTF-8 as the Unicode standard tabulates it (table 3-7), without the DFA.
use wokml.Prelude.{ℕ, ◌≤◌, ◌≡◌, Bool, ◌&&◌, [], ◌∷◌, ◌++◌, leb, if◌then◌else◌, true}
use wokml.Utf8.{Bytes}

abbrev pub within : ℕ → ℕ → ℕ → Bool
within lo hi b = leb lo b && leb b hi

-- A continuation byte.
abbrev pub is_cont : ℕ → Bool
is_cont = within 0x80 0xBF

-- The length that the lead byte and the ranges of its second byte announce, 0 for no sequence. The
-- rows are those of the table: overlong forms, surrogates and values above U+10FFFF have no row.
unfoldable pub row : (lead second : ℕ) → ℕ
row a b =
    if within 0xC2 0xDF a && is_cont b
    then 2
    else if within 0xE0 0xE0 a && within 0xA0 0xBF b
    then 3
    else if within 0xE1 0xEC a && is_cont b
    then 3
    else if within 0xED 0xED a && within 0x80 0x9F b
    then 3
    else if within 0xEE 0xEF a && is_cont b
    then 3
    else if within 0xF0 0xF0 a && within 0x90 0xBF b
    then 4
    else if within 0xF1 0xF3 a && is_cont b
    then 4
    else if within 0xF4 0xF4 a && within 0x80 0x8F b
    then 4
    else 0

-- One encoded character.
pub data IsChar : Bytes → Type 0 where
  one : {a : ℕ} → a ≤ 0x7F → IsChar (a ∷ [])
  two : {a b : ℕ} → row a b ≡ 2 → IsChar (a ∷ b ∷ [])
  three : {a b c : ℕ} → row a b ≡ 3 → is_cont c ≡ true → IsChar (a ∷ b ∷ c ∷ [])
  four :
      {a b c d : ℕ}
      → row a b ≡ 4
      → is_cont c ≡ true
      → is_cont d ≡ true
      → IsChar (a ∷ b ∷ c ∷ d ∷ [])

-- A text: characters one after the other.
pub data IsText : Bytes → Type 0 where
  done : IsText []
  char : {c p : Bytes} → IsChar c → IsText p → IsText (c ++ p)
