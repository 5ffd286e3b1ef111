-- ===== src/Utf8/Tests.antt =====
-- Runs of the UTF-8 functions, and the theorems at concrete buffers.
use wokml.Prelude.{◌≡◌, ◌≢◌, ◌≤◌, ◌↔◌, refl, [], ◌∷◌, arith, ◌==◌, if◌then◌else◌}
use wokml.Utf8.{Bytes, dfa_step, seq_loop, seq_len, find_invalid, truncate, validate_utf8}
use wokml.Utf8.Spec.{IsText, row, one, two, char, done}
use wokml.Utf8.SeqLen.{IsBytes}
use wokml.Utf8.Chars.{seq_len-IsChar}
use wokml.Utf8.Find.{Found, find_invalid-Found}
use wokml.Utf8.Validate.{validate_utf8-find_invalid, validate_utf8-IsText}
use wokml.Utf8.Truncate.{Cut, truncate-Cut, truncate_bounds}

-- "wokwokwo", an e with an acute accent, and a lone continuation byte.
abbrev broken : Bytes
broken = 119 ∷ 111 ∷ 107 ∷ 119 ∷ 111 ∷ 107 ∷ 119 ∷ 111 ∷ 195 ∷ 169 ∷ 128 ∷ []

abbrev accented : Bytes
accented = 195 ∷ 169 ∷ 97 ∷ []

broken_at : find_invalid broken ≡ 10
unfolding find_invalid dfa_step seq_loop
broken_at = refl

accented_cut : truncate accented 1 ≡ 0
unfolding truncate dfa_step seq_loop seq_len
accented_cut = refl

accented_valid : validate_utf8 accented ≡ 1
unfolding validate_utf8 dfa_step
accented_valid = refl

broken-IsBytes : IsBytes broken
broken-IsBytes = omega arith

accented-IsBytes : IsBytes accented
accented-IsBytes = omega arith

accented-IsText : IsText accented
unfolding row
accented-IsText = char {c = 195 ∷ 169 ∷ []} (two refl) (char {c = 97 ∷ []} (one (omega arith)) done)

seq_len-IsChar_example : seq_len accented 3 ≡ 2
unfolding row
seq_len-IsChar_example =
    seq_len-IsChar accented accented-IsBytes (195 ∷ 169 ∷ []) (97 ∷ []) (two refl) refl

accented_front : seq_len accented 3 ≢ 0
unfolding seq_len seq_loop dfa_step
accented_front e = cc

find_invalid-Found_example : Found broken (find_invalid broken)
find_invalid-Found_example = find_invalid-Found broken broken-IsBytes

validate_utf8-find_invalid_example :
    validate_utf8 broken ≡ (if find_invalid broken == 11 then 1 else 0)
validate_utf8-find_invalid_example = validate_utf8-find_invalid broken broken-IsBytes

validate_utf8-IsText_example : (validate_utf8 accented ≡ 1) ↔ IsText accented
validate_utf8-IsText_example = validate_utf8-IsText accented accented-IsBytes

truncate-Cut_example : Cut accented 1 (truncate accented 1)
truncate-Cut_example = truncate-Cut accented 1 accented-IsText accented-IsBytes

truncate_bounds_example : (truncate broken 9 ≤ 9) × (truncate broken 9 ≤ 11)
truncate_bounds_example = truncate_bounds broken 9 broken-IsBytes
