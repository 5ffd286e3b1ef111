-- ===== src/Token/Tests.antt =====
-- The theorems about words at concrete spellings.
use wokml.Prelude.{◌≡◌, ◌≢◌, refl, [], ◌∷◌}
use wokml.Token.{ww_none, ww_handler}
use wokml.Token.Words.{word_text, same_bytes, first_word, word_of_ident}
use wokml.Token.Roster.{word_of_ident-text, text-word_of_ident}

-- let
found_let : word_of_ident (108 ∷ 101 ∷ 116 ∷ []) ≢ ww_none
unfolding word_of_ident first_word same_bytes
found_let e = cc

word_of_ident-text_example : word_text (word_of_ident (108 ∷ 101 ∷ 116 ∷ [])) ≡ 108 ∷ 101 ∷ 116 ∷ []
word_of_ident-text_example = word_of_ident-text (108 ∷ 101 ∷ 116 ∷ []) found_let

text-word_of_ident_example : word_of_ident (word_text ww_handler) ≡ ww_handler
text-word_of_ident_example = text-word_of_ident ww_handler refl
