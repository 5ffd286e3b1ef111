-- ===== src/Sexpr/Tests.antt =====
-- Runs of the codecs of the leaves.
use wokml.Prelude.{ℕ, ◌+◌, ◌≡◌, refl, true, some, List, [], ◌∷◌, ◌++◌, length, arith}
use wokml.Diag.{diag_new}
use wokml.Sexpr.{
  render_char, render_body, render_string, render_digits, render_uint, read_string_lit,
  read_uint_field, word_run,
}
use wokml.Sexpr.Text.{reader, read_string_lit-render_string}
use wokml.Sexpr.Numbers.{read_uint_field-render_uint}

-- `a`, a quote, a byte that is written in hexadecimal, and a line feed.
abbrev text : List ℕ
text = b'a' ∷ b'"' ∷ 27 ∷ 10 ∷ []

text_dump :
    render_string text
    ≡ b'"' ∷ b'a' ∷ b'\\' ∷ b'"' ∷ b'\\' ∷ b'x' ∷ b'1' ∷ b'B' ∷ b'\\' ∷ b'n' ∷ b'"' ∷ []
unfolding render_string render_body render_char
text_dump = refl

number_dump : render_uint 4096 ≡ b'4' ∷ b'0' ∷ b'9' ∷ b'6' ∷ []
unfolding render_uint render_digits
number_dump = refl

read_string_lit-render_string_example :
    read_string_lit true
      (reader ((32 ∷ []) ++ (render_string text ++ b')' ∷ [])) 5 (diag_new []) (b'z' ∷ []))
    ≡ some (
      some (record { off = 1; len = 4 }),
      reader (b')' ∷ []) (5 + 1 + length (render_string text)) (diag_new []) (b'z' ∷ text),
    )
read_string_lit-render_string_example =
    read_string_lit-render_string (32 ∷ []) text (b')' ∷ []) 5 (diag_new []) (b'z' ∷ []) (refl, tt)
      (omega arith)

paren_ends : word_run (b')' ∷ []) ≡ 0
unfolding word_run
paren_ends = refl

read_uint_field-render_uint_example :
    read_uint_field (reader ((32 ∷ []) ++ (render_uint 4096 ++ b')' ∷ [])) 5 (diag_new []) [])
    ≡ (some 4096, reader (b')' ∷ []) (5 + 1 + length (render_uint 4096)) (diag_new []) [])
read_uint_field-render_uint_example =
    read_uint_field-render_uint (32 ∷ []) (b')' ∷ []) 4096 5 (diag_new []) [] (refl, tt)
      (omega arith) paren_ends
