-- ===== src/Sexpr.antt =====
-- grammar/c/wok_sexpr.c: the leaves of the dump of a tree, and how they are read back.
-- Text is the list of its bytes, the sink the bytes it has been given, and the reader the rest of the
-- text with its place; the pool is the bytes that were decoded. A diagnostic says what was found as its
-- bytes.
use wokml.Prelude.{
  ℕ, zero, suc, ◌+◌, ◌-◌, ◌*◌, ◌/◌, ◌%◌, Bool, true, false, not, ◌&&◌, ◌||◌, Option, none, some,
  List, [], ◌∷◌, ◌++◌, ltb, leb, ◌==◌, if◌then◌else◌, length, drop, take, ◌>>=◌,
}
pub mod Text
pub mod Numbers
mod Tests
use Prim.Native.String.{String}
use wokml.Ast.{WokSpan}
use wokml.Diag.{
  WokDiagSink, diag_add, WokDiagCode, e_parse, e_lex_unterminated, e_lex_int_range, Message,
  message,
}

-- `%02X` of a byte, digit by digit.
abbrev pub upper_hex : ℕ → ℕ
upper_hex d = if ltb d 10 then b'0' + d else b'A' + (d - 10)

-- One byte of `render_string`.
unfoldable pub render_char : ℕ → List ℕ
render_char c =
    if c == b'\\'
    then b'\\' ∷ b'\\' ∷ []
    else if c == b'"'
    then b'\\' ∷ b'"' ∷ []
    else if c == 10
    then b'\\' ∷ b'n' ∷ []
    else if c == 9
    then b'\\' ∷ b't' ∷ []
    else if c == 13
    then b'\\' ∷ b'r' ∷ []
    else if ltb c 32
    then b'\\' ∷ b'x' ∷ upper_hex (c / 16) ∷ upper_hex (c % 16) ∷ []
    else c ∷ []

-- The loop of `render_string`, with the quote that ends it.
unfoldable pub render_body : List ℕ → List ℕ
render_body [] = b'"' ∷ []
render_body (c ∷ cs) = render_char c ++ render_body cs

unfoldable pub render_string : List ℕ → List ℕ
render_string text = b'"' ∷ render_body text

-- `%PRIu64`: the digits of a number, before those that are there.
unfoldable pub render_digits : (fuel v : ℕ) → List ℕ → List ℕ
render_digits zero v ds = ds
render_digits (suc fuel) v ds =
    let more = render_digits fuel (v / 10) ((b'0' + v % 10) ∷ ds) in
    if ltb v 10 then (b'0' + v) ∷ ds else more

unfoldable pub render_uint : ℕ → List ℕ
render_uint v = render_digits 20 v []

pub record WokReader : Type 0 where
  pub rest : List ℕ
  pub pos : ℕ
  pub diag : WokDiagSink
  pub pool : List ℕ

abbrev pub is_ws : ℕ → Bool
is_ws c = c == 32 || c == 9 || c == 10 || c == 13

abbrev pub is_delim : ℕ → Bool
is_delim c = c == b'(' || c == b')' || c == b'"' || is_ws c

-- The bytes of white space in front.
unfoldable pub ws_run : List ℕ → ℕ
ws_run [] = 0
ws_run (c ∷ cs) = if is_ws c then suc (ws_run cs) else 0

-- The reader, `n` bytes on.
abbrev pub ahead : WokReader → ℕ → WokReader
ahead r n = record r { rest = drop n r.rest; pos = r.pos + n }

unfoldable pub skip_ws : WokReader → WokReader
skip_ws r = ahead r (ws_run r.rest)

abbrev pub report : WokReader → WokDiagCode → (off len : ℕ) → Message → WokReader
report r code off len msg = record r { diag = diag_add r.diag code off len msg }

-- `expect_char` once white space is skipped; `missing` is its message at the end of the input.
unfoldable pub expect_next : WokReader → (c : ℕ) → (missing : String) → List ℕ → Bool × WokReader
expect_next r c missing [] =
    (false, report r e_lex_unterminated (r.pos % 4294967296) 0 (message missing (c ∷ [])))
expect_next r c missing (x ∷ xs) = if x == c then (true, ahead r 1) else (
  false,
  report r e_parse (r.pos % 4294967296) 0 (message "expected `%c`, found `%c`" (c ∷ x ∷ [])),
)

unfoldable pub expect_char : WokReader → (c : ℕ) → (missing : String) → Bool × WokReader
expect_char r c missing = let r1 = skip_ws r in expect_next r1 c missing r1.rest

unfoldable pub hex_digit : ℕ → Option ℕ
hex_digit c =
    if leb b'0' c && leb c b'9'
    then some (c - b'0')
    else if leb b'a' c && leb c b'f'
    then some (c - b'a' + 10)
    else if leb b'A' c && leb c b'F'
    then some (c - b'A' + 10)
    else none

-- What a round of the loop of `read_string_lit` finds: a byte that is written in `n` bytes, the quote at
-- the end, or a fault `n` bytes on.
pub data Piece : Type 0 where
  decoded : (byte n : ℕ) → Piece
  quote : Piece
  fault : (n : ℕ) → WokDiagCode → (off : ℕ) → Message → Piece

abbrev pub no_quote : (n start : ℕ) → Piece
no_quote n start = fault n e_lex_unterminated start (message "unterminated string literal" [])

unfoldable pub hex_pair : (pos : ℕ) → (hi lo : Option ℕ) → Piece
hex_pair pos (some hi) (some lo) = decoded (hi * 16 + lo) 4
hex_pair pos hi lo = fault 2 e_parse pos (message "invalid \\x escape in string literal" [])

unfoldable pub hex_escape : (start pos : ℕ) → List ℕ → Piece
hex_escape start pos (h ∷ l ∷ cs) = hex_pair pos (hex_digit h) (hex_digit l)
hex_escape start pos cs =
    fault 2 e_lex_unterminated start (message "unterminated \\x escape in string literal" [])

unfoldable pub escaped : (start pos : ℕ) → List ℕ → Piece
escaped start pos [] = no_quote 1 start
escaped start pos (e ∷ cs) =
    if e == b'\\'
    then decoded b'\\' 2
    else if e == b'"'
    then decoded b'"' 2
    else if e == b'n'
    then decoded 10 2
    else if e == b't'
    then decoded 9 2
    else if e == b'r'
    then decoded 13 2
    else if e == b'x'
    then hex_escape start (pos + 1) cs
    else fault 1 e_parse pos (message "unknown escape `\\%c` in string literal" (e ∷ []))

unfoldable pub piece : (start pos : ℕ) → List ℕ → Piece
piece start pos [] = no_quote 0 start
piece start pos (c ∷ cs) =
    if c == b'"' then quote else if c == b'\\' then escaped start (pos + 1) cs else decoded c 1

-- The loop of `read_string_lit`, which keeps the bytes if there is a pool. `none` is a run without fuel.
unfoldable pub read_body : (fuel start : ℕ) → (keep : Bool) → WokReader → Option (Bool × WokReader)
read_body zero start keep r = none
read_body (suc fuel) start keep r = elim (piece start r.pos r.rest) [
  | quote ↦ some (true, ahead r 1)
  | fault n code off msg ↦ some (false, report (ahead r n) code (off % 4294967296) 0 msg)
  | decoded byte n ↦
      read_body fuel start keep
        (record (ahead r n) { pool = (if keep then r.pool ++ byte ∷ [] else r.pool) })
]

-- The span of the literal in the pool, once the loop has ended.
unfoldable pub literal_span :
    (keep : Bool) → (from : ℕ) → Bool × WokReader → Option WokSpan × WokReader
literal_span keep from (false, r) = (none, r)
literal_span keep from (true, r) = (
  some (record {
    off = from % 4294967296;
    len = (if keep then (length r.pool - from) % 4294967296 else 0);
  }),
  r,
)

unfoldable pub read_quoted :
    (keep : Bool) → (start : ℕ) → Bool × WokReader → Option (Option WokSpan × WokReader)
read_quoted keep start (false, r) = some (none, r)
read_quoted keep start (true, r) = read_body (length r.rest + 1) start keep r >>= λ b.
    some (literal_span keep (if keep then length r.pool else 0) b)

-- `read_string_lit`, with `keep` where it is given a pool.
unfoldable pub read_string_lit : (keep : Bool) → WokReader → Option (Option WokSpan × WokReader)
read_string_lit keep r =
    let r1 = skip_ws r in
    read_quoted keep r1.pos
      (expect_char r1 b'"' "unterminated string literal: expected `%c`, found end of input")

-- The bytes of a word in front.
unfoldable pub word_run : List ℕ → ℕ
word_run [] = 0
word_run (c ∷ cs) = if is_delim c then 0 else suc (word_run cs)

-- `read_word`, with the place and the bytes of the word.
unfoldable pub read_word : WokReader → Option (ℕ × List ℕ) × WokReader
read_word r =
    let r1 = skip_ws r in
    let n = word_run r1.rest in (if n == 0 then none else some (r1.pos, take n r1.rest), ahead r1 n)

-- What the digits of a word come to.
pub data Digits : Type 0 where
  value : ℕ → Digits
  not_decimal : Digits
  out_of_range : Digits

-- The loop of `read_uint_field`.
unfoldable pub read_digits : (v : ℕ) → List ℕ → Digits
read_digits v [] = value v
read_digits v (c ∷ cs) =
    let d = c - b'0' in
    let rest = read_digits (v * 10 + d) cs in
    if ltb c b'0' || ltb b'9' c
    then not_decimal
    else if ltb ((18446744073709551615 - d) / 10) v
    then out_of_range
    else rest

unfoldable pub word_number : (off : ℕ) → (word : List ℕ) → WokReader → Digits → Option ℕ × WokReader
word_number off word r (value v) = (some v, r)
word_number off word r not_decimal = (
  none,
  report r e_parse (off % 4294967296) (length word % 4294967296)
      (message "expected a decimal integer, found `%.*s`" word),
)
word_number off word r out_of_range = (
  none,
  report r e_lex_int_range (off % 4294967296) (length word % 4294967296)
      (message "integer literal `%.*s` out of range" word),
)

unfoldable pub no_number : WokReader → List ℕ → Option ℕ × WokReader
no_number r [] = (
  none,
  report r e_lex_unterminated (r.pos % 4294967296) 0
      (message "unterminated node: expected an integer field" []),
)
no_number r (c ∷ cs) = (
  none,
  report r e_parse (r.pos % 4294967296) 0
      (message "expected an integer field, found `%c`" (c ∷ [])),
)

unfoldable pub number_of : Option (ℕ × List ℕ) × WokReader → Option ℕ × WokReader
number_of (none, r) = no_number r r.rest
number_of (some (off, word), r) = word_number off word r (read_digits 0 word)

unfoldable pub read_uint_field : WokReader → Option ℕ × WokReader
read_uint_field r = number_of (read_word r)
