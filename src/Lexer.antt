-- ===== src/Lexer.antt =====
-- grammar/c/wok_token.c: the scanner, `wok_scan`. The source from `i` on is the list `rest`, so
-- `i < n` is the test that it is not empty. Offsets, lengths and columns are 32 bits wide. The loops
-- that are not structural run on fuel, and `none` is a run that has none left.
pub mod Main
pub mod Ahead
pub mod Literals
pub mod Rounds
pub mod Lexemes
pub mod Scanned
pub mod IntValue
mod Tests
use wokml.Prelude.{
  ℕ, zero, suc, ◌+◌, ◌-◌, ◌%◌, Bool, true, false, not, ◌&&◌, ◌||◌, Option, none, some, List, [],
  ◌∷◌, ◌++◌, ltb, leb, ◌==◌, if◌then◌else◌, length, take, drop, ◌>>=◌,
}
use wokml.Utf8.{Bytes, find_invalid}
use wokml.Token.{
  WokKind, WokWord, WokToken, ww_none, ww_plus, wt_eof, wt_varid, wt_conid, wt_int, wt_string,
  wt_char, wt_lparen, wt_rparen, wt_lbracket, wt_rbracket, wt_lbrace, wt_rbrace, wt_comma, wt_dot,
  wt_dotdot, wt_backtick, wt_underscore, wt_lambda, wt_semi, wt_bad,
}
use wokml.Token.Words.{word_of_ident, word_kind, reserved_sym}
use wokml.Token.Classes.{is_sym, is_upper, is_digit, is_ident_start, is_ident_cont, is_hex}
use wokml.Diag.{
  WokDiagSink, WokDiagCode, Message, message, diag_add, e_lex_utf8, e_lex_unterminated, e_lex_stray,
  e_lex_tab, e_lex_semi,
}

abbrev pub u32 : ℕ → ℕ
u32 x = x % 4294967296

pub record WokComment : Type 0 where
  pub off : ℕ
  pub len : ℕ
  pub block : Bool

pub record Scanner : Type 0 where
  pub rest : Bytes
  pub i : ℕ
  pub col : ℕ
  pub line_pending : Bool
  pub tab_reported : Bool
  pub tok : List WokToken
  pub comments : List WokComment
  pub diag : WokDiagSink

pub emit : Scanner → WokKind → WokWord → (off len col : ℕ) → (has_escape : Bool) → Scanner
emit s k w off len col extra = record s {
  tok =
      s.tok
      ++ record {
        off = off;
        len = len;
        col = col;
        kind = k;
        word = w;
        first_on_line = s.line_pending;
        has_escape = extra;
      }
        ∷ [];
  line_pending = false;
}

pub add_comment : Scanner → (off len : ℕ) → (block : Bool) → Scanner
add_comment s off len block = record s {
  comments = s.comments ++ record { off = off; len = len; block = block } ∷ [];
}

-- `advance` over the byte `c`, with `q` behind it.
pub advance : Scanner → ℕ → Bytes → Scanner
advance s c q =
    if c == 10
    then record s { rest = q; i = s.i + 1; col = 1; line_pending = true; tab_reported = false }
    else record s { rest = q; i = s.i + 1; col = u32 (s.col + 1) }

-- `while (s->i < s->n && p(s->src[s->i])) advance(s);`, over the rest of the source.
pub advance_while : (ℕ → Bool) → Bytes → Scanner → Scanner
advance_while p [] s = s
advance_while p (c ∷ q) s = let next = advance_while p q (advance s c q) in if p c then next else s

abbrev pub add_diag : Scanner → WokDiagCode → (off len : ℕ) → Message → Scanner
add_diag s code off len m = record s { diag = diag_add s.diag code off len m }

-- One fault for each ill-formed byte; `p` is the source from `i` on.
pub validate_source : (fuel i : ℕ) → Bytes → WokDiagSink → WokDiagSink
validate_source zero i p d = d
validate_source (suc fuel) i p d = elim (drop (find_invalid p) p) [
  | [] ↦ d
  | b ∷ q ↦ validate_source fuel (i + find_invalid p + 1) q (
      diag_add d e_lex_utf8 (u32 (i + find_invalid p)) 1
        (message "invalid UTF-8 at byte 0x%02x" (b ∷ [])))
]

-- The bytes of `{-`, of `-}`, and the end of the outermost comment.
pub opens_comment : (c d : ℕ) → Bool
opens_comment c d = c == 123 && d == 45

pub closes_comment : (c d : ℕ) → Bool
closes_comment c d = c == 45 && d == 125

pub is_outside : (depth : ℕ) → Bool
is_outside depth = depth == 0

-- The loop of `skip_block_comment`, with the depth that it leaves.
pub block_loop : Bytes → (depth : ℕ) → Scanner → Scanner × ℕ
block_loop [] depth s = (s, depth)
block_loop (c ∷ []) depth s = (advance s c [], depth)
block_loop (c ∷ d ∷ q) depth s = elim (opens_comment c d) [
  | true ↦ block_loop q (u32 (depth + 1)) (advance (advance s c (d ∷ q)) d q)
  | false ↦ elim (closes_comment c d) [
    | true ↦ elim (is_outside (u32 (depth + 4294967295))) [
      | true ↦ (advance (advance s c (d ∷ q)) d q, 0)
      | false ↦ block_loop q (u32 (depth + 4294967295)) (advance (advance s c (d ∷ q)) d q)
    ]
    | false ↦ block_loop (d ∷ q) depth (advance s c (d ∷ q))
  ]
]

-- Behind the loop, for a comment that starts at `off`.
pub end_comment : (off : ℕ) → Scanner × ℕ → Scanner
end_comment off (s, depth) =
    let t =
      if depth == 0
      then s
      else add_diag s e_lex_unterminated off 2 (message "unterminated block comment" []) in
    add_comment t off (u32 (u32 t.i + 4294967296 - off)) true

pub skip_block_comment : Scanner → Scanner
skip_block_comment s = end_comment (u32 s.i) (block_loop s.rest 0 s)

-- The hex digits of `\x`, at most two, and how many they are.
pub hex_digits : Bytes → Scanner → Scanner × ℕ
hex_digits (a ∷ b ∷ q) s =
    if is_hex a
    then if is_hex b then (advance (advance s a (b ∷ q)) b q, 2) else (advance s a (b ∷ q), 1)
    else (s, 0)
hex_digits (a ∷ []) s = if is_hex a then (advance s a [], 1) else (s, 0)
hex_digits [] s = (s, 0)

abbrev simple_escape : ℕ → Bool
simple_escape e = e == 92 || e == 34 || e == 39 || e == 110 || e == 116 || e == 114 || e == 48

abbrev unknown_escape : ℕ → Message
unknown_escape e =
    if ltb e 128 && ltb 32 e
    then message "unknown escape `\\%c`" (e ∷ [])
    else message "unknown escape `\\x%02x`" (e ∷ [])

abbrev check_hex : (esc : ℕ) → Scanner × ℕ → Scanner
check_hex esc (s, hex) =
    if hex == 2
    then s
    else add_diag s e_lex_stray esc 2 (message "`\\x` needs exactly two hex digits" [])

-- What follows a backslash at `esc`: the byte `e`, with `q` behind it.
pub escape : Scanner → (esc e : ℕ) → Bytes → Scanner
escape s esc e q =
    if simple_escape e
    then advance s e q
    else if e == 120
    then check_hex esc (hex_digits q (advance s e q))
    else advance (add_diag s e_lex_stray esc 2 (unknown_escape e)) e q

-- What `scan_literal` knows behind its loop: the scanner, HAS_ESCAPE and `closed`.
abbrev pub Literal : Type 0
Literal = Scanner × Bool × Bool

-- A round of that loop ends it or goes on.
pub data Round : Type 0 where
  ends : Literal → Round
  goes_on : Scanner → (extra : Bool) → Round

pub after_backslash : Scanner → (esc : ℕ) → Bytes → Round
after_backslash s esc [] = ends (s, true, false)
after_backslash s esc (e ∷ q) = goes_on (escape s esc e q) true

-- The byte `c` in a literal, with `q` behind it.
pub literal_round : (quote : ℕ) → Scanner → (extra : Bool) → (c : ℕ) → Bytes → Round
literal_round quote s extra c q =
    if c == 10
    then ends (s, extra, false)
    else if c == 92
    then after_backslash (advance s c q) (u32 s.i) q
    else if c == quote
    then ends (advance s c q, extra, true)
    else goes_on (advance s c q) extra

-- The rounds behind; `rec` is the rest of the loop.
pub literal_next : (Scanner → Bool → Option Literal) → Round → Option Literal
literal_next rec (ends r) = some r
literal_next rec (goes_on t extra) = rec t extra

pub literal_at :
    (Scanner → Bool → Option Literal)
    → (quote : ℕ) → Scanner
    → (extra : Bool) → Bytes
    → Option Literal
literal_at rec quote s extra [] = some (s, extra, false)
literal_at rec quote s extra (c ∷ q) = literal_next rec (literal_round quote s extra c q)

pub literal_loop : (fuel : ℕ) → (quote : ℕ) → Scanner → (extra : Bool) → Option Literal
literal_loop zero quote s extra = none
literal_loop (suc fuel) quote s extra = literal_at (literal_loop fuel quote) quote s extra s.rest

abbrev literal_kind : ℕ → WokKind
literal_kind quote = if quote == 34 then wt_string else wt_char

abbrev unterminated : ℕ → Message
unterminated quote =
    if quote == 34
    then message "unterminated string literal" []
    else message "unterminated character literal" []

-- Behind the loop, for a literal that starts at `off` in column `col`.
pub end_literal : (quote off col : ℕ) → Literal → Scanner
end_literal quote off col (s, extra, closed) =
    let t = if closed then s else add_diag s e_lex_unterminated off 1 (unterminated quote) in
    emit t (literal_kind quote) ww_none off (u32 (u32 t.i + 4294967296 - off)) col extra

-- `scan_literal`, at the quote `c` with `q` behind it.
pub scan_literal : Scanner → (c : ℕ) → Bytes → Option Scanner
scan_literal s c q = do
  r ← literal_loop (suc (length q)) c (advance s c q) false
  some (end_literal c (u32 s.i) s.col r)
