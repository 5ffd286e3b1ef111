-- ===== src/Lexer/Main.antt =====
-- grammar/c/wok_token.c: the loop of `wok_scan`, one function for each kind of lexeme. At each of
-- them the scanner stands at the byte `c`, with `q` behind it.
use wokml.Prelude.{
  ℕ, zero, suc, ◌+◌, ◌-◌, Bool, true, false, not, ◌&&◌, ◌||◌, Option, none, some, [], ◌∷◌, leb,
  ◌==◌, if◌then◌else◌, length, take, ◌>>=◌,
}
use wokml.Utf8.{Bytes}
use wokml.Token.{
  WokKind, WokWord, ww_none, ww_plus, wt_eof, wt_varid, wt_conid, wt_int, wt_lparen, wt_rparen,
  wt_lbracket, wt_rbracket, wt_lbrace, wt_rbrace, wt_comma, wt_dot, wt_dotdot, wt_backtick,
  wt_underscore, wt_lambda, wt_semi, wt_bad,
}
use wokml.Token.Words.{word_of_ident, word_kind, reserved_sym}
use wokml.Token.Classes.{is_sym, is_lower, is_upper, is_digit, is_ident_cont}
use wokml.Diag.{WokDiagSink, message, e_lex_stray, e_lex_tab, e_lex_semi}
use wokml.Lexer.{
  u32, Scanner, emit, add_comment, advance, advance_while, add_diag, validate_source,
  skip_block_comment, scan_literal,
}

-- The length of the lexeme that starts where `s` stands and ends where `t` does.
abbrev pub span : Scanner → Scanner → ℕ
span s t = u32 (u32 t.i + 4294967296 - u32 s.i)

-- The bytes of that lexeme.
abbrev pub text : Scanner → Scanner → Bytes
text s t = take (span s t) s.rest

unfoldable pub scan_tab : Scanner → (c : ℕ) → Bytes → Scanner
scan_tab s c q =
    if s.line_pending && not s.tab_reported
    then advance
        (add_diag (record s { tab_reported = true }) e_lex_tab (u32 s.i) 1
          (message "tab in indentation; use spaces (a tab has no width under the offside rule)" []))
        c q
    else advance s c q

unfoldable pub all_dash : Bytes → Bool
all_dash [] = true
all_dash (c ∷ p) = c == 45 && all_dash p

abbrev pub plus_word : Bytes → WokWord
plus_word [] = ww_none
plus_word (c ∷ p) = if length p == 0 && c == 43 then ww_plus else ww_none

-- A line comment, from `s` on, once the dashes up to `t` are read.
unfoldable pub line_comment : Scanner → Scanner → Scanner
line_comment s t =
    let e = advance_while (λ b. not (b == 10)) t.rest t in add_comment e (u32 s.i) (span s e) false

-- A run of symbols: a line comment, or an operator.
unfoldable pub scan_sym : Scanner → Scanner
scan_sym s =
    let t = advance_while is_sym s.rest s in
    if all_dash (text s t) && leb 2 (span s t)
    then line_comment s t
    else emit t (reserved_sym (text s t)) (plus_word (text s t)) (u32 s.i) (span s t) s.col false

abbrev pub word_is_none : WokWord → Bool
word_is_none ww_none = true
word_is_none w = false

abbrev pub ident_word : (upper : Bool) → Bytes → WokWord
ident_word upper p = if upper then ww_none else word_of_ident p

abbrev pub ident_kind : (upper : Bool) → WokWord → WokKind
ident_kind upper w = if upper then wt_conid else if word_is_none w then wt_varid else word_kind w

unfoldable pub scan_ident : Scanner → (c : ℕ) → Scanner
scan_ident s c =
    let t = advance_while is_ident_cont s.rest s in
    let w = ident_word (is_upper c) (text s t) in
    emit t (ident_kind (is_upper c) w) w (u32 s.i) (span s t) s.col false

abbrev pub starts_with : (ℕ → Bool) → Bytes → Bool
starts_with p [] = false
starts_with p (c ∷ q) = p c

-- `_` alone, or a name that starts with it.
unfoldable pub scan_underscore : Scanner → (c : ℕ) → Bytes → Scanner
scan_underscore s c q =
    if starts_with is_ident_cont q
    then scan_ident s c
    else emit (advance s c q) wt_underscore ww_none (u32 s.i) 1 s.col false

unfoldable pub scan_int : Scanner → Scanner
scan_int s =
    let t = advance_while (λ b. is_digit b || b == 95) s.rest s in
    emit t wt_int ww_none (u32 s.i) (span s t) s.col false

unfoldable pub scan_dot : Scanner → (c : ℕ) → Bytes → Scanner
scan_dot s c [] = emit (advance s c []) wt_dot ww_none (u32 s.i) 1 s.col false
scan_dot s c (d ∷ q) =
    if d == 46
    then emit (advance (advance s c (d ∷ q)) d q) wt_dotdot ww_none (u32 s.i) 2 s.col false
    else emit (advance s c (d ∷ q)) wt_dot ww_none (u32 s.i) 1 s.col false

unfoldable pub scan_semi : Scanner → (c : ℕ) → Bytes → Scanner
scan_semi s c q =
    add_diag (emit (advance s c q) wt_semi ww_none (u32 s.i) 1 s.col false) e_lex_semi (u32 s.i) 1
      (message "v2 has no `;`: a block's items are delimited by columns alone" [])

-- The last switch.
unfoldable pub single_kind : ℕ → WokKind
single_kind c =
    if c == 40
    then wt_lparen
    else if c == 41
    then wt_rparen
    else if c == 91
    then wt_lbracket
    else if c == 93
    then wt_rbracket
    else if c == 123
    then wt_lbrace
    else if c == 125
    then wt_rbrace
    else if c == 44
    then wt_comma
    else if c == 96
    then wt_backtick
    else if c == 92
    then wt_lambda
    else wt_bad

abbrev pub kind_is_bad : WokKind → Bool
kind_is_bad wt_bad = true
kind_is_bad k = false

unfoldable pub scan_single : Scanner → (c : ℕ) → Bytes → Scanner
scan_single s c q =
    let t = emit (advance s c q) (single_kind c) ww_none (u32 s.i) 1 s.col false in
    if kind_is_bad (single_kind c)
    then add_diag t e_lex_stray (u32 s.i) 1 (message "stray byte 0x%02x in source" (c ∷ []))
    else t

-- A literal, or punctuation.
unfoldable pub scan_mark : Scanner → (c : ℕ) → Bytes → Option Scanner
scan_mark s c q =
    if c == 34 || c == 39
    then scan_literal s c q
    else if c == 46
    then some (scan_dot s c q)
    else if c == 59
    then some (scan_semi s c q)
    else some (scan_single s c q)

-- A lexeme that is neither blank nor a comment in braces.
unfoldable pub scan_lexeme : Scanner → (c : ℕ) → Bytes → Option Scanner
scan_lexeme s c q =
    if is_sym c
    then some (scan_sym s)
    else if c == 95
    then some (scan_underscore s c q)
    else if is_lower c || is_upper c
    then some (scan_ident s c)
    else if is_digit c
    then some (scan_int s)
    else scan_mark s c q

-- One round of the loop.
unfoldable pub scan_round : Scanner → (c : ℕ) → Bytes → Option Scanner
scan_round s c q =
    if c == 32 || c == 10 || c == 13
    then some (advance s c q)
    else if c == 9
    then some (scan_tab s c q)
    else if c == 123 && starts_with (λ d. d == 45) q
    then some (skip_block_comment s)
    else scan_lexeme s c q

-- The loop at the bytes `p`; `rec` is the rest of it.
unfoldable pub scan_at : (Scanner → Option Scanner) → Scanner → Bytes → Option Scanner
scan_at rec s [] = some s
scan_at rec s (c ∷ q) = scan_round s c q >>= rec

unfoldable pub scan_loop : (fuel : ℕ) → Scanner → Option Scanner
scan_loop zero s = none
scan_loop (suc fuel) s = scan_at (scan_loop fuel) s s.rest

abbrev pub initial_scanner : Bytes → WokDiagSink → Scanner
initial_scanner src d = record {
  rest = src;
  i = 0;
  col = 1;
  line_pending = true;
  tab_reported = false;
  tok = [];
  comments = [];
  diag = d;
}

unfoldable pub end_scan : Scanner → Scanner
end_scan s = emit s wt_eof ww_none (u32 s.i) 0 s.col false

-- `wok_scan`; the tokens, the comments and the sink are those of the scanner at the end.
unfoldable pub scan : Bytes → WokDiagSink → Option Scanner
scan src d = do
  s ←
      scan_loop (suc (length src))
        (initial_scanner src (validate_source (suc (length src)) 0 src d))
  some (end_scan s)
