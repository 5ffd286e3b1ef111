-- ===== src/Lexer/Tests.antt =====
-- Runs of the scanner, and the theorems at concrete sources.
use wokml.Prelude.{
  ℕ, zero, suc, Bool, ◌≡◌, ◌+◌, refl, Option, none, some, List, [], ◌∷◌, map, length, arith, true,
  false,
}
use wokml.Utf8.{Bytes, find_invalid}
use wokml.Token.{WokKind, WokToken, ww_none, wt_varid, wt_equals, wt_int, wt_eof}
use wokml.Token.Words.{reserved_sym, word_of_ident, first_word}
use wokml.Token.Classes.{is_sym}
use wokml.Diag.{WokDiagSink, diag_new}
use wokml.Layout.{Filter, layout}
use wokml.Layout.Exact.{nests}
use wokml.Layout.Check.{layout_check}
use wokml.Lexer.{Scanner, advance, advance_while, emit, validate_source}
use wokml.Lexer.Main.{
  scan, scan_loop, scan_at, scan_round, scan_lexeme, scan_ident, scan_int, scan_sym, end_scan,
  all_dash,
}
use wokml.Lexer.Scanned.{Scanned, scan-Scanned, scan-layout}
use wokml.Lexer.IntValue.{int_value, decimal, int_value-decimal}

abbrev sink : WokDiagSink
sink = diag_new []

abbrev kinds : Option Scanner → List WokKind
kinds none = []
kinds (some s) = map (λ (t : WokToken). t.kind) s.tok

-- x = 1
abbrev equation : Bytes
equation = 120 ∷ 32 ∷ 61 ∷ 32 ∷ 49 ∷ []

abbrev token_at : WokKind → (off len : ℕ) → (first : Bool) → WokToken
token_at k off len first = record {
  off = off;
  len = len;
  col = off + 1;
  kind = k;
  word = ww_none;
  first_on_line = first;
  has_escape = false;
}

abbrev equation_end : Scanner
equation_end = record {
  rest = [];
  i = 5;
  col = 6;
  line_pending = false;
  tab_reported = false;
  tok =
      token_at wt_varid 0 1 true
      ∷ token_at wt_equals 2 1 false
      ∷ token_at wt_int 4 1 false
      ∷ token_at wt_eof 5 0 false
      ∷ [];
  comments = [];
  diag = sink;
}

equation-scan : scan equation sink ≡ some equation_end
unfolding scan scan_loop scan_at scan_round scan_lexeme scan_ident scan_int scan_sym end_scan
    advance advance_while emit validate_source find_invalid reserved_sym is_sym all_dash
    word_of_ident first_word
equation-scan = refl

scan-Scanned_example :
    (s : Scanner) × (scan equation sink ≡ some s) × Scanned (length equation) s.tok
scan-Scanned_example = scan-Scanned equation sink (omega arith)

scan-layout_example :
    (g : Filter) × (layout equation_end.tok sink ≡ some g) × (layout_check g.out 4 false ≡ none)
scan-layout_example = scan-layout equation sink (omega arith) equation-scan (omega arith)

-- 1_8
abbrev grouped : Bytes
grouped = 49 ∷ 95 ∷ 56 ∷ []

int_value-decimal_example : int_value grouped (token_at wt_int 0 3 true) sink ≡ (true, 18, sink)
unfolding decimal
int_value-decimal_example =
    int_value-decimal grouped (token_at wt_int 0 3 true) sink (refl, (refl, (refl, tt)))

-- `k` repetitions of four lines of the name `a`, each one space deeper than the one before.
abbrev nest_source : (k : ℕ) → Bytes
nest_source zero = []
nest_source (suc k) =
    97 ∷ 10 ∷ 32 ∷ 97 ∷ 10 ∷ 32 ∷ 32 ∷ 97 ∷ 10 ∷ 32 ∷ 32 ∷ 32 ∷ 97 ∷ 10 ∷ nest_source k

abbrev or_empty : Option Scanner → Scanner
or_empty none = record {
  rest = [];
  i = 0;
  col = 0;
  line_pending = false;
  tab_reported = false;
  tok = [];
  comments = [];
  diag = sink;
}
or_empty (some s) = s

-- The scanner makes the tokens of `layout-overflow` of the file of 38 repetitions, without a diagnostic.
nest_source-nests :
    ((or_empty (scan (nest_source 38) sink)).tok ≡ nests 0 38)
    × ((or_empty (scan (nest_source 38) sink)).diag ≡ sink)
unfolding scan scan_loop scan_at scan_round scan_lexeme scan_ident scan_int scan_sym end_scan
    advance advance_while emit validate_source find_invalid reserved_sym is_sym all_dash
    word_of_ident first_word
nest_source-nests = (refl, refl)
