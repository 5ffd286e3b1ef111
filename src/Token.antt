-- ===== src/Token.antt =====
-- grammar/c/wok_token.h: the rosters of kinds and words, tokens, and the lexical predicates that
-- the layout filter asks.
pub mod Words
pub mod Classes
pub mod Roster
mod Tests
use wokml.Prelude.{ℕ, Bool, true, false}

pub data WokKind : Type 0 where
  wt_eof wt_newline wt_indent wt_dedent wt_varid wt_conid wt_varsym wt_keyword wt_int : WokKind
  wt_string wt_char wt_lparen wt_rparen wt_lbracket wt_rbracket wt_lbrace wt_rbrace : WokKind
  wt_comma wt_dot wt_dotdot wt_backtick wt_underscore wt_lambda wt_arrow wt_fatarrow : WokKind
  wt_equals wt_colon wt_coloncolon wt_assign wt_bar wt_semi wt_bad : WokKind

pub data WokWord : Type 0 where
  ww_none ww_module ww_import ww_as ww_type ww_alias ww_class ww_instance ww_let ww_in : WokWord
  ww_case ww_of ww_if ww_then ww_else ww_where ww_effect ww_handler ww_handle ww_use : WokWord
  ww_abort ww_return ww_var ww_with ww_foreign ww_extern ww_fixity ww_once ww_own ww_lend : WokWord
  ww_copy ww_left ww_right ww_tighter ww_looser ww_than ww_row ww_eff ww_plus : WokWord

pub record WokToken : Type 0 where
  pub off : ℕ
  pub len : ℕ
  pub col : ℕ
  pub kind : WokKind
  pub word : WokWord
  pub first_on_line : Bool
  pub has_escape : Bool

-- `kind == WT_EOF`, and the other kinds that code tests for.
unfoldable pub kind_is_eof : WokKind → Bool
kind_is_eof wt_eof = true
kind_is_eof _ = false

unfoldable pub kind_is_indent : WokKind → Bool
kind_is_indent wt_indent = true
kind_is_indent _ = false

unfoldable pub kind_is_dedent : WokKind → Bool
kind_is_dedent wt_dedent = true
kind_is_dedent _ = false

unfoldable pub kind_is_newline : WokKind → Bool
kind_is_newline wt_newline = true
kind_is_newline _ = false

unfoldable pub kind_is_open_bracket : WokKind → Bool
kind_is_open_bracket wt_lparen = true
kind_is_open_bracket wt_lbracket = true
kind_is_open_bracket wt_lbrace = true
kind_is_open_bracket _ = false

unfoldable pub kind_is_close_bracket : WokKind → Bool
kind_is_close_bracket wt_rparen = true
kind_is_close_bracket wt_rbracket = true
kind_is_close_bracket wt_rbrace = true
kind_is_close_bracket _ = false

-- The inner switch of `wok_token_is_continuation_lead`.
unfoldable pub word_is_continuation_lead : WokWord → Bool
word_is_continuation_lead ww_where = true
word_is_continuation_lead ww_in = true
word_is_continuation_lead ww_then = true
word_is_continuation_lead ww_else = true
word_is_continuation_lead ww_of = true
word_is_continuation_lead ww_as = true
word_is_continuation_lead ww_with = true
word_is_continuation_lead _ = false

unfoldable pub kind_is_continuation_lead : WokKind → WokWord → Bool
kind_is_continuation_lead wt_varsym w = true
kind_is_continuation_lead wt_arrow w = true
kind_is_continuation_lead wt_fatarrow w = true
kind_is_continuation_lead wt_equals w = true
kind_is_continuation_lead wt_colon w = true
kind_is_continuation_lead wt_coloncolon w = true
kind_is_continuation_lead wt_assign w = true
kind_is_continuation_lead wt_bar w = true
kind_is_continuation_lead wt_comma w = true
kind_is_continuation_lead wt_dot w = true
kind_is_continuation_lead wt_dotdot w = true
kind_is_continuation_lead wt_backtick w = true
kind_is_continuation_lead wt_rparen w = true
kind_is_continuation_lead wt_rbracket w = true
kind_is_continuation_lead wt_rbrace w = true
kind_is_continuation_lead wt_keyword w = word_is_continuation_lead w
kind_is_continuation_lead _ w = false

abbrev pub is_continuation_lead : WokToken → Bool
is_continuation_lead t = kind_is_continuation_lead t.kind t.word
