-- ===== src/Diag.antt =====
-- grammar/c/wok_diag.c: the diagnostic sink. Arrays that the arena holds are lists; a message is
-- its format string with the numbers that `vsnprintf` puts into it.
pub mod Position
pub mod Cap
mod Tests
use Prim.Native.String.{String}
use wokml.Prelude.{
  ℕ, ◌*◌, Bool, true, false, ◌&&◌, Option, none, List, [], ◌∷◌, ◌++◌, ltb, leb, ◌==◌, if◌then◌else◌,
  length,
}

pub data WokDiagCode : Type 0 where
  e_lex_stray e_lex_tab e_lex_unterminated e_lex_int_range e_lex_utf8 e_lex_semi : WokDiagCode
  e_lay_dedent e_lay_depth e_lay_bracket e_lay_indent e_lay_expected_block : WokDiagCode
  e_parse e_depth e_handle_label e_arity e_migrate e_reserved e_duplicate : WokDiagCode
  e_fixity e_varscope e_too_many : WokDiagCode

pub record Message : Type 0 where
  pub format : String
  pub args : List ℕ

abbrev pub message : String → List ℕ → Message
message f xs = record { format = f; args = xs }

pub record WokDiag : Type 0 where
  pub code : WokDiagCode
  pub off : ℕ
  pub len : ℕ
  pub msg : Message

abbrev pub diag_cap : ℕ
diag_cap = 20

-- `src` is the list of its bytes; `line_starts` is `none` until it is first used.
pub record WokDiagSink : Type 0 where
  pub src : List ℕ
  pub diags : List WokDiag
  pub capacity : ℕ
  pub has_last_off : Bool
  pub last_off : ℕ
  pub too_many_emitted : Bool
  pub line_starts : Option (List ℕ)

abbrev pub diag_new : List ℕ → WokDiagSink
diag_new src = record {
  src = src;
  diags = [];
  capacity = 0;
  has_last_off = false;
  last_off = 0;
  too_many_emitted = false;
  line_starts = none;
}

abbrev pub diag_count : WokDiagSink → ℕ
diag_count s = length s.diags

abbrev pub diag_full : WokDiagSink → Bool
diag_full s = s.too_many_emitted

pub diag_grow : WokDiagSink → WokDiagSink
diag_grow s =
    if ltb (diag_count s) s.capacity
    then s
    else record s { capacity = (if s.capacity == 0 then 4 else s.capacity * 2) }

pub diag_append : WokDiagSink → WokDiagCode → (off len : ℕ) → Message → WokDiagSink
unfolding diag_grow
diag_append s code off len msg =
    let g = diag_grow s in
    record g {
      diags = g.diags ++ record { code = code; off = off; len = len; msg = msg } ∷ [];
      has_last_off = true;
      last_off = off;
    }

pub diag_add : WokDiagSink → WokDiagCode → (off len : ℕ) → Message → WokDiagSink
unfolding diag_append
diag_add s code off len msg =
    if s.too_many_emitted
    then s
    else if leb diag_cap (diag_count s)
    then diag_append (record s { too_many_emitted = true }) e_too_many off 0
        (message "too many errors; stopping here" [])
    else if s.has_last_off && off == s.last_off
    then s
    else diag_append s code off len msg
