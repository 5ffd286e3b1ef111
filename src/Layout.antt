-- ===== src/Layout.antt =====
-- grammar/c/wok_layout.c: the layout filter `wok_layout` and the checker `wok_layout_check`.
-- The stack is the list of its pushed columns, the top first; `stack[0]` is always 1. `none` is
-- `WOK_UNREACHABLE`, which `put` reaches when the output buffer is full.
pub mod Stream
pub mod Outcome
pub mod Steps
pub mod Line
pub mod Run
pub mod Check
pub mod Exact
pub mod Overflow
mod Tests
use wokml.Prelude.{
  ℕ, suc, ◌+◌, ◌-◌, ◌*◌, Bool, true, false, not, ◌&&◌, Option, none, some, List, [], ◌∷◌, ◌++◌, ltb,
  leb, ◌==◌, if◌then◌else◌, length, ◌>>=◌,
}
use wokml.Token.{
  WokKind, WokWord, WokToken, wt_eof, wt_newline, wt_indent, wt_dedent, ww_none, kind_is_eof,
  kind_is_indent, kind_is_dedent, kind_is_newline, kind_is_open_bracket, kind_is_close_bracket,
  is_continuation_lead,
}
use wokml.Diag.{WokDiagSink, Message, message, e_lay_bracket, e_lay_depth, e_lay_dedent, diag_add}

abbrev pub max_depth : ℕ
max_depth = 64

pub record Filter : Type 0 where
  pub out : List WokToken
  pub cap : ℕ
  pub stack : List ℕ
  pub diag : WokDiagSink

-- `f.stack[f.top]`
abbrev pub top_col : List ℕ → ℕ
top_col [] = 1
top_col (c ∷ s) = c

abbrev pub layout_token : WokKind → WokToken → WokToken
layout_token k at = record {
  off = at.off;
  len = 0;
  col = at.col;
  kind = k;
  word = ww_none;
  first_on_line = false;
  has_escape = false;
}

pub put_token : Filter → WokToken → Option Filter
put_token f t = if leb f.cap (length f.out) then none else some (record f { out = f.out ++ t ∷ [] })

pub put : Filter → WokKind → WokToken → Option Filter
put f k at = put_token f (layout_token k at)

-- The loop of `pop_to`, over the stack.
pub pop_loop : List ℕ → Filter → ℕ → WokToken → Option Filter
pop_loop [] f c at = some (record f { stack = [] })
pop_loop (d ∷ s) f c at =
    let rest = (do g ← put (record f { stack = s }) wt_dedent at; pop_loop s g c at) in
    if ltb c d then rest else some (record f { stack = d ∷ s })

pub pop_to : Filter → ℕ → WokToken → Option Filter
pop_to f c at = pop_loop f.stack f c at

abbrev pub report_in : Filter → WokDiagSink → Filter
report_in f d = record f { diag = d }

-- `f.stack[++f.top] = c; put(&f, WT_INDENT, t);`
abbrev pub push_indent : Filter → WokToken → Option Filter
push_indent f t = put (record f { stack = t.col ∷ f.stack }) wt_indent t

-- L3, deeper: a new level, unless the stack is full.
pub deeper : Filter → WokToken → Option Filter
deeper f t =
    if leb max_depth (length f.stack + 1)
    then some (
        report_in f (
          diag_add f.diag e_lay_depth t.off t.len
            (message "indentation nested deeper than %d levels" (max_depth ∷ []))))
    else push_indent f t

-- L6: the column matches no open level.
pub repair : Filter → WokToken → Option Filter
repair f t =
    let d = diag_add f.diag e_lay_dedent t.off t.len (
      message
        "this line starts at column %u, which matches no open indentation level (nearest is %u)"
        (t.col ∷ top_col f.stack ∷ [])) in
    let g = report_in f d in if ltb (length g.stack + 1) max_depth then push_indent g t else some g

-- L3, shallower.
pub shallower : Filter → WokToken → Option Filter
shallower f t = do
  g ← pop_to f t.col t
  if not (top_col g.stack == t.col) then repair g t else some g

pub by_column : Filter → WokToken → Option Filter
by_column f t =
    if ltb (top_col f.stack) t.col
    then deeper f t
    else if ltb t.col (top_col f.stack)
    then shallower f t
    else some f

-- A line start outside brackets. The flag is `first_logical`.
pub line_start : Bool → Filter → WokToken → Option Filter
line_start first f t =
    if is_continuation_lead t
    then pop_to f t.col t
    else do g ← if first then some f else put f wt_newline t; by_column g t

-- The variables of the loop: `bracket`, `bracket_block_col`, `bracket_open` and `first_logical`.
pub record Vars : Type 0 where
  pub bracket : ℕ
  pub block_col : ℕ
  pub opener : Option WokToken
  pub first_logical : Bool

-- L7. A null `bracket_open` would be read here, which is a fault.
pub abandon : Filter → Vars → WokToken → Option (Filter × Vars)
abandon f v t =
    if ltb 0 v.bracket && not (is_continuation_lead t) && leb t.col v.block_col
    then elim v.opener [
      | none ↦ none
      | some o ↦ some (
        report_in f (
            diag_add f.diag e_lay_bracket o.off 1 (
              message "unclosed bracket; a new item begins at column %u, which cannot be inside it"
                (t.col ∷ []))),
        record v { bracket = 0; opener = none },
      )
    ]
    else some (f, v)

pub outside : Filter → Vars → WokToken → Option (Filter × Vars)
outside f v t =
    if v.bracket == 0
    then (do g ← line_start v.first_logical f t; some (g, record v { first_logical = false }))
    else some (f, v)

-- A token that opens its line.
pub at_line_start : Filter → Vars → WokToken → Option (Filter × Vars)
at_line_start f v t = do (g, w) ← abandon f v t; outside g w t

pub track_brackets : Filter → Vars → WokToken → Vars
track_brackets f v t =
    if kind_is_open_bracket t.kind
    then record v {
      bracket = v.bracket + 1;
      block_col = (if v.bracket == 0 then top_col f.stack else v.block_col);
      opener = (if v.bracket == 0 then some t else v.opener);
    }
    else if kind_is_close_bracket t.kind && ltb 0 v.bracket
    then record v {
      bracket = v.bracket - 1;
      opener = (if v.bracket - 1 == 0 then none else v.opener);
    }
    else v

-- A bracket that is still open at the end.
pub report_open : Filter → Vars → Option WokToken → Filter
report_open f v none = f
report_open f v (some o) =
    if ltb 0 v.bracket
    then report_in f (
        diag_add f.diag e_lay_bracket o.off 1
          (message "unclosed bracket; it is still open at end of file" []))
    else f

-- The end of the stream: L8.
pub at_eof : Filter → Vars → WokToken → Option Filter
at_eof f v t = do
  let g = report_open f v v.opener
  h ← if v.first_logical then some g else put g wt_newline t
  k ← pop_to h 0 t
  put_token k t

-- The flag is WOK_TF_FIRST_ON_LINE.
pub before_token : Bool → Filter → Vars → WokToken → Option (Filter × Vars)
before_token true f v t = at_line_start f v t
before_token false f v t = some (f, v)

-- One token that is not the end.
pub one_token : Filter → Vars → WokToken → Option (Filter × Vars)
one_token f v t = do
  (g, w) ← before_token t.first_on_line f v t
  h ← put_token g t
  some (h, track_brackets g w t)

pub layout_loop : List WokToken → Filter → Vars → Option Filter
layout_loop [] f v = some f
layout_loop (t ∷ ts) f v =
    if kind_is_eof t.kind then at_eof f v t else do (g, w) ← one_token f v t; layout_loop ts g w

abbrev pub initial_filter : (cap : ℕ) → WokDiagSink → Filter
initial_filter cap d = record { out = []; cap = cap; stack = []; diag = d }

abbrev pub initial_vars : Vars
initial_vars = record { bracket = 0; block_col = 0; opener = none; first_logical = true }

-- `f.cap` as `wok_layout` computes it for an input of `n` tokens.
abbrev pub out_cap : ℕ → ℕ
out_cap n = n * 3 + max_depth + 8

pub layout : List WokToken → WokDiagSink → Option Filter
layout ts d = layout_loop ts (initial_filter (out_cap (length ts)) d) initial_vars
