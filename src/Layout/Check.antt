-- ===== src/Layout/Check.antt =====
-- grammar/c/wok_layout.c: `wok_layout_check`, which returns the message that it would print, or
-- `none` where the stream is well formed.
pub mod Passes
use wokml.Prelude.{
  ℕ, ◌+◌, ◌-◌, ◌*◌, ◌≡◌, ◌≤◌, refl, Bool, true, false, not, ◌&&◌, ◌||◌, Option, none, some, List,
  [], ◌∷◌, ltb, leb, ◌==◌, if◌then◌else◌, length, arith, Bool-cases, inl, inr,
}
use wokml.Token.{
  WokToken, wt_indent, wt_dedent, wt_newline, kind_is_eof, kind_is_indent, kind_is_dedent,
  kind_is_newline, kind_is_open_bracket, kind_is_close_bracket,
}
use wokml.Diag.{Message, message}
use wokml.Layout.{top_col, max_depth, out_cap}
use wokml.Layout.Stream.{Stream, finish, plain, newline, indent, dedent, NotDedent}

-- `cols[1..depth]`, the innermost first, and the variables about brackets; `inside` is
-- `layout_inside_brackets`.
pub record Scan : Type 0 where
  pub cols : List ℕ
  pub bracket : ℕ
  pub balanced : Bool
  pub inside : Option ℕ

pub data Verdict : Type 0 where
  fail : Message → Verdict
  pass : Scan → Verdict

abbrev pub next_is_dedent : List WokToken → Bool
next_is_dedent [] = false
next_is_dedent (t ∷ ts) = kind_is_dedent t.kind

-- INDENT and DEDENT: invariants 1, 2 and 3, at position `i` with `rest` behind the token.
pub check_levels : Scan → (i : ℕ) → WokToken → (rest : List WokToken) → Verdict
check_levels s i t rest =
    if kind_is_indent t.kind
    then if ltb max_depth (length s.cols + 1)
      then fail (message "invariant 1: depth overflow" [])
      else if leb t.col (top_col s.cols)
      then fail (
          message "invariant 2: INDENT at column %u does not exceed enclosing %u"
            (t.col ∷ top_col s.cols ∷ []))
      else if next_is_dedent rest
      then fail (message "invariant 3: INDENT immediately followed by DEDENT at %zu" (i ∷ []))
      else pass (record s { cols = t.col ∷ s.cols })
    else if kind_is_dedent t.kind
    then elim s.cols [
      | [] ↦ fail (message "invariant 1: DEDENT with no matching INDENT at %zu" (i ∷ []))
      | c ∷ cs ↦ pass (record s { cols = cs })
    ]
    else pass s

-- `layout_inside_brackets` and the bracket count, for invariant 4.
pub check_brackets : Scan → (i : ℕ) → WokToken → Scan
check_brackets s i t =
    let layout = kind_is_indent t.kind || kind_is_dedent t.kind || kind_is_newline t.kind in
    let inside =
      if ltb 0 s.bracket && layout
      then elim s.inside [ none ↦ some i | some j ↦ some j ]
      else s.inside in
    if kind_is_open_bracket t.kind
    then record s { inside = inside; bracket = s.bracket + 1 }
    else if kind_is_close_bracket t.kind
    then if s.bracket == 0
      then record s { inside = inside; balanced = false }
      else record s { inside = inside; bracket = s.bracket - 1 }
    else record s { inside = inside }

pub check_loop : Scan → (i : ℕ) → List WokToken → Verdict
check_loop s i [] = pass s
check_loop s i (t ∷ ts) = elim (check_levels s i t ts) [
  | fail m ↦ fail m
  | pass r ↦ check_loop (check_brackets r i t) (i + 1) ts
]

pub ends_at_eof : List WokToken → Bool
ends_at_eof [] = false
ends_at_eof (t ∷ []) = kind_is_eof t.kind
ends_at_eof (t ∷ u ∷ ts) = ends_at_eof (u ∷ ts)

-- Behind the loop.
pub check_end : (strict : Bool) → Verdict → Option Message
check_end strict (fail m) = some m
check_end strict (pass s) =
    let balanced = s.balanced && s.bracket == 0 in
    if not (length s.cols == 0)
    then some (message "invariant 1: %u INDENT(s) never closed" (length s.cols ∷ []))
    else elim s.inside [
      | none ↦ none
      | some i ↦
          if strict && balanced
          then some (message "invariant 4: layout token inside a bracket group at %zu" (i ∷ []))
          else none
    ]

abbrev pub initial_scan : Scan
initial_scan = record { cols = []; bracket = 0; balanced = true; inside = none }

pub layout_check : List WokToken → (input_n : ℕ) → (strict : Bool) → Option Message
layout_check out n strict =
    if length out == 0
    then some (message "empty output stream" [])
    else if not (ends_at_eof out)
    then some (message "stream does not end at WT_EOF" [])
    else if ltb (out_cap n) (length out)
    then some
        (message "invariant 5: output %zu exceeds the bound for input %zu" (length out ∷ n ∷ []))
    else check_end strict (check_loop initial_scan 0 out)
