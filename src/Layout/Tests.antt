-- ===== src/Layout/Tests.antt =====
-- Runs of the layout filter and its checker, and the theorems at concrete streams.
use wokml.Prelude.{
  ◌*◌, ◌+◌, ◌≡◌, ◌≤◌, refl, Option, none, some, List, [], ◌∷◌, length, map, arith, false,
}
use wokml.Token.{
  WokKind, WokToken, wt_newline, wt_indent, wt_dedent, wt_varid, wt_eof, kind_is_eof,
  kind_is_indent, kind_is_dedent, kind_is_newline, kind_is_open_bracket, kind_is_close_bracket,
  kind_is_continuation_lead,
}
use wokml.Diag.{WokDiagSink, diag_new}
use wokml.Layout.{
  Filter, layout, layout_loop, one_token, before_token, at_line_start, abandon, outside, line_start,
  by_column, deeper, shallower, repair, pop_to, pop_loop, put, put_token, track_brackets, at_eof,
  report_open,
}
use wokml.Layout.Stream.{IsScanned}
use wokml.Layout.Check.{layout_check}
use wokml.Layout.Check.Passes.{line_count, layout-some, layout-layout_check}
use wokml.Layout.Exact.{name_at, eof_at, nests}
use wokml.Layout.Overflow.{layout-overflow}

abbrev kinds : Option Filter → List WokKind
kinds none = []
kinds (some f) = map (λ (t : WokToken). t.kind) f.out

abbrev sink : WokDiagSink
sink = diag_new []

-- Three lines at columns 1, 3 and 2: the last one matches no open level.
abbrev ragged : List WokToken
ragged = name_at 0 1 ∷ name_at 4 3 ∷ name_at 7 2 ∷ eof_at 9 ∷ []

ragged-kinds :
    kinds (layout ragged sink)
    ≡ wt_varid ∷ wt_newline ∷ wt_indent ∷ wt_varid ∷ wt_newline ∷ wt_dedent ∷ wt_indent ∷ wt_varid
      ∷ wt_newline ∷ wt_dedent ∷ wt_eof ∷ []
unfolding layout layout_loop one_token before_token at_line_start abandon outside line_start
    by_column deeper shallower repair pop_to pop_loop put put_token track_brackets at_eof
    report_open kind_is_eof kind_is_open_bracket kind_is_close_bracket kind_is_continuation_lead
ragged-kinds = refl

ragged-IsScanned : IsScanned ragged
unfolding kind_is_eof kind_is_indent kind_is_dedent kind_is_newline
ragged-IsScanned = (refl, omega arith, (refl, omega arith, (refl, omega arith, refl)))

ragged_lines : 3 * line_count ragged ≤ 2 * length ragged + 71
ragged_lines = omega arith

layout-some_example :
    (g : Filter) × (layout ragged sink ≡ some g) × (layout_check g.out 4 false ≡ none)
layout-some_example = layout-some ragged sink ragged-IsScanned ragged_lines

abbrev ragged_out : Filter
ragged_out = (layout-some ragged sink ragged-IsScanned ragged_lines).0

layout-layout_check_example : layout_check ragged_out.out 4 false ≡ none
layout-layout_check_example =
    layout-layout_check ragged sink ragged-IsScanned
      (layout-some ragged sink ragged-IsScanned ragged_lines).1

layout-overflow_example : layout (nests 0 40) sink ≡ none
layout-overflow_example = layout-overflow 40 0 sink (omega arith)
