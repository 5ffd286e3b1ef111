-- ===== src/Layout/Check/Passes.antt =====
-- The streams of `wok_layout` pass `wok_layout_check`.
use wokml.Prelude.{
  ℕ, ◌+◌, ◌*◌, ◌≡◌, ◌≤◌, ◌<◌, refl, sym, ap, subst, ◌∙◌, true, false, Option, none, some, List, [],
  ◌∷◌, if◌then◌else◌, length, arith, inl,
}
use mathlib.Core.Option.{some-injective}
use wokml.Token.{WokKind, WokToken, kind_is_eof, kind_is_indent, kind_is_dedent}
use wokml.Diag.{WokDiagSink}
use wokml.Layout.{Filter, top_col, max_depth, out_cap, initial_filter, initial_vars, layout}
use wokml.Layout.Stream.{Stream, finish, plain, newline, indent, dedent, NotDedent, IsScanned}
use wokml.Layout.Run.{Final, no_room, ended, run_cost, layout_loop-Final}
use wokml.Layout.Check.{
  Scan, Verdict, next_is_dedent, initial_scan, fail, pass, check_levels, check_brackets, check_loop,
  ends_at_eof, check_end, layout_check,
}

-- The loop of the checker passes, and every level is closed at the end.
data Closes : Verdict → Type 0 where
  closes : {s : Scan} → s.cols ≡ [] → Closes (pass s)

check_brackets-cols : (s : Scan) (i : ℕ) (t : WokToken) → (check_brackets s i t).cols ≡ s.cols
unfolding check_brackets
check_brackets-cols s i t = ground arith

-- One token is passed with the levels `c` behind it, and the rest of the stream closes them.
check_next :
    (s r : Scan) (i : ℕ) (t : WokToken) (ts : List WokToken)
    → check_levels s i t ts ≡ pass r
    → ((s' : Scan) → s'.cols ≡ r.cols → Closes (check_loop s' (i + 1) ts))
    → Closes (check_loop s i (t ∷ ts))
unfolding check_loop
check_next s r i t ts e next =
    rw (e, check_loop) (next (check_brackets r i t) (check_brackets-cols r i t))

-- What the checker says of one token, by its kind.
module _ (s : Scan) (i : ℕ) (t : WokToken) (ts : List WokToken) where
  levels_other :
      kind_is_indent t.kind ≡ false → kind_is_dedent t.kind ≡ false → check_levels s i t ts ≡ pass s
  unfolding check_levels
  levels_other a b = rw (a, b)

  levels_indent :
      kind_is_indent t.kind ≡ true
      → top_col s.cols < t.col
      → length s.cols + 1 < max_depth
      → next_is_dedent ts ≡ false
      → check_levels s i t ts ≡ pass (record s { cols = t.col ∷ s.cols })
  unfolding check_levels
  levels_indent a b c d = ground arith

  levels_dedent :
      {c : ℕ} {cs : List ℕ}
      → kind_is_indent t.kind ≡ false
      → kind_is_dedent t.kind ≡ true
      → s.cols ≡ c ∷ cs
      → check_levels s i t ts ≡ pass (record s { cols = cs })
  unfolding check_levels
  levels_dedent a b e = rw (a, b) (ground arith)

eof_other :
    (k : WokKind) → kind_is_eof k ≡ true → (kind_is_indent k ≡ false) × (kind_is_dedent k ≡ false)
unfolding kind_is_eof kind_is_indent kind_is_dedent
eof_other k e = ground arith

Closes-end : (s : Scan) (i : ℕ) → s.cols ≡ [] → Closes (check_loop s i [])
unfolding check_loop
Closes-end s i e = closes e

NotDedent-next : (ts : List WokToken) → NotDedent ts → next_is_dedent ts ≡ false
NotDedent-next [] n = refl
NotDedent-next (t ∷ ts) n = n

check_loop-Stream :
    {c : List ℕ} {ts : List WokToken} (s : Scan) (i : ℕ)
    → Stream c ts
    → s.cols ≡ c
    → Closes (check_loop s i ts)
unfolding kind_is_indent kind_is_dedent
check_loop-Stream s i (finish {t} k) e =
    let (a, b) = eof_other t.kind k in
    check_next s s i t [] (levels_other s i t [] a b) (λ s' e'. Closes-end s' (i + 1) (e' ∙ e))
check_loop-Stream s i (plain {t = t} {ts = ts} k st) e =
    check_next s s i t ts (levels_other s i t ts (ground arith) (ground arith))
      (λ s' e'. check_loop-Stream s' (i + 1) st (e' ∙ e))
check_loop-Stream s i (newline {t = t} {ts = ts} k st) e =
    check_next s s i t ts (levels_other s i t ts (rw (k, kind_is_indent)) (rw (k, kind_is_dedent)))
      (λ s' e'. check_loop-Stream s' (i + 1) st (e' ∙ e))
check_loop-Stream s i (indent {t = t} {ts = ts} k lt room n st) e =
    check_next s (record s { cols = t.col ∷ s.cols }) i t ts
      (levels_indent s i t ts (rw (k, kind_is_indent)) (rw e lt) (rw e room) (NotDedent-next ts n))
      (λ s' e'. check_loop-Stream s' (i + 1) st (e' ∙ rw e))
check_loop-Stream s i (dedent {s = cs} {t = t} {ts = ts} k st) e =
    check_next s (record s { cols = cs }) i t ts
      (levels_dedent s i t ts (rw (k, kind_is_indent)) (rw (k, kind_is_dedent)) e)
      (λ s' e'. check_loop-Stream s' (i + 1) st e')

ends-cons :
    (t : WokToken) (ts : List WokToken) → ends_at_eof ts ≡ true → ends_at_eof (t ∷ ts) ≡ true
unfolding ends_at_eof
ends-cons t [] h = cc
ends-cons t (u ∷ ts) h = h

Stream-ends : {c : List ℕ} {ts : List WokToken} → Stream c ts → ends_at_eof ts ≡ true
unfolding ends_at_eof
Stream-ends (finish k) = k
Stream-ends (plain {t = t} {ts = ts} k st) = ends-cons t ts (Stream-ends st)
Stream-ends (newline {t = t} {ts = ts} k st) = ends-cons t ts (Stream-ends st)
Stream-ends (indent {t = t} {ts = ts} k lt room n st) = ends-cons t ts (Stream-ends st)
Stream-ends (dedent {t = t} {ts = ts} k st) = ends-cons t ts (Stream-ends st)

ends-pos : (ts : List WokToken) → ends_at_eof ts ≡ true → 0 < length ts
unfolding ends_at_eof
ends-pos [] h = cc
ends-pos (t ∷ ts) h = omega arith

check_end-Closes : (v : Verdict) → Closes v → check_end false v ≡ none
unfolding check_end
check_end-Closes (pass s) (closes e) = ground (arith, ap length e)
check_end-Closes (fail m) h = elim h [ ]

Stream-layout_check :
    (out : List WokToken) (n : ℕ)
    → Stream [] out
    → length out ≤ out_cap n
    → layout_check out n false ≡ none
unfolding layout_check
Stream-layout_check out n st h =
    let ends = Stream-ends st in
    let pos = ends-pos out ends in
    let end = check_end-Closes _ (check_loop-Stream initial_scan 0 st refl) in
    rw ends (ground arith)

-- The lines, counted by the tokens that open one.
abbrev pub line_count : List WokToken → ℕ
line_count [] = 0
line_count (t ∷ []) = 0
line_count (t ∷ u ∷ ts) = (if t.first_on_line then 1 else 0) + line_count (u ∷ ts)

run_cost-le : (ts : List WokToken) → run_cost ts ≤ length ts + 3 * line_count ts + 1
run_cost-le [] = omega arith
run_cost-le (t ∷ []) = omega arith
run_cost-le (t ∷ u ∷ ts) = ground (arith, run_cost-le (u ∷ ts))

-- The run of `wok_layout` as a whole.
layout-Final :
    (ts : List WokToken) (d : WokDiagSink)
    → IsScanned ts
    → Final (run_cost ts) (initial_filter (out_cap (length ts)) d) (layout ts d)
unfolding layout
layout-Final ts d i =
    layout_loop-Final ts (initial_filter (out_cap (length ts)) d) initial_vars i (inl refl) tt

module _ (n k : ℕ) (d : WokDiagSink) where
  ended-layout_check :
      {r : Option Filter} {g : Filter}
      → Final k (initial_filter (out_cap n) d) r
      → r ≡ some g
      → layout_check g.out n false ≡ none
  ended-layout_check (no_room h) e = cc
  ended-layout_check (ended {g = f} {added} o st m c cap) e =
      subst (λ (h : Filter). layout_check h.out n false ≡ none) (some-injective _ _ e)
        (Stream-layout_check f.out n (subst (Stream []) (sym o) st) (omega arith))

  room-some :
      {r : Option Filter}
      → Final k (initial_filter (out_cap n) d) r
      → k ≤ out_cap n
      → (g : Filter) × (r ≡ some g) × (layout_check g.out n false ≡ none)
  room-some (no_room h) le = absurd (omega arith)
  room-some (ended {g = g} {added = added} o st m c cap) le =
      (g, refl, ended-layout_check (ended {g = g} {added = added} o st m c cap) refl)

-- Every stream that `wok_layout` delivers for scanned tokens passes `wok_layout_check`.
pub layout-layout_check :
    (ts : List WokToken) (d : WokDiagSink) {g : Filter}
    → IsScanned ts
    → layout ts d ≡ some g
    → layout_check g.out (length ts) false ≡ none
layout-layout_check ts d i e =
    ended-layout_check (length ts) (run_cost ts) d (layout-Final ts d i) e

-- `wok_layout` delivers a stream, and reaches no `WOK_UNREACHABLE`, for scanned tokens of which at
-- most two in three, and 23 more, open a line; and that stream passes `wok_layout_check`.
pub layout-some :
    (ts : List WokToken) (d : WokDiagSink)
    → IsScanned ts
    → 3 * line_count ts ≤ 2 * length ts + 71
    → (g : Filter) × (layout ts d ≡ some g) × (layout_check g.out (length ts) false ≡ none)
layout-some ts d i h =
    room-some (length ts) (run_cost ts) d (layout-Final ts d i) (omega (arith, run_cost-le ts))
