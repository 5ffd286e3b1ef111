-- ===== src/Layout/Overflow.antt =====
-- The output buffer of `wok_layout` against inputs whose lines are short.
use wokml.Prelude.{
  ℕ, zero, suc, ◌+◌, ◌*◌, ◌≡◌, ◌≤◌, ◌<◌, refl, sym, ap, false, Option, none, some, List, [], ◌∷◌,
  length, subst, ◌∙◌, ◌>>=◌, arith,
}
use wokml.Token.{
  kind_is_eof, kind_is_continuation_lead, kind_is_open_bracket, kind_is_close_bracket, WokToken,
  wt_newline,
}
use wokml.Diag.{WokDiagSink}
use wokml.Layout.{
  layout, initial_filter, initial_vars, out_cap, Filter, Vars, top_col, one_token, before_token,
  at_line_start, abandon, outside, line_start, by_column, layout_loop, at_eof, report_open, pop_to,
  pop_loop, put, put_token, track_brackets,
}
use wokml.Layout.Exact.{
  Exact, fails, adds, Exact-bind, put_token-Exact, put-Exact, by_column-deeper, pop_loop-Exact,
  by_column-close, name_at, eof_at, nests,
}

-- A run with no bracket open, behind its first line.
abbrev plain_vars : Vars
plain_vars = record { bracket = 0; block_col = 0; opener = none; first_logical = false }

-- The steps of such a line, one behind the other; `r` is what its column leaves.
module _ (off c : ℕ) (ts : List WokToken) where
  behind_name :
      (r : Option Filter)
      → (r >>= (λ h. some (h, plain_vars)) >>= (λ (h, w). layout_loop ts h w))
        ≡ (r >>= λ h. layout_loop ts h plain_vars)
  behind_name none = refl
  behind_name (some h) = refl

  behind_column :
      (r : Option Filter)
      → (r
          >>= (λ g. some (g, plain_vars))
          >>= (λ (g, w).
              put_token g (name_at off c) >>= λ h. some (h, track_brackets g w (name_at off c)))
          >>= (λ (h, w). layout_loop ts h w))
        ≡ (r >>= (λ g. put_token g (name_at off c)) >>= (λ h. layout_loop ts h plain_vars))
  unfolding track_brackets kind_is_open_bracket kind_is_close_bracket
  behind_column none = refl
  behind_column (some g) = behind_name (put_token g (name_at off c))

  line_binds :
      (f : Filter)
      → layout_loop (name_at off c ∷ ts) f plain_vars ≡ (
          put f wt_newline (name_at off c)
          >>= (λ g. by_column g (name_at off c))
          >>= (λ g. put_token g (name_at off c))
          >>= (λ h. layout_loop ts h plain_vars))
  unfolding layout_loop one_token before_token at_line_start abandon outside line_start
      kind_is_continuation_lead kind_is_eof
  line_binds f =
      behind_column (put f wt_newline (name_at off c) >>= λ g. by_column g (name_at off c))

  first_binds :
      (f : Filter)
      → layout_loop (name_at off c ∷ ts) f initial_vars ≡ (
          by_column f (name_at off c)
          >>= (λ g. put_token g (name_at off c))
          >>= (λ h. layout_loop ts h plain_vars))
  unfolding layout_loop one_token before_token at_line_start abandon outside line_start
      kind_is_continuation_lead kind_is_eof
  first_binds f = behind_column (by_column f (name_at off c))

-- A whole line, by what its column does: NEWLINE, the levels, and the name.
one_line :
    (f : Filter) (off c n : ℕ) {s : List ℕ}
    → ((g : Filter)
        → g.stack ≡ f.stack
        → length g.out ≤ g.cap
        → Exact n s g (by_column g (name_at off c)))
    → (ts : List WokToken) (m : ℕ)
    → ((h : Filter)
        → h.stack ≡ s
        → length h.out ≤ h.cap
        → Exact m [] h (layout_loop ts h plain_vars))
    → Exact (1 + n + 1 + m) [] f (layout_loop (name_at off c ∷ ts) f plain_vars)
one_line f off c n col ts m next = rw (line_binds off c ts f) (
    Exact-bind (1 + n + 1) m
      (Exact-bind (1 + n) 1 (Exact-bind 1 n (put-Exact f wt_newline (name_at off c)) col) (λ g e l.
        subst (λ s. Exact 1 s g (put_token g (name_at off c))) e
          (put_token-Exact g (name_at off c))))
      next)

Exact-size :
    {n m : ℕ} {s : List ℕ} {f : Filter} {r : Option Filter} → n ≡ m → Exact n s f r → Exact m s f r
Exact-size {s} {f} {r} e x = subst (λ k. Exact k s f r) e x

abbrev deep_stack : List ℕ
deep_stack = 4 ∷ 3 ∷ 2 ∷ []

-- The end of the file closes every level.
at_eof-Exact :
    (f : Filter) (off : ℕ) → f.stack ≡ deep_stack → Exact 5 [] f (at_eof f plain_vars (eof_at off))
unfolding at_eof report_open pop_to
at_eof-Exact f off e = Exact-bind 1 4 (put-Exact f wt_newline (eof_at off)) (λ h k l.
    let s : h.stack ≡ deep_stack = k ∙ e in
    Exact-bind 3 1
      (subst (λ x. Exact 3 [] h (pop_loop x h 0 (eof_at off))) (sym s)
        (pop_loop-Exact deep_stack h 0 (eof_at off) (omega arith) l))
      (λ g z m.
        subst (λ x. Exact 1 x g (put_token g (eof_at off))) z (put_token-Exact g (eof_at off))))

-- A line one level deeper than the `c` levels so far.
deeper_line :
    (f : Filter) (off c : ℕ) (s : List ℕ)
    → f.stack ≡ s
    → top_col s < c
    → length s < 63
    → (ts : List WokToken) (m : ℕ)
    → ((h : Filter) → h.stack ≡ c ∷ s → Exact m [] h (layout_loop ts h plain_vars))
    → Exact (3 + m) [] f (layout_loop (name_at off c ∷ ts) f plain_vars)
deeper_line f off c s e lt room ts m next =
    one_line f off c 1 {s = c ∷ s}
      (λ g k l.
        let z : g.stack ≡ s = k ∙ e in
        subst (λ x. Exact 1 (c ∷ x) g (by_column g (name_at off c))) z
          (by_column-deeper g (name_at off c) (rw z lt) (rw z (omega arith))))
      ts m (λ h k l. next h k)

-- Three deeper lines, at columns 2, 3 and 4.
nested_lines :
    (f : Filter) (base : ℕ) (ts : List WokToken) (m : ℕ)
    → f.stack ≡ []
    → ((h : Filter) → h.stack ≡ deep_stack → Exact m [] h (layout_loop ts h plain_vars))
    → Exact (9 + m) [] f (
        layout_loop
          (name_at (base + 3) 2 ∷ name_at (base + 7) 3 ∷ name_at (base + 12) 4 ∷ ts)
          f
          plain_vars)
nested_lines f base ts m e next = Exact-size (omega arith) (
    deeper_line f (base + 3) 2 [] e (omega arith) (omega arith) _ (3 + (3 + m)) (λ g k.
      deeper_line g (base + 7) 3 (2 ∷ []) k (omega arith) (omega arith) _ (3 + m)
        (λ h l. deeper_line h (base + 12) 4 (3 ∷ 2 ∷ []) l (omega arith) (omega arith) ts m next)))

nests_zero :
    (f : Filter) (base : ℕ)
    → f.stack ≡ deep_stack
    → Exact 5 [] f (layout_loop (nests base 0) f plain_vars)
unfolding layout_loop kind_is_eof
nests_zero f base e = at_eof-Exact f base e

nests-Exact :
    (k base : ℕ) (f : Filter)
    → f.stack ≡ deep_stack
    → Exact (14 * k + 5) [] f (layout_loop (nests base k) f plain_vars)
nests-Exact zero base f e = nests_zero f base e
nests-Exact (suc k) base f e = Exact-size (omega arith) (
    one_line f base 1 3 {s = []}
      (λ g q l.
        let z : g.stack ≡ deep_stack = q ∙ e in
        subst (λ n. Exact n [] g (by_column g (name_at base 1))) (ap length z)
          (by_column-close g base (λ n. ground arith) (rw z (omega arith)) l))
      (name_at (base + 3) 2 ∷ name_at (base + 7) 3 ∷ name_at (base + 12) 4 ∷ nests (base + 14) k)
      (9 + (14 * k + 5))
      (λ h q l.
        nested_lines h base (nests (base + 14) k) (14 * k + 5) q (nests-Exact k (base + 14))))

by_column-level : (f : Filter) (base : ℕ) → f.stack ≡ [] → by_column f (name_at base 1) ≡ some f
unfolding by_column
by_column-level f base e = rw e refl

-- The first line has no NEWLINE in front, and no level to close.
first_line :
    (f : Filter) (base : ℕ) (ts : List WokToken) (m : ℕ)
    → f.stack ≡ []
    → ((h : Filter) → h.stack ≡ [] → Exact m [] h (layout_loop ts h plain_vars))
    → Exact (1 + m) [] f (layout_loop (name_at base 1 ∷ ts) f initial_vars)
first_line f base ts m e next =
    rw (first_binds base 1 ts f, by_column-level f base e)
      (Exact-bind 1 m
        (subst (λ x. Exact 1 x f (put_token f (name_at base 1))) e
          (put_token-Exact f (name_at base 1)))
        (λ h q l. next h q))

-- The output that an unbounded buffer would have to hold.
layout-nests-Exact :
    (k base : ℕ) (d : WokDiagSink)
    → Exact
        (14 * k + 15)
        []
        (initial_filter (out_cap (length (nests base (suc k)))) d)
        (layout (nests base (suc k)) d)
unfolding layout
layout-nests-Exact k base d =
    let f = initial_filter (out_cap (length (nests base (suc k)))) d in
    Exact-size (omega arith) (
      first_line f base
        (name_at (base + 3) 2 ∷ name_at (base + 7) 3 ∷ name_at (base + 12) 4 ∷ nests (base + 14) k)
        (9 + (14 * k + 5)) refl
        (λ h q.
          nested_lines h base (nests (base + 14) k) (14 * k + 5) q (nests-Exact k (base + 14))))

length-nests : (k base : ℕ) → length (nests base k) ≡ 4 * k + 1
length-nests zero base = refl
length-nests (suc k) base = omega (arith, length-nests k (base + 14))

-- `wok_layout` reaches `WOK_UNREACHABLE` in `put`, for want of room in its output buffer, on the tokens of
-- four lines of one name each, with no, one, two and three spaces in front, repeated 38 times or more
-- from any byte on: the stream has 14 tokens for each four, and the buffer 12.
pub layout-overflow : (k base : ℕ) (d : WokDiagSink) → 38 ≤ k → layout (nests base k) d ≡ none
layout-overflow zero base d h = absurd (omega arith)
layout-overflow (suc k) base d h = only_none (layout-nests-Exact k base d)
  where
    only_none :
        {r : Option Filter}
        → Exact (14 * k + 15) [] (initial_filter (out_cap (length (nests base (suc k)))) d) r
        → r ≡ none
    only_none fails = refl
    only_none (adds o e c l) = absurd (omega (arith, length-nests (suc k) base))
