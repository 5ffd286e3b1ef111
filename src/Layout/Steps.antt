-- ===== src/Layout/Steps.antt =====
-- The operations of the filter, one by one.
use wokml.Prelude.{
  ℕ, ◌+◌, ◌≡◌, ◌≤◌, ◌<◌, refl, sym, ap, ◌∙◌, Bool, true, false, some, List, [], ◌∷◌, ltb, leb,
  subst, ◌>>=◌, >>=-eq-some, ◌==◌, if◌then◌else◌, length, length-append, arith, Bool-cases, inl,
  inr,
}
use wokml.Token.{WokKind, WokToken, wt_newline, wt_indent, wt_dedent, is_continuation_lead}
use wokml.Layout.{
  Filter, top_col, max_depth, layout_token, put_token, put, pop_loop, pop_to, push_indent,
  report_in, deeper, repair, shallower, by_column, line_start,
}
use wokml.Layout.Stream.{Stream, newline, indent, dedent, plain, NotDedent, is_plain}
use wokml.Layout.Outcome.{
  StackIsPos, Anything, Follows, Outcome, full, went, Outcome-weaken, Outcome-bind, Follows-same,
  Follows-weaken, Outcome-report, Outcome-le,
}

-- A put of `t` with the stack already changed from `s` to that of `f`.
put_lem :
    {Next : List WokToken → Type 0} (k : ℕ) (s : List ℕ) (f : Filter) (t : WokToken)
    → ((ts : List WokToken) → Stream f.stack ts → Next ts → Stream s (t ∷ ts))
    → (StackIsPos s → StackIsPos f.stack)
    → length f.stack + 1 ≡ length s + k
    → Outcome Next k (record f { stack = s }) (put_token f t)
unfolding put_token
put_lem k s f t leads pos len = elim (Bool-cases (leb f.cap (length f.out))) [
  | inl e ↦ rw e (full (ground arith))
  | inr e ↦ rw e (
      went (record { added = t ∷ []; out = refl; leads = leads; cap = refl; pos = pos })
        (omega (arith, length-append f.out (t ∷ []))))
]

pub put_newline : (f : Filter) (t : WokToken) → Outcome Anything 1 f (put f wt_newline t)
unfolding put
put_newline f t =
    put_lem 1 f.stack f (layout_token wt_newline t) (λ ts h n. newline refl h) (λ p. p) refl

pub put_plain :
    (f : Filter) (t : WokToken) → is_plain t.kind ≡ true → Outcome Anything 1 f (put_token f t)
put_plain f t e = put_lem 1 f.stack f t (λ ts h n. plain e h) (λ p. p) refl

put_dedent :
    (d : ℕ) (s : List ℕ) (f : Filter) (t : WokToken)
    → Outcome Anything 0 (record f { stack = d ∷ s }) (put (record f { stack = s }) wt_dedent t)
unfolding put
put_dedent d s f t =
    put_lem 0 (d ∷ s) (record f { stack = s }) (layout_token wt_dedent t) (λ ts h n. dedent refl h)
      (λ p. p.1) (omega arith)

push_indent_lem :
    (f : Filter) (t : WokToken)
    → top_col f.stack < t.col
    → length f.stack + 1 < max_depth
    → Outcome NotDedent 2 f (push_indent f t)
unfolding put
push_indent_lem f t lt room =
    put_lem 2 f.stack (record f { stack = t.col ∷ f.stack }) (layout_token wt_indent t)
      (λ ts h n. indent refl lt room n h) (λ p. (omega arith, p)) (omega arith)

Follows-refl : (f : Filter) → Follows Anything f f
Follows-refl f = Follows-same f f refl refl refl

pub put-stack :
    (f : Filter) (k : WokKind) (t : WokToken) {g : Filter} → put f k t ≡ some g → g.stack ≡ f.stack
unfolding put put_token
put-stack f k t e = ground arith

pop_loop-Outcome :
    (s : List ℕ) (f : Filter) (c : ℕ) (t : WokToken)
    → f.stack ≡ s
    → Outcome Anything 0 f (pop_loop s f c t)
unfolding pop_loop
pop_loop-Outcome [] f c t e =
    went (Follows-same f (record f { stack = [] }) refl (sym e) refl) (rw e (omega arith))
pop_loop-Outcome (d ∷ s) f c t e = elim (Bool-cases (ltb c d)) [
  | inl deep ↦ rw deep (
      Outcome-bind 0 0
        (subst
          (λ x.
            Outcome Anything 0 (record f { stack = x }) (put (record f { stack = s }) wt_dedent t))
          (sym e) (put_dedent d s f t))
        (λ g p a. pop_loop-Outcome s g c t (put-stack (record f { stack = s }) wt_dedent t p)))
  | inr level ↦ rw level (
      went (Follows-same f (record f { stack = d ∷ s }) refl (sym e) refl)
        (omega (arith, ap length e)))
]

pub pop_to-Outcome : (f : Filter) (c : ℕ) (t : WokToken) → Outcome Anything 0 f (pop_to f c t)
unfolding pop_to
pop_to-Outcome f c t = pop_loop-Outcome f.stack f c t refl

-- A level deeper than the column is popped.
module _ (d : ℕ) (s : List ℕ) (f : Filter) (c : ℕ) (t : WokToken) {g : Filter} where
  pop_loop-deep :
      ltb c d ≡ true → pop_loop (d ∷ s) f c t ≡ some g → (h : Filter) × (pop_loop s h c t ≡ some g)
  unfolding pop_loop
  pop_loop-deep deep e =
      let opened : pop_loop (d ∷ s) f c t
          ≡ (put (record f { stack = s }) wt_dedent t >>= λ h. pop_loop s h c t) =
        rw deep refl in
      let (h, p, q) =
        >>=-eq-some (put (record f { stack = s }) wt_dedent t) (λ h. pop_loop s h c t)
          (sym opened ∙ e) in
      (h, q)

pop_loop-top :
    (s : List ℕ) (f : Filter) (c : ℕ) (t : WokToken) {g : Filter}
    → 1 ≤ c
    → pop_loop s f c t ≡ some g
    → top_col g.stack ≤ c
unfolding pop_loop
pop_loop-top [] f c t h e = ground arith
pop_loop-top (d ∷ s) f c t h e = elim (Bool-cases (ltb c d)) [
  | inl deep ↦ let (g, q) = pop_loop-deep d s f c t deep e in pop_loop-top s g c t h q
  | inr level ↦ ground arith
]

pop_loop-nil :
    (s : List ℕ) (f : Filter) (t : WokToken) {g : Filter}
    → StackIsPos s
    → pop_loop s f 0 t ≡ some g
    → g.stack ≡ []
unfolding pop_loop
pop_loop-nil [] f t h e = ground arith
pop_loop-nil (d ∷ s) f t h e =
    let (g, q) = pop_loop-deep d s f 0 t (ground arith) e in pop_loop-nil s g t h.1 q

-- The column that is left is at most the one asked for.
pub pop_to-top :
    (f : Filter) (c : ℕ) (t : WokToken) {g : Filter}
    → 1 ≤ c
    → pop_to f c t ≡ some g
    → top_col g.stack ≤ c
unfolding pop_to
pop_to-top f = pop_loop-top f.stack f

pub pop_to-nil :
    (f : Filter) (t : WokToken) {g : Filter}
    → StackIsPos f.stack
    → pop_to f 0 t ≡ some g
    → g.stack ≡ []
unfolding pop_to
pop_to-nil f = pop_loop-nil f.stack f

-- L3 and L6.
deeper-Outcome :
    (f : Filter) (t : WokToken) → top_col f.stack < t.col → Outcome NotDedent 2 f (deeper f t)
unfolding deeper
deeper-Outcome f t lt = elim (Bool-cases (leb max_depth (length f.stack + 1))) [
  | inl e ↦ rw e (went (Follows-weaken (Follows-same f _ refl refl refl)) (omega arith))
  | inr e ↦ rw e (push_indent_lem f t lt (ground arith))
]

repair-Outcome :
    (f : Filter) (t : WokToken) → top_col f.stack < t.col → Outcome NotDedent 2 f (repair f t)
unfolding repair
repair-Outcome f t lt = elim (Bool-cases (ltb (length f.stack + 1) max_depth)) [
  | inl e ↦ rw e (Outcome-report f _ (push_indent_lem (report_in f _) t lt (ground arith)))
  | inr e ↦ rw e (went (Follows-weaken (Follows-same f _ refl refl refl)) (omega arith))
]

shallower-Outcome : (f : Filter) (t : WokToken) → 1 ≤ t.col → Outcome NotDedent 2 f (shallower f t)
unfolding shallower
shallower-Outcome f t pos = Outcome-bind 0 2 (pop_to-Outcome f t.col t) λ g e a.
    elim (Bool-cases (top_col g.stack == t.col)) [
      | inl at_level ↦ rw at_level (went (Follows-weaken (Follows-refl g)) (omega arith))
      | inr between ↦ rw between (repair-Outcome g t (ground (arith, pop_to-top f t.col t pos e)))
    ]

by_column-Outcome : (f : Filter) (t : WokToken) → 1 ≤ t.col → Outcome NotDedent 2 f (by_column f t)
unfolding by_column
by_column-Outcome f t pos = elim (Bool-cases (ltb (top_col f.stack) t.col)) [
  | inl e ↦ rw e (deeper-Outcome f t (ground arith))
  | inr e ↦ rw e (elim (Bool-cases (ltb t.col (top_col f.stack))) [
    | inl k ↦ rw k (shallower-Outcome f t pos)
    | inr k ↦ rw k (went (Follows-weaken (Follows-refl f)) (omega arith))
  ])
]

pub separator-Outcome :
    (first : Bool) (f : Filter) (t : WokToken)
    → Outcome Anything 1 f (if first then some f else put f wt_newline t)
separator-Outcome true f t = went (Follows-refl f) (omega arith)
separator-Outcome false f t = put_newline f t

pub line_start-Outcome :
    (first : Bool) (f : Filter) (t : WokToken)
    → 1 ≤ t.col
    → Outcome NotDedent 3 f (line_start first f t)
unfolding line_start
line_start-Outcome first f t pos = elim (Bool-cases (is_continuation_lead t)) [
  | inl lead ↦ rw lead (Outcome-weaken (Outcome-le 0 (pop_to-Outcome f t.col t) (omega arith)))
  | inr item ↦
      rw item (Outcome-bind 1 2 (separator-Outcome first f t) (λ g e a. by_column-Outcome g t pos))
]
