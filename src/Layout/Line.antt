-- ===== src/Layout/Line.antt =====
-- One token through the filter: what it emits, and how much room it needs.
use wokml.Prelude.{
  ℕ, ◌+◌, ◌-◌, ◌≡◌, ◌⊎◌, ◌≤◌, ◌<◌, refl, sym, ap, ◌∙◌, Bool, true, false, not, ◌&&◌, Option, none,
  some, List, [], ◌∷◌, ◌++◌, ltb, leb, subst, ◌>>=◌, ◌==◌, if◌then◌else◌, length, length-append,
  append_assoc, arith, Bool-cases, inl, inr,
}
use wokml.Token.{
  WokToken, kind_is_dedent, kind_is_open_bracket, kind_is_close_bracket, is_continuation_lead,
}
use wokml.Layout.{
  Filter, Vars, put_token, abandon, outside, at_line_start, track_brackets, before_token, one_token,
}
use wokml.Layout.Stream.{Stream, plain, NotDedent, is_plain}
use wokml.Layout.Outcome.{
  size, Anything, Follows, Follows-same, Follows-trans, Follows-weaken, Outcome, full, went,
}
use wokml.Layout.Steps.{line_start-Outcome}

-- While a bracket is open, `bracket_open` points at it.
abbrev pub VarsOk : Vars → Type 0
VarsOk v = (v.bracket ≡ 0) ⊎ ((o : WokToken) × (v.opener ≡ some o))

-- The outcome of an operation on the filter and the variables.
pub data Both (Next : List WokToken → Type 0) (k : ℕ) (f : Filter)
    : Option (Filter × Vars) → Type 0 where
  cramped : f.cap < size f + k → Both Next k f none
  both :
      {g : Filter} {w : Vars}
      → Follows Next f g
      → size g ≤ size f + k
      → VarsOk w
      → Both Next k f (some (g, w))

-- L7 reports and forgets the brackets, or does nothing; it never reads a null pointer.
data Abandoned (f : Filter) : Option (Filter × Vars) → Type 0 where
  abandoned :
      {g : Filter} {w : Vars}
      → g.out ≡ f.out
      → g.stack ≡ f.stack
      → g.cap ≡ f.cap
      → VarsOk w
      → Abandoned f (some (g, w))

abandon-Abandoned : (f : Filter) (v : Vars) (t : WokToken) → VarsOk v → Abandoned f (abandon f v t)
unfolding abandon
abandon-Abandoned f v t ok =
    elim (Bool-cases (ltb 0 v.bracket && not (is_continuation_lead t) && leb t.col v.block_col)) [
      | inr no_ ↦ rw no_ (abandoned refl refl refl ok)
      | inl go ↦ elim ok [
        | inl z ↦ absurd (ground arith)
        | inr (o, e) ↦ rw (go, e) (abandoned refl refl refl (inl refl))
      ]
    ]

outside-Both :
    (f : Filter) (v : Vars) (t : WokToken)
    → 1 ≤ t.col
    → VarsOk v
    → Both NotDedent 3 f (outside f v t)
unfolding outside
outside-Both f v t pos ok = elim (Bool-cases (v.bracket == 0)) [
  | inr inside ↦
      rw inside (both (Follows-weaken (Follows-same f f refl refl refl)) (omega arith) ok)
  | inl out ↦ rw out (from_Outcome (line_start-Outcome v.first_logical f t pos))
]
  where
    from_Outcome :
        {r : Option Filter}
        → Outcome NotDedent 3 f r
        → Both NotDedent 3 f (r >>= λ g. some (g, record v { first_logical = false }))
    from_Outcome (full h) = cramped h
    from_Outcome (went a h) = both a h ok

at_line_start-Both :
    (f : Filter) (v : Vars) (t : WokToken)
    → 1 ≤ t.col
    → VarsOk v
    → Both NotDedent 3 f (at_line_start f v t)
unfolding at_line_start
at_line_start-Both f v t pos ok = from_Abandoned (abandon-Abandoned f v t ok)
  where
    moved :
        {g : Filter} {r : Option (Filter × Vars)}
        → g.out ≡ f.out
        → g.stack ≡ f.stack
        → g.cap ≡ f.cap
        → Both NotDedent 3 g r
        → Both NotDedent 3 f r
    moved o s c (cramped h) = cramped (omega (arith, ap length o, ap length s))
    moved {g} o s c (both a h k) =
        both (Follows-trans (Follows-same f g o s c) a) (omega (arith, ap length o, ap length s)) k

    from_Abandoned :
        {r : Option (Filter × Vars)}
        → Abandoned f r
        → Both NotDedent 3 f (r >>= λ (g, w). outside g w t)
    from_Abandoned (abandoned {g} {w} o s c k) = moved o s c (outside-Both g w t pos k)

track_brackets-VarsOk :
    (f : Filter) (v : Vars) (t : WokToken) → VarsOk v → VarsOk (track_brackets f v t)
unfolding track_brackets
track_brackets-VarsOk f v t ok = elim (Bool-cases (kind_is_open_bracket t.kind)) [
  | inl open_ ↦ rw open_ (elim (Bool-cases (v.bracket == 0)) [
    | inl z ↦ rw z (inr (t, refl))
    | inr nz ↦ elim ok [ inl z ↦ absurd (ground arith) | inr (o, e) ↦ inr (o, rw nz e) ]
  ])
  | inr other ↦ rw other (elim (Bool-cases (kind_is_close_bracket t.kind && ltb 0 v.bracket)) [
    | inr neither ↦ rw neither ok
    | inl close ↦ rw close (elim (Bool-cases (v.bracket - 1 == 0)) [
      | inl z ↦ inl (ground arith)
      | inr nz ↦ elim ok [ inl z ↦ absurd (ground arith) | inr (o, e) ↦ inr (o, rw nz e) ]
    ])
  ])
]

-- By how much a token may grow `size`.
abbrev pub token_cost : WokToken → ℕ
token_cost t = (if t.first_on_line then 3 else 0) + 1

plain-NotDedent : (t : WokToken) → is_plain t.kind ≡ true → kind_is_dedent t.kind ≡ false
plain-NotDedent t e = ground arith

-- A token behind an INDENT keeps the region from being empty.
put_behind :
    {f g : Filter} (i : ℕ) (t : WokToken)
    → is_plain t.kind ≡ true
    → Follows NotDedent f g
    → size g ≤ size f + i
    → Outcome Anything (i + 1) f (put_token g t)
unfolding put_token
put_behind {f} {g} i t e a h = elim (Bool-cases (leb g.cap (length g.out))) [
  | inl k ↦ rw k (full (ground (arith, a.cap)))
  | inr k ↦ rw k (
      went
        (record {
          added = a.added ++ t ∷ [];
          out = ap (λ (x : List WokToken). x ++ t ∷ []) a.out ∙ append_assoc f.out a.added (t ∷ []);
          leads = λ ts s n.
              subst (Stream f.stack) (sym (append_assoc a.added (t ∷ []) ts))
                (a.leads (t ∷ ts) (plain e s) (plain-NotDedent t e));
          cap = a.cap;
          pos = a.pos;
        })
        (omega (arith, length-append g.out (t ∷ []))))
]

before_token-Both :
    (b : Bool) (f : Filter) (v : Vars) (t : WokToken)
    → 1 ≤ t.col
    → VarsOk v
    → Both NotDedent (if b then 3 else 0) f (before_token b f v t)
unfolding before_token
before_token-Both true f v t pos ok = at_line_start-Both f v t pos ok
before_token-Both false f v t pos ok =
    both (Follows-weaken (Follows-same f f refl refl refl)) (omega arith) ok

pub one_token-Both :
    (f : Filter) (v : Vars) (t : WokToken)
    → is_plain t.kind ≡ true
    → 1 ≤ t.col
    → VarsOk v
    → Both Anything (token_cost t) f (one_token f v t)
unfolding one_token
one_token-Both f v t e pos ok = placed (before_token-Both t.first_on_line f v t pos ok)
  where
    tracked :
        {k : ℕ} {r : Option Filter} (g : Filter) (w : Vars)
        → VarsOk w
        → Outcome Anything k f r
        → Both Anything k f (r >>= λ h. some (h, track_brackets g w t))
    tracked g w o (full l) = cramped l
    tracked g w o (went a l) = both a l (track_brackets-VarsOk g w t o)

    placed :
        {k : ℕ} {r : Option (Filter × Vars)}
        → Both NotDedent k f r
        → Both Anything
            (k + 1)
            f
            (r >>= λ (g, w). put_token g t >>= λ h. some (h, track_brackets g w t))
    placed (cramped l) = cramped (omega arith)
    placed {k} (both {g} {w} a l o) = tracked g w o (put_behind k t e a l)
