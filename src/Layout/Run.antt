-- ===== src/Layout/Run.antt =====
-- A whole run of the filter: what it emits, and how much room it needs.
use wokml.Prelude.{
  ℕ, ◌+◌, ◌≡◌, ◌≤◌, ◌<◌, refl, ap, ◌∙◌, true, false, Option, none, some, List, [], ◌∷◌, ◌++◌, ltb,
  leb, ◌>>=◌, length, length-append, append_assoc, arith, Bool-cases, inl, inr,
}
use wokml.Token.{WokToken, kind_is_eof}
use wokml.Layout.{Filter, Vars, report_in, put_token, pop_to, report_open, at_eof, layout_loop}
use wokml.Layout.Stream.{Stream, finish, is_plain, IsScanned}
use wokml.Layout.Outcome.{
  size, StackIsPos, Anything, Follows, Follows-same, Follows-trans, Outcome, full, went,
}
use wokml.Layout.Steps.{pop_to-Outcome, pop_to-nil, separator-Outcome}
use wokml.Layout.Line.{Both, cramped, both, one_token-Both, VarsOk, token_cost}

-- What a run adds to the output: a stream from the open levels to the end, within the room.
pub data Final (k : ℕ) (f : Filter) : Option Filter → Type 0 where
  no_room : f.cap < size f + k → Final k f none
  ended :
      {g : Filter} {added : List WokToken}
      → g.out ≡ f.out ++ added
      → Stream f.stack added
      → length g.out ≤ size f + k
      → length g.out ≤ g.cap
      → g.cap ≡ f.cap
      → Final k f (some g)

report_open-Follows :
    (f : Filter) (v : Vars) (o : Option WokToken)
    → Follows Anything f (report_open f v o) × (size (report_open f v o) ≡ size f)
unfolding report_open
report_open-Follows f v none = (Follows-same f f refl refl refl, refl)
report_open-Follows f v (some o) = elim (Bool-cases (ltb 0 v.bracket)) [
  | inl b ↦ rw b (Follows-same f (report_in f _) refl refl refl, refl)
  | inr b ↦ rw b (Follows-same f f refl refl refl, refl)
]

put_eof :
    {f g : Filter} (t : WokToken)
    → kind_is_eof t.kind ≡ true
    → Follows Anything f g
    → size g ≤ size f + 1
    → g.stack ≡ []
    → Final 2 f (put_token g t)
unfolding put_token
put_eof {f} {g} t e a h nil = elim (Bool-cases (leb g.cap (length g.out))) [
  | inl k ↦ rw k (no_room (ground (arith, a.cap)))
  | inr k ↦ rw k (
      ended {added = a.added ++ t ∷ []}
        (ap (λ (x : List WokToken). x ++ t ∷ []) a.out ∙ append_assoc f.out a.added (t ∷ []))
        (a.leads (t ∷ []) (rw nil (finish e)) tt) (omega (arith, length-append g.out (t ∷ [])))
        (ground (arith, length-append g.out (t ∷ []))) a.cap)
]

at_eof-Final :
    (f : Filter) (v : Vars) (t : WokToken)
    → kind_is_eof t.kind ≡ true
    → StackIsPos f.stack
    → Final 2 f (at_eof f v t)
unfolding at_eof
at_eof-Final f v t e pos =
    let (a, s) = report_open-Follows f v v.opener in
    separated a s (separator-Outcome v.first_logical (report_open f v v.opener) t)
  where
    popped :
        {h : Filter} {r : Option Filter}
        → Follows Anything f h
        → size h ≤ size f + 1
        → Outcome Anything 0 h r
        → ((k : Filter) → r ≡ some k → k.stack ≡ [])
        → Final 2 f (r >>= λ k. put_token k t)
    popped b l (full m) nil = no_room (omega (arith, b.cap))
    popped b l (went c m) nil = put_eof t e (Follows-trans b c) (omega arith) (nil _ refl)

    separated :
        {g : Filter} {r : Option Filter}
        → Follows Anything f g
        → size g ≡ size f
        → Outcome Anything 1 g r
        → Final 2 f (r >>= λ h. pop_to h 0 t >>= λ k. put_token k t)
    separated a s (full m) = no_room (omega (arith, a.cap))
    separated a s (went {g = h} b m) =
        let c = Follows-trans a b in
        popped c (omega arith) (pop_to-Outcome h 0 t) (λ k. pop_to-nil h t (c.pos pos))

abbrev pub run_cost : List WokToken → ℕ
run_cost [] = 0
run_cost (t ∷ []) = 2
run_cost (t ∷ u ∷ ts) = token_cost t + run_cost (u ∷ ts)

plain-not_eof : (t : WokToken) → is_plain t.kind ≡ true → kind_is_eof t.kind ≡ false
plain-not_eof t e = ground arith

Final-after :
    {f g : Filter} {r : Option Filter} (i j : ℕ)
    → Follows Anything f g
    → size g ≤ size f + i
    → Final j g r
    → Final (i + j) f r
Final-after i j a l (no_room h) = no_room (omega (arith, a.cap))
Final-after {f} {g} i j a l (ended {g = h} {added} o s m n c) =
    ended {added = a.added ++ added}
      (o ∙ ap (λ (x : List WokToken). x ++ added) a.out ∙ append_assoc f.out a.added added)
      (a.leads added s tt) (omega arith) n (c ∙ a.cap)

Final-bind :
    {f : Filter} {r : Option (Filter × Vars)} {op : Filter → Vars → Option Filter} (i j : ℕ)
    → Both Anything i f r
    → ((g : Filter) (w : Vars) → Follows Anything f g → VarsOk w → Final j g (op g w))
    → Final (i + j) f (r >>= λ (g, w). op g w)
Final-bind i j (cramped h) next = no_room (omega arith)
Final-bind i j (both {g} {w} a l o) next = Final-after i j a l (next g w a o)

pub layout_loop-Final :
    (ts : List WokToken) (f : Filter) (v : Vars)
    → IsScanned ts
    → VarsOk v
    → StackIsPos f.stack
    → Final (run_cost ts) f (layout_loop ts f v)
unfolding layout_loop
layout_loop-Final [] f v i ok pos = absurd i
layout_loop-Final (t ∷ []) f v i ok pos = rw i (at_eof-Final f v t i pos)
layout_loop-Final (t ∷ u ∷ ts) f v (e, col, i) ok pos = rw (plain-not_eof t e) (
    Final-bind (token_cost t) (run_cost (u ∷ ts)) (one_token-Both f v t e col ok)
      (λ g w a o. layout_loop-Final (u ∷ ts) g w i o (a.pos pos)))
