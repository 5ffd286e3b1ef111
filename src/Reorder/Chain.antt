-- ===== src/Reorder/Chain.antt =====
-- grammar/c/wok_reorder.c: the nesting of a chain by `reorder_split`.
use wokml.Prelude.{
  ℕ, zero, suc, ◌≡◌, ◌≤◌, ◌⊎◌, refl, sym, ap, ◌∙◌, subst, none, some, List, [], ◌∷◌, ◌++◌, length,
  length-append, take, All, Option-cases, inl, inr, arith,
}
use wokml.Ast.{WokNode}
use wokml.Diag.{WokDiagSink}
use wokml.Reorder.{Ro, Tail, find_loosest, combine_infix, split_at, at_loosest, reorder_split}
use wokml.Reorder.Compare.{Known}
use wokml.Reorder.Under.{IsOrder, Before, After}
use wokml.Reorder.Loosest.{Occurs, first, later, Clash, find_loosest-Split, find_loosest-Clash}

-- The chain with head `h` nested as the table says: at the root stands an occurrence with only tighter
-- operators on both sides, but for its own, which stand on the side that its associativity says. The
-- operands and operators are in their order.
pub data Nested (ro : Ro) : WokNode → List Tail → WokNode → Type 0 where
  single : {h : WokNode} → Nested ro h [] h
  infixed :
      {h l r : WokNode} (ls : List Tail) (t : Tail) (rs : List Tail)
      → All (Before ro t) ls
      → All (After ro t) rs
      → Nested ro h ls l
      → Nested ro t.rhs rs r
      → Nested ro h (ls ++ (t ∷ rs)) (combine_infix l t r)

Occurs-left : (x : Tail) (xs ys : List Tail) → Occurs x xs → Occurs x (xs ++ ys)
Occurs-left x [] ys o = elim o [ ]
Occurs-left x (y ∷ xs) ys first = first
Occurs-left x (y ∷ xs) ys (later z o) = later z (Occurs-left x xs ys o)

Occurs-right : (x : Tail) (xs ys : List Tail) → Occurs x ys → Occurs x (xs ++ ys)
Occurs-right x [] ys o = o
Occurs-right x (y ∷ xs) ys o = later y (Occurs-right x xs ys o)

Clash-in :
    (ro : Ro) (xs ys : List Tail)
    → ((x : Tail) → Occurs x xs → Occurs x ys)
    → Clash ro xs
    → Clash ro ys
Clash-in ro xs ys f c = record {
  one = c.one;
  two = c.two;
  one_occurs = f c.one c.one_occurs;
  two_occurs = f c.two c.two_occurs;
  unrelated = c.unrelated;
}

pub take-append : (xs ys : List Tail) → take (length xs) (xs ++ ys) ≡ xs
take-append [] ys = refl
take-append (x ∷ xs) ys = ap (λ l. x ∷ l) (take-append xs ys)

pub split_at-append :
    (xs : List Tail) (t : Tail) (ys : List Tail)
    → split_at (length xs) (xs ++ (t ∷ ys)) ≡ some (t, ys)
unfolding split_at
split_at-append [] t ys = refl
split_at-append (x ∷ xs) t ys = split_at-append xs t ys

pub All-front : (P : Tail → Type 0) (xs ys : List Tail) → All P (xs ++ ys) → All P xs × All P ys
All-front P [] ys h = (tt, h)
All-front P (x ∷ xs) ys (p, h) = let (a, b) = All-front P xs ys h in ((p, a), b)

-- What a split delivers.
abbrev pub Outcome : Ro → WokNode → List Tail → WokNode → Type 0
Outcome ro h ts n = Nested ro h ts n ⊎ Clash ro ts

pub step :
    (fuel : ℕ) (ro : Ro) (h : WokNode) (t : Tail) (ts : List Tail) (d d1 d2 d3 : WokDiagSink)
    (k : ℕ) (s : Tail) (after : List Tail) (left right : WokNode)
    → find_loosest ro (t ∷ ts) d ≡ (some k, d1)
    → split_at k (t ∷ ts) ≡ some (s, after)
    → reorder_split fuel ro h (take k (t ∷ ts)) d1 ≡ some (left, d2)
    → reorder_split fuel ro s.rhs after d2 ≡ some (right, d3)
    → reorder_split (suc fuel) ro h (t ∷ ts) d ≡ some (combine_infix left s right, d3)
unfolding reorder_split at_loosest
step fuel ro h t ts d d1 d2 d3 k s after left right e f l r =
    ap (at_loosest (reorder_split fuel ro) h (t ∷ ts)) e ∙ rw (f, l, r) refl

stop :
    (fuel : ℕ) (ro : Ro) (h : WokNode) (t : Tail) (ts : List Tail) (d d1 : WokDiagSink)
    → find_loosest ro (t ∷ ts) d ≡ (none, d1)
    → reorder_split (suc fuel) ro h (t ∷ ts) d ≡ some (h, d1)
unfolding reorder_split at_loosest
stop fuel ro h t ts d d1 e = ap (at_loosest (reorder_split fuel ro) h (t ∷ ts)) e

join :
    (ro : Ro) (h : WokNode) (ls : List Tail) (t : Tail) (rs ts : List Tail) (l r : WokNode)
    → ts ≡ ls ++ (t ∷ rs)
    → All (Before ro t) ls
    → All (After ro t) rs
    → Outcome ro h ls l
    → Outcome ro t.rhs rs r
    → Outcome ro h ts (combine_infix l t r)
join ro h ls t rs ts l r e b a (inr c) o = inr (
    subst (Clash ro) (sym e)
      (Clash-in ro ls (ls ++ (t ∷ rs)) (λ x k. Occurs-left x ls (t ∷ rs) k) c))
join ro h ls t rs ts l r e b a (inl n) (inr c) = inr (
    subst (Clash ro) (sym e)
      (Clash-in ro rs (ls ++ (t ∷ rs)) (λ x k. Occurs-right x ls (t ∷ rs) (later t k)) c))
join ro h ls t rs ts l r e b a (inl n) (inl m) =
    inl (subst (λ z. Nested ro h z (combine_infix l t r)) (sym e) (infixed ls t rs b a n m))

pub reorder_split-Nested :
    (fuel : ℕ) (ro : Ro) (h : WokNode) (ts : List Tail) (d : WokDiagSink)
    → IsOrder ro
    → All (Known ro) ts
    → length ts ≤ fuel
    → (n : WokNode) × (d' : WokDiagSink) × (reorder_split fuel ro h ts d ≡ some (n, d'))
      × Outcome ro h ts n
unfolding reorder_split
reorder_split-Nested fuel ro h [] d order known le = (h, d, refl, inl single)
reorder_split-Nested zero ro h (t ∷ ts) d order known le = ground arith
reorder_split-Nested (suc fuel) ro h (t ∷ ts) d order known le =
    let found = find_loosest ro (t ∷ ts) d in
    elim (Option-cases found.0) [
      | inl z ↦
          let e : found ≡ (none, found.1) = ap (λ o. (o, found.1)) z in
          (
            h,
            found.1,
            stop fuel ro h t ts d found.1 e,
            inr (find_loosest-Clash ro t ts d found.1 e),
          )
      | inr (k, z) ↦
          let e : found ≡ (some k, found.1) = ap (λ o. (o, found.1)) z in
          let s = find_loosest-Split ro order t ts d known k found.1 e in
          let whole = s.before ++ (s.at ∷ s.after) in
          let (kb, ka) =
            All-front (Known ro) s.before (s.at ∷ s.after) (subst (All (Known ro)) s.same known) in
          let sum = ap length s.same ∙ length-append s.before (s.at ∷ s.after) in
          let cut : take k (t ∷ ts) ≡ s.before =
            ap (take k) s.same
            ∙ subst (λ j. take j whole ≡ s.before) s.place
                (take-append s.before (s.at ∷ s.after)) in
          let rest : split_at k (t ∷ ts) ≡ some (s.at, s.after) =
            ap (split_at k) s.same
            ∙ subst (λ j. split_at j whole ≡ some (s.at, s.after)) s.place
                (split_at-append s.before s.at s.after) in
          let (left, d2, el, ol) =
            reorder_split-Nested fuel ro h s.before found.1 order kb (omega (arith, le, sum)) in
          let (right, d3, er, or) =
            reorder_split-Nested fuel ro s.at.rhs s.after d2 order ka.1 (omega (arith, le, sum)) in
          (
            combine_infix left s.at right,
            d3,
            step fuel ro h t ts d found.1 d2 d3 k s.at s.after left right e rest
                (ap (λ l. reorder_split fuel ro h l found.1) cut ∙ el) er,
            join ro h s.before s.at s.after (t ∷ ts) left right s.same s.loosest_before
                s.loosest_after ol or,
          )
    ]
