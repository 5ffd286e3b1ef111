-- ===== src/Fixity/Standing.antt =====
-- grammar/c/wok_resolve.c and grammar/c/wok_reorder.c: the check of `wok_resolve` lets a chain stand
-- that the reorder pass can nest.
use wokml.Prelude.{
  ℕ, ◌≡◌, ◌<◌, ◌⊎◌, inl, inr, refl, sym, ap, ◌∙◌, subst, true, none, List, [], ◌∷◌, ◌++◌,
  append_assoc, map, length, All, arith,
}
use mathlib.Core.List.{map-append}
use wokml.Ast.{WokNode}
use wokml.Reorder.{Ro, WokFixTable, Tail}
use wokml.Reorder.Compare.{Known}
use wokml.Reorder.Under.{IsOrder, Before, After}
use wokml.Reorder.Chain.{Nested, single, infixed, All-front}
use wokml.Fixity.{u32_max}
use wokml.Fixity.Table.{fix_bit}
use wokml.Fixity.Checks.{Occurrence, shielded, licensed, unlicensed_with, unlicensed}
use wokml.Fixity.Shield.{occurrence, LetsStand, cons_stand, stand_append, chain_cons, cons_chain}
use wokml.Fixity.Settled.{has_place, tighter_bit, equal_place}

lic_equal : (t : WokFixTable) (a b : ℕ) (os : List Occurrence) → a ≡ b → licensed t a b os ≡ true
unfolding licensed
lic_equal t a b os e = ground arith

lic_bit :
    (t : WokFixTable) (a b : ℕ) (os : List Occurrence)
    → fix_bit t a b ≡ true
    → licensed t a b os ≡ true
unfolding licensed
lic_bit t a b os e = ground arith

lic_bit_back :
    (t : WokFixTable) (a b : ℕ) (os : List Occurrence)
    → fix_bit t b a ≡ true
    → licensed t a b os ≡ true
unfolding licensed
lic_bit_back t a b os e = ground arith

lic_shield :
    (t : WokFixTable) (a b : ℕ) (os : List Occurrence)
    → shielded t a b os ≡ true
    → licensed t a b os ≡ true
unfolding licensed
lic_shield t a b os e = ground arith

shielded_by :
    (t : WokFixTable) (a b : ℕ) (xs : List Occurrence) (o : Occurrence) (ys : List Occurrence)
    → fix_bit t a o.place ≡ true
    → fix_bit t b o.place ≡ true
    → shielded t a b (xs ++ o ∷ ys) ≡ true
unfolding shielded
shielded_by t a b [] o ys e f = ground arith
shielded_by t a b (x ∷ xs) o ys e f = ground (arith, shielded_by t a b xs o ys e f)

module _ (ro : Ro) (order : IsOrder ro) (tiny : length ro.fix.ops < u32_max) where
  -- What binds tighter than `t` before it, or is the same operator.
  Before-bit :
      (t a : Tail)
      → Known ro t
      → Known ro a
      → Before ro t a
      → (fix_bit ro.fix a.fix_idx t.fix_idx ≡ true) ⊎ (a.fix_idx ≡ t.fix_idx)
  Before-bit t a k l (inl e) = inl (tighter_bit ro order tiny a t l k e)
  Before-bit t a k l (inr (e, left)) = inr (equal_place ro order tiny a t l k e)

  After-bit :
      (t a : Tail)
      → Known ro t
      → Known ro a
      → After ro t a
      → (fix_bit ro.fix a.fix_idx t.fix_idx ≡ true) ⊎ (a.fix_idx ≡ t.fix_idx)
  After-bit t a k l (inl e) = inl (tighter_bit ro order tiny a t l k e)
  After-bit t a k l (inr (e, right)) = inr (equal_place ro order tiny a t l k e)

  -- An operator stands with what follows it up to an operator that is no tighter.
  After-stand :
      (t : Tail) (between : List Occurrence) (rs : List Tail)
      → Known ro t
      → All (Known ro) rs
      → All (After ro t) rs
      → LetsStand ro.fix t.fix_idx between (map occurrence rs)
  unfolding unlicensed_with
  After-stand t between [] k ks aft = refl
  After-stand t between (r ∷ rs) k (l, ks) (a, aft) =
      cons_stand ro.fix t.fix_idx between (occurrence r) (map occurrence rs)
        (elim (After-bit t r k l a) [
          | inl e ↦ lic_bit_back ro.fix t.fix_idx r.fix_idx between e
          | inr e ↦ lic_equal ro.fix t.fix_idx r.fix_idx between (sym e)
        ])
        (After-stand t (between ++ occurrence r ∷ []) rs k ks aft)

  -- One operator stands with another when a third, no tighter than both, is between them.
  over_licensed :
      (a t r : Tail) (xs ys : List Occurrence)
      → Known ro t
      → Known ro a
      → Known ro r
      → Before ro t a
      → After ro t r
      → licensed ro.fix a.fix_idx r.fix_idx (xs ++ occurrence t ∷ ys) ≡ true
  over_licensed a t r xs ys k ka kr b f =
      let between = xs ++ occurrence t ∷ ys in
      elim (Before-bit t a k ka b) [
        | inl e ↦ elim (After-bit t r k kr f) [
          | inl g ↦
              lic_shield ro.fix a.fix_idx r.fix_idx between
                (shielded_by ro.fix a.fix_idx r.fix_idx xs (occurrence t) ys e g)
          | inr g ↦ lic_bit ro.fix a.fix_idx r.fix_idx between (ap (fix_bit ro.fix a.fix_idx) g ∙ e)
        ]
        | inr e ↦ elim (After-bit t r k kr f) [
          | inl g ↦
              lic_bit_back ro.fix a.fix_idx r.fix_idx between (ap (fix_bit ro.fix r.fix_idx) e ∙ g)
          | inr g ↦ lic_equal ro.fix a.fix_idx r.fix_idx between (e ∙ sym g)
        ]
      ]

  over_stand :
      (a t : Tail) (xs ys : List Occurrence) (rs : List Tail)
      → Known ro t
      → Known ro a
      → All (Known ro) rs
      → Before ro t a
      → All (After ro t) rs
      → LetsStand ro.fix a.fix_idx (xs ++ occurrence t ∷ ys) (map occurrence rs)
  unfolding unlicensed_with
  over_stand a t xs ys [] k ka ks b aft = refl
  over_stand a t xs ys (r ∷ rs) k ka (kr, ks) b (f, aft) =
      cons_stand ro.fix a.fix_idx (xs ++ occurrence t ∷ ys) (occurrence r) (map occurrence rs)
        (over_licensed a t r xs ys k ka kr b f)
        (subst (λ z. LetsStand ro.fix a.fix_idx z (map occurrence rs))
          (sym (append_assoc xs (occurrence t ∷ ys) (occurrence r ∷ [])))
          (over_stand a t xs (ys ++ occurrence r ∷ []) rs k ka ks b aft))

  joined_stand :
      (ls : List Tail) (t : Tail) (rs : List Tail)
      → All (Known ro) ls
      → Known ro t
      → All (Known ro) rs
      → All (Before ro t) ls
      → All (After ro t) rs
      → unlicensed ro.fix (map occurrence ls) ≡ none
      → unlicensed ro.fix (map occurrence rs) ≡ none
      → unlicensed ro.fix (map occurrence (ls ++ t ∷ rs)) ≡ none
  joined_stand [] t rs ks k kr bs aft h g =
      cons_chain ro.fix (occurrence t) (map occurrence rs) (has_place ro order tiny t k)
        (After-stand t [] rs k kr aft) g
  joined_stand (a ∷ ls) t rs (ka, ks) k kr (b, bs) aft h g =
      let (mine, tail) =
        chain_cons ro.fix (occurrence a) (map occurrence ls) (has_place ro order tiny a ka) h in
      let crossing : LetsStand ro.fix a.fix_idx (map occurrence ls) (map occurrence (t ∷ rs)) =
        cons_stand ro.fix a.fix_idx (map occurrence ls) (occurrence t) (map occurrence rs)
          (elim (Before-bit t a k ka b) [
            | inl e ↦ lic_bit ro.fix a.fix_idx t.fix_idx (map occurrence ls) e
            | inr e ↦ lic_equal ro.fix a.fix_idx t.fix_idx (map occurrence ls) e
          ])
          (over_stand a t (map occurrence ls) [] rs k ka kr b aft) in
      cons_chain ro.fix (occurrence a) (map occurrence (ls ++ t ∷ rs))
        (has_place ro order tiny a ka)
        (subst (λ z. LetsStand ro.fix a.fix_idx [] z) (sym (map-append occurrence ls (t ∷ rs)))
          (stand_append ro.fix a.fix_idx [] (map occurrence ls) (map occurrence (t ∷ rs)) mine
            crossing))
        (joined_stand ls t rs ks k kr bs aft tail g)

  -- The check lets a nested chain stand.
  pub Nested-stands :
      {h n : WokNode} {ts : List Tail}
      → Nested ro h ts n
      → All (Known ro) ts
      → unlicensed ro.fix (map occurrence ts) ≡ none
  unfolding unlicensed
  Nested-stands single ks = refl
  Nested-stands (infixed ls t rs b a nl nr) ks =
      let (kl, kr) = All-front (Known ro) ls (t ∷ rs) ks in
      joined_stand ls t rs kl kr.0 kr.1 b a (Nested-stands nl kl) (Nested-stands nr kr.1)
