-- ===== src/Fixity/Settled.antt =====
-- grammar/c/wok_resolve.c and grammar/c/wok_reorder.c: a chain that the check of `wok_resolve` lets
-- stand is one that the reorder pass nests, and the other way round.
use wokml.Prelude.{
  ℕ, zero, suc, ◌+◌, ◌≡◌, ◌≤◌, ◌<◌, inl, inr, refl, sym, ap, ◌∙◌, subst, true, false, none, some,
  List, [], ◌∷◌, ◌++◌, map, ◌==◌, length, length-append, take, All, All-append, Bool-cases, arith,
  ne_of_==,
}
use mathlib.Core.List.{map-append}
use wokml.Ast.{WokNode}
use wokml.Diag.{WokDiagSink}
use wokml.Reorder.{
  Ro, WokFixTable, Tail, fix_tighter, compare_ops, ord_tighter, ord_equal, ord_incomparable,
  assoc_at, assoc_left, find_loop, find_loosest, split_at, reorder_split, combine_infix,
}
use wokml.Reorder.Compare.{Known, Known-inside, compare_places, compare_ops-places}
use wokml.Reorder.Under.{IsOrder, After, tighter-places, equal-places}
use wokml.Reorder.Loosest.{Order-cases, find_loosest-Split}
use wokml.Reorder.Chain.{Nested, single, infixed, step, All-front, take-append, split_at-append}
use wokml.Fixity.{u32_max}
use wokml.Fixity.Table.{fix_bit}
use wokml.Fixity.Checks.{shielded, licensed, unlicensed}
use wokml.Fixity.Shield.{
  occurrence, LetsStand, stand_cons, chain_cons, HasPlace, chain_front, chain_back,
}

-- Two places that the table does not relate.
record Unrelated (t : WokFixTable) (i j : ℕ) : Type 0 where
  apart : (i == j) ≡ false
  not_tighter : fix_bit t i j ≡ false
  not_looser : fix_bit t j i ≡ false

Unrelated-places :
    (ro : Ro) (i j : ℕ) → compare_places ro i j ≡ ord_incomparable → Unrelated ro.fix i j
unfolding compare_places fix_tighter fix_bit
Unrelated-places ro i j h = elim (Bool-cases (i == j)) [
  | inl z ↦ let e = rw z at h in cc
  | inr z ↦ elim (Bool-cases (fix_tighter ro i j)) [
    | inl w ↦ let e = rw (z, w) at h in cc
    | inr w ↦ elim (Bool-cases (fix_tighter ro j i)) [
      | inl v ↦ let e = rw (z, w, v) at h in cc
      | inr v ↦ record { apart = z; not_tighter = w; not_looser = v }
    ]
  ]
]

fix_tighter-fix_bit : (ro : Ro) (i j : ℕ) → fix_tighter ro i j ≡ fix_bit ro.fix i j
unfolding fix_tighter fix_bit
fix_tighter-fix_bit ro i j = refl

module _ (ro : Ro) (order : IsOrder ro) (tiny : length ro.fix.ops < u32_max) where
  pub has_place : (t : Tail) → Known ro t → HasPlace (occurrence t)
  has_place t k = let inside = Known-inside ro t k in ground arith

  has_places : (ts : List Tail) → All (Known ro) ts → All HasPlace (map occurrence ts)
  has_places [] ks = tt
  has_places (t ∷ ts) (k, ks) = (has_place t k, has_places ts ks)

  pub tighter_bit :
      (a b : Tail)
      → Known ro a
      → Known ro b
      → compare_ops ro a b ≡ ord_tighter
      → fix_bit ro.fix a.fix_idx b.fix_idx ≡ true
  tighter_bit a b k l e =
      sym (fix_tighter-fix_bit ro a.fix_idx b.fix_idx)
      ∙ tighter-places ro a.fix_idx b.fix_idx (sym (compare_ops-places ro a b k l) ∙ e)

  pub equal_place :
      (a b : Tail)
      → Known ro a
      → Known ro b
      → compare_ops ro a b ≡ ord_equal
      → a.fix_idx ≡ b.fix_idx
  equal_place a b k l e =
      equal-places ro a.fix_idx b.fix_idx (sym (compare_ops-places ro a b k l) ∙ e)

  no_bit_self : (a : Tail) → Known ro a → fix_bit ro.fix a.fix_idx a.fix_idx ≡ false
  no_bit_self a k =
      sym (fix_tighter-fix_bit ro a.fix_idx a.fix_idx)
      ∙ order.irreflexive a.fix_idx (Known-inside ro a k)

  -- What stays behind an operator is not looser than it.
  not_looser_behind :
      (b m : Tail)
      → Known ro b
      → Known ro m
      → After ro b m
      → fix_bit ro.fix b.fix_idx m.fix_idx ≡ false
  not_looser_behind b m k l (inr (e, right)) =
      ap (λ v. fix_bit ro.fix b.fix_idx v) (equal_place m b l k e) ∙ no_bit_self b k
  not_looser_behind b m k l (inl e) = elim (Bool-cases (fix_bit ro.fix b.fix_idx m.fix_idx)) [
    | inr z ↦ z
    | inl z ↦
        let round : fix_tighter ro b.fix_idx b.fix_idx ≡ true =
          order.transitive b.fix_idx m.fix_idx b.fix_idx (Known-inside ro b k) (Known-inside ro m l)
            (Known-inside ro b k) (fix_tighter-fix_bit ro b.fix_idx m.fix_idx ∙ z)
            (fix_tighter-fix_bit ro m.fix_idx b.fix_idx ∙ tighter_bit m b l k e) in
        let never = order.irreflexive b.fix_idx (Known-inside ro b k) in cc
  ]

  no_shield :
      (b : Tail) (c : ℕ) (mid : List Tail)
      → Known ro b
      → All (Known ro) mid
      → All (After ro b) mid
      → shielded ro.fix b.fix_idx c (map occurrence mid) ≡ false
  unfolding shielded
  no_shield b c [] k ks aft = refl
  no_shield b c (m ∷ mid) k (l, ks) (a, aft) =
      rw (has_place m l, not_looser_behind b m k l a) (no_shield b c mid k ks aft)

  -- An operator that the table does not relate to the loosest so far is not let stand.
  not_licensed :
      (b t : Tail) (mid : List Tail)
      → Known ro b
      → Known ro t
      → All (Known ro) mid
      → All (After ro b) mid
      → compare_ops ro t b ≡ ord_incomparable
      → licensed ro.fix b.fix_idx t.fix_idx (map occurrence mid) ≡ false
  unfolding licensed
  not_licensed b t mid k l ks aft e =
      let u = Unrelated-places ro t.fix_idx b.fix_idx (sym (compare_ops-places ro t b l k) ∙ e) in
      let apart : (b.fix_idx == t.fix_idx) ≡ false =
        let ne = ne_of_== t.fix_idx b.fix_idx u.apart in ground arith in
      rw (has_place t l, apart, u.not_looser, u.not_tighter) (no_shield b t.fix_idx mid k ks aft)

  -- In a chain that the check lets stand the search for the loosest operator ends with one, and
  -- reports nothing.
  find_loop_settles :
      (b : Tail) (mid ts : List Tail) (best i : ℕ) (d : WokDiagSink)
      → Known ro b
      → All (Known ro) mid
      → All (Known ro) ts
      → All (After ro b) mid
      → LetsStand ro.fix b.fix_idx (map occurrence mid) (map occurrence ts)
      → unlicensed ro.fix (map occurrence ts) ≡ none
      → (k : ℕ) × (find_loop ro best b i ts d ≡ (some k, d))
  unfolding find_loop
  find_loop_settles b mid [] best i d kb km kt am h g = (best, refl)
  find_loop_settles b mid (t ∷ ts) best i d kb km (kt, kts) am h g =
      let (lic, rest) =
        stand_cons ro.fix b.fix_idx (map occurrence mid) (occurrence t) (map occurrence ts) h in
      let (behind, tail) =
        chain_cons ro.fix (occurrence t) (map occurrence ts) (has_place t kt) g in
      let stay : After ro b t → (k : ℕ) × (find_loop ro best b (i + 1) ts d ≡ (some k, d)) = λ aft.
        find_loop_settles b (mid ++ t ∷ []) ts best (i + 1) d kb
          (All-append (Known ro) mid (t ∷ []) km (kt, tt)) kts
          (All-append (After ro b) mid (t ∷ []) am (aft, tt))
          (subst (λ m. LetsStand ro.fix b.fix_idx m (map occurrence ts))
            (sym (map-append occurrence mid (t ∷ []))) rest)
          tail in
      let move : (k : ℕ) × (find_loop ro i t (i + 1) ts d ≡ (some k, d)) =
        find_loop_settles t [] ts i (i + 1) d kt tt kts tt behind tail in
      elim (Order-cases (compare_ops ro t b)) [
        | inl c ↦ let (k, e) = stay (inl c) in (k, rw (find_loop, c) e)
        | inr (inl c) ↦ let (k, e) = move in (k, rw (find_loop, c) e)
        | inr (inr (inl c)) ↦ elim (Bool-cases (assoc_at ro b.fix_idx == assoc_left)) [
          | inl z ↦ let (k, e) = move in (k, rw (find_loop, c, z) e)
          | inr z ↦ let (k, e) = stay (inr (c, ne_of_== _ _ z)) in (k, rw (find_loop, c, z) e)
        ]
        | inr (inr (inr c)) ↦ let refused = not_licensed b t mid kb kt km am c in cc
      ]

  find_loosest_settles :
      (t : Tail) (ts : List Tail) (d : WokDiagSink)
      → All (Known ro) (t ∷ ts)
      → unlicensed ro.fix (map occurrence (t ∷ ts)) ≡ none
      → (k : ℕ) × (find_loosest ro (t ∷ ts) d ≡ (some k, d))
  unfolding find_loosest
  find_loosest_settles t ts d (k, ks) h =
      let (behind, tail) = chain_cons ro.fix (occurrence t) (map occurrence ts) (has_place t k) h in
      find_loop_settles t [] ts 0 1 d k tt ks tt behind tail

  -- A part of a chain that the check lets stand is let stand.
  parts_stand :
      (ls : List Tail) (t : Tail) (rs : List Tail)
      → All (Known ro) ls
      → Known ro t
      → unlicensed ro.fix (map occurrence (ls ++ t ∷ rs)) ≡ none
      → (unlicensed ro.fix (map occurrence ls) ≡ none)
        × (unlicensed ro.fix (map occurrence rs) ≡ none)
  parts_stand ls t rs ks k h =
      let whole = ap (unlicensed ro.fix) (sym (map-append occurrence ls (t ∷ rs))) ∙ h in
      let places = has_places ls ks in
      (
        chain_front ro.fix (map occurrence ls) (map occurrence (t ∷ rs)) places whole,
        (chain_cons ro.fix (occurrence t) (map occurrence rs) (has_place t k)
            (chain_back ro.fix (map occurrence ls) (map occurrence (t ∷ rs)) places whole)).1,
      )

  -- A chain that the check lets stand is nested, and nothing is reported.
  pub reorder_settles :
      (fuel : ℕ) (h : WokNode) (ts : List Tail) (d : WokDiagSink)
      → All (Known ro) ts
      → length ts ≤ fuel
      → unlicensed ro.fix (map occurrence ts) ≡ none
      → (n : WokNode) × (reorder_split fuel ro h ts d ≡ some (n, d)) × Nested ro h ts n
  unfolding reorder_split
  reorder_settles fuel h [] d known le ok = (h, refl, single)
  reorder_settles zero h (t ∷ ts) d known le ok = absurd (omega arith)
  reorder_settles (suc fuel) h (t ∷ ts) d known le ok =
      let (k, e) = find_loosest_settles t ts d known ok in
      let s = find_loosest-Split ro order t ts d known k d e in
      let whole = s.before ++ (s.at ∷ s.after) in
      let (kb, ka) =
        All-front (Known ro) s.before (s.at ∷ s.after) (subst (All (Known ro)) s.same known) in
      let sum = ap length s.same ∙ length-append s.before (s.at ∷ s.after) in
      let cut : take k (t ∷ ts) ≡ s.before =
        ap (take k) s.same
        ∙ subst (λ j. take j whole ≡ s.before) s.place (take-append s.before (s.at ∷ s.after)) in
      let rest : split_at k (t ∷ ts) ≡ some (s.at, s.after) =
        ap (split_at k) s.same
        ∙ subst (λ j. split_at j whole ≡ some (s.at, s.after)) s.place
            (split_at-append s.before s.at s.after) in
      let (okl, okr) =
        parts_stand s.before s.at s.after kb ka.0
          (subst (λ l. unlicensed ro.fix (map occurrence l) ≡ none) s.same ok) in
      let (l, el, nl) = reorder_settles fuel h s.before d kb (omega arith) okl in
      let (r, er, nr) = reorder_settles fuel s.at.rhs s.after d ka.1 (omega arith) okr in
      (
        combine_infix l s.at r,
        step fuel ro h t ts d d d d k s.at s.after l r e rest
            (subst (λ b. reorder_split fuel ro h b d ≡ some (l, d)) (sym cut) el) er,
        subst (λ z. Nested ro h z (combine_infix l s.at r)) (sym s.same)
            (infixed s.before s.at s.after s.loosest_before s.loosest_after nl nr),
      )
