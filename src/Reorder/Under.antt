-- ===== src/Reorder/Under.antt =====
-- grammar/c/wok_reorder.c: what stays with an operator, and what stays when a looser one takes over.
use wokml.Prelude.{
  ℕ, ◌≡◌, ◌≢◌, ◌<◌, ◌⊎◌, refl, sym, ap, ◌∙◌, subst, true, false, List, ◌==◌, length, All, All-zip,
  Bool-cases, inl, inr, arith, eq_of_==,
}
use wokml.Reorder.{
  Ro, fix_tighter, Tail, ord_tighter, ord_looser, ord_equal, compare_ops, assoc_at, assoc_left,
}
use wokml.Reorder.Compare.{Known, Known-inside, compare_places, compare_ops-places}

-- The relation of the table is a strict order.
pub record IsOrder (ro : Ro) : Type 0 where
  pub irreflexive : (i : ℕ) → i < length ro.fix.ops → fix_tighter ro i i ≡ false
  pub transitive :
      (i j k : ℕ)
      → i < length ro.fix.ops
      → j < length ro.fix.ops
      → k < length ro.fix.ops
      → fix_tighter ro i j ≡ true
      → fix_tighter ro j k ≡ true
      → fix_tighter ro i k ≡ true

-- An occurrence that stays in the left operand of `t`: it binds tighter, or is the same operator and
-- associates to the left.
abbrev pub Before : Ro → Tail → Tail → Type 0
Before ro t x =
    (compare_ops ro x t ≡ ord_tighter)
    ⊎ ((compare_ops ro x t ≡ ord_equal) × (assoc_at ro t.fix_idx ≡ assoc_left))

-- One that stays in the right operand.
abbrev pub After : Ro → Tail → Tail → Type 0
After ro t x =
    (compare_ops ro x t ≡ ord_tighter)
    ⊎ ((compare_ops ro x t ≡ ord_equal) × (assoc_at ro t.fix_idx ≢ assoc_left))

pub tighter-places :
    (ro : Ro) (i j : ℕ) → compare_places ro i j ≡ ord_tighter → fix_tighter ro i j ≡ true
unfolding compare_places
tighter-places ro i j h = elim (Bool-cases (i == j)) [
  | inl z ↦ let e = rw z at h in cc
  | inr z ↦ elim (Bool-cases (fix_tighter ro i j)) [
    | inl w ↦ w
    | inr w ↦ elim (Bool-cases (fix_tighter ro j i)) [
      | inl v ↦ let e = rw (z, w, v) at h in cc
      | inr v ↦ let e = rw (z, w, v) at h in cc
    ]
  ]
]

pub looser-places :
    (ro : Ro) (i j : ℕ) → compare_places ro i j ≡ ord_looser → fix_tighter ro j i ≡ true
unfolding compare_places
looser-places ro i j h = elim (Bool-cases (i == j)) [
  | inl z ↦ let e = rw z at h in cc
  | inr z ↦ elim (Bool-cases (fix_tighter ro i j)) [
    | inl w ↦ let e = rw (z, w) at h in cc
    | inr w ↦ elim (Bool-cases (fix_tighter ro j i)) [
      | inl v ↦ v
      | inr v ↦ let e = rw (z, w, v) at h in cc
    ]
  ]
]

pub equal-places : (ro : Ro) (i j : ℕ) → compare_places ro i j ≡ ord_equal → i ≡ j
unfolding compare_places
equal-places ro i j h = elim (Bool-cases (i == j)) [
  | inl z ↦ eq_of_== i j z
  | inr z ↦ elim (Bool-cases (fix_tighter ro i j)) [
    | inl w ↦ let e = rw (z, w) at h in cc
    | inr w ↦ elim (Bool-cases (fix_tighter ro j i)) [
      | inl v ↦ let e = rw (z, w, v) at h in cc
      | inr v ↦ let e = rw (z, w, v) at h in cc
    ]
  ]
]

places-equal : (ro : Ro) (i : ℕ) → compare_places ro i i ≡ ord_equal
unfolding compare_places
places-equal ro i = let t : (i == i) ≡ true = ground arith in rw t refl

module _ (ro : Ro) (order : IsOrder ro) where
  places-tighter :
      (i j : ℕ)
      → i < length ro.fix.ops
      → fix_tighter ro i j ≡ true
      → compare_places ro i j ≡ ord_tighter
  unfolding compare_places
  places-tighter i j lt h = elim (Bool-cases (i == j)) [
    | inl z ↦
        let e = eq_of_== i j z in
        let r : fix_tighter ro i j ≡ false =
          subst (λ k. fix_tighter ro i k ≡ false) e (order.irreflexive i lt) in
        let c : true ≡ false = sym h ∙ r in cc
    | inr z ↦ rw (z, h) refl
  ]

  module _ (b t : Tail) (kb : Known ro b) (kt : Known ro t) where
    -- A looser operator takes over: all that stayed with the old one stays with the new one.
    pub under-looser :
        (x : Tail)
        → Known ro x
        → compare_ops ro t b ≡ ord_looser
        → (compare_ops ro x b ≡ ord_tighter) ⊎ (compare_ops ro x b ≡ ord_equal)
        → compare_ops ro x t ≡ ord_tighter
    under-looser x kx e h =
        let bt = looser-places ro t.fix_idx b.fix_idx (sym (compare_ops-places ro t b kt kb) ∙ e) in
        compare_ops-places ro x t kx kt
        ∙ places-tighter x.fix_idx t.fix_idx (Known-inside ro x kx) (elim h [
          | inl s ↦
              order.transitive x.fix_idx b.fix_idx t.fix_idx (Known-inside ro x kx)
                (Known-inside ro b kb) (Known-inside ro t kt)
                (tighter-places ro x.fix_idx b.fix_idx (sym (compare_ops-places ro x b kx kb) ∙ s))
                bt
          | inr s ↦
              subst (λ k. fix_tighter ro k t.fix_idx ≡ true)
                (sym
                  (equal-places ro x.fix_idx b.fix_idx (sym (compare_ops-places ro x b kx kb) ∙ s)))
                bt
        ])

    -- The same operator takes over: all compares with it as with the old one.
    pub under-equal :
        (x : Tail)
        → Known ro x
        → compare_ops ro t b ≡ ord_equal
        → compare_ops ro x t ≡ compare_ops ro x b
    under-equal x kx e =
        let same =
          equal-places ro t.fix_idx b.fix_idx (sym (compare_ops-places ro t b kt kb) ∙ e) in
        compare_ops-places ro x t kx kt
        ∙ ap (compare_places ro x.fix_idx) same
        ∙ sym (compare_ops-places ro x b kx kb)

    pub same_place : compare_ops ro t b ≡ ord_equal → t.fix_idx ≡ b.fix_idx
    same_place e = equal-places ro t.fix_idx b.fix_idx (sym (compare_ops-places ro t b kt kb) ∙ e)

  pub compare_self : (b : Tail) → Known ro b → compare_ops ro b b ≡ ord_equal
  compare_self b k = compare_ops-places ro b b k k ∙ places-equal ro b.fix_idx

  -- One that stood before or behind the old loosest, under a new and looser one.
  pub moved-looser :
      (b t : Tail) (kb : Known ro b) (kt : Known ro t)
      → compare_ops ro t b ≡ ord_looser
      → (P : Tail → Type 0)
      → ((x : Tail) → P x → (compare_ops ro x b ≡ ord_tighter) ⊎ (compare_ops ro x b ≡ ord_equal))
      → (xs : List Tail) → All (Known ro) xs
      → All P xs
      → All (Before ro t) xs
  moved-looser b t kb kt e P weak xs k h =
      All-zip P (Known ro) (Before ro t) xs
        (λ x p kx. inl (under-looser b t kb kt x kx e (weak x p))) h k

  pub Before-weak :
      (b x : Tail)
      → Before ro b x
      → (compare_ops ro x b ≡ ord_tighter) ⊎ (compare_ops ro x b ≡ ord_equal)
  Before-weak b x (inl h) = inl h
  Before-weak b x (inr h) = inr h.0

  pub After-weak :
      (b x : Tail)
      → After ro b x
      → (compare_ops ro x b ≡ ord_tighter) ⊎ (compare_ops ro x b ≡ ord_equal)
  After-weak b x (inl h) = inl h
  After-weak b x (inr h) = inr h.0

  -- One that stood before or behind the old occurrence of an operator to the left, under a new one.
  pub moved-equal :
      (b t : Tail) (kb : Known ro b) (kt : Known ro t)
      → compare_ops ro t b ≡ ord_equal
      → assoc_at ro b.fix_idx ≡ assoc_left
      → (P : Tail → Type 0)
      → ((x : Tail) → P x → (compare_ops ro x b ≡ ord_tighter) ⊎ (compare_ops ro x b ≡ ord_equal))
      → (xs : List Tail) → All (Known ro) xs
      → All P xs
      → All (Before ro t) xs
  moved-equal b t kb kt e left P weak xs k h =
      let left' : assoc_at ro t.fix_idx ≡ assoc_left =
        ap (assoc_at ro) (same_place b t kb kt e) ∙ left in
      All-zip P (Known ro) (Before ro t) xs
        (λ x p kx.
          let same = under-equal b t kb kt x kx e in
          elim (weak x p) [ inl s ↦ inl (same ∙ s) | inr s ↦ inr (same ∙ s, left') ])
        h k
