-- ===== src/Fixity/Shield.antt =====
-- grammar/c/wok_resolve.c and grammar/c/wok_reorder.c: the shield rule on the operators of a chain.
use wokml.Prelude.{
  ℕ, ◌≡◌, inl, inr, refl, sym, subst, true, false, none, List, [], ◌∷◌, ◌++◌, append_assoc,
  append-nil, ◌==◌, All, Bool-cases, Option-cases,
}
use wokml.Reorder.{WokFixTable, Tail}
use wokml.Fixity.{u32_max}
use wokml.Fixity.Checks.{Occurrence, licensed, unlicensed_with, unlicensed}

-- An occurrence as the check reads it.
abbrev pub occurrence : Tail → Occurrence
occurrence t = record { name = t.name; place = t.fix_idx }

-- The check lets stand what follows an operator, with `between` already passed.
abbrev pub LetsStand : WokFixTable → (a : ℕ) → (between later : List Occurrence) → Type 0
LetsStand t a between later = unlicensed_with t a between later ≡ none

pub stand_cons :
    (t : WokFixTable) (a : ℕ) (between : List Occurrence) (o : Occurrence) (os : List Occurrence)
    → LetsStand t a between (o ∷ os)
    → (licensed t a o.place between ≡ true) × LetsStand t a (between ++ o ∷ []) os
unfolding unlicensed_with
stand_cons t a between o os h = elim (Bool-cases (licensed t a o.place between)) [
  | inl z ↦ (z, rw z at h)
  | inr z ↦ let e = rw z at h in cc
]

pub cons_stand :
    (t : WokFixTable) (a : ℕ) (between : List Occurrence) (o : Occurrence) (os : List Occurrence)
    → licensed t a o.place between ≡ true
    → LetsStand t a (between ++ o ∷ []) os
    → LetsStand t a between (o ∷ os)
unfolding unlicensed_with
cons_stand t a between o os z h = rw z h

pub stand_append :
    (t : WokFixTable) (a : ℕ) (between xs ys : List Occurrence)
    → LetsStand t a between xs
    → LetsStand t a (between ++ xs) ys
    → LetsStand t a between (xs ++ ys)
stand_append t a between [] ys h k = subst (λ b. LetsStand t a b ys) (append-nil between) k
stand_append t a between (x ∷ xs) ys h k =
    let (z, r) = stand_cons t a between x xs h in
    cons_stand t a between x (xs ++ ys) z (
      stand_append t a (between ++ x ∷ []) xs ys r
        (subst (λ b. LetsStand t a b ys) (sym (append_assoc between (x ∷ []) xs)) k))

pub stand_front :
    (t : WokFixTable) (a : ℕ) (between xs ys : List Occurrence)
    → LetsStand t a between (xs ++ ys)
    → LetsStand t a between xs
unfolding unlicensed_with
stand_front t a between [] ys h = refl
stand_front t a between (x ∷ xs) ys h =
    let (z, r) = stand_cons t a between x (xs ++ ys) h in
    cons_stand t a between x xs z (stand_front t a (between ++ x ∷ []) xs ys r)

-- A chain that the check lets stand, taken apart.
pub chain_cons :
    (t : WokFixTable) (o : Occurrence) (os : List Occurrence)
    → (o.place == u32_max) ≡ false
    → unlicensed t (o ∷ os) ≡ none
    → LetsStand t o.place [] os × (unlicensed t os ≡ none)
unfolding unlicensed
chain_cons t o os p h = elim (Option-cases (unlicensed_with t o.place [] os)) [
  | inl z ↦ (z, rw (p, z) at h)
  | inr (s, z) ↦ let e = rw (p, z) at h in cc
]

pub cons_chain :
    (t : WokFixTable) (o : Occurrence) (os : List Occurrence)
    → (o.place == u32_max) ≡ false
    → LetsStand t o.place [] os
    → unlicensed t os ≡ none
    → unlicensed t (o ∷ os) ≡ none
unfolding unlicensed
cons_chain t o os p z h = rw (p, z) h

-- Every operator of the chain has a place in the table.
abbrev pub HasPlace : Occurrence → Type 0
HasPlace o = (o.place == u32_max) ≡ false

pub chain_front :
    (t : WokFixTable) (xs ys : List Occurrence)
    → All HasPlace xs
    → unlicensed t (xs ++ ys) ≡ none
    → unlicensed t xs ≡ none
unfolding unlicensed
chain_front t [] ys p h = refl
chain_front t (x ∷ xs) ys (p, ps) h =
    let (z, r) = chain_cons t x (xs ++ ys) p h in
    cons_chain t x xs p (stand_front t x.place [] xs ys z) (chain_front t xs ys ps r)

pub chain_back :
    (t : WokFixTable) (xs ys : List Occurrence)
    → All HasPlace xs
    → unlicensed t (xs ++ ys) ≡ none
    → unlicensed t ys ≡ none
chain_back t [] ys p h = h
chain_back t (x ∷ xs) ys (p, ps) h = chain_back t xs ys ps (chain_cons t x (xs ++ ys) p h).1
