-- ===== src/Fixity/Agreement.antt =====
-- grammar/c/wok_resolve.c: the clauses of one operation in a handler agree on how they resume.
use wokml.Prelude.{
  ℕ, ◌≡◌, ◌↔◌, ◌⊎◌, refl, sym, ◌∙◌, Bool, true, false, not, ◌&&◌, ◌||◌, Option, none, some, List,
  [], ◌∷◌, ◌++◌, ◌==◌, if◌then◌else◌, All, All-append, Bool-cases, Option-cases, inl, inr,
}
use wokml.Ast.{WokSpan}
use wokml.Diag.{WokDiagSink, diag_add, e_arity, message}
use wokml.Reorder.{Ro}
use wokml.Fixity.{name_eq}
use wokml.Fixity.Index.{name_eq-span_eq, span_eq_trans}

-- `H_Clause`, as its accessors read it; a node of another kind is passed over before.
pub record Clause : Type 0 where
  pub name : WokSpan
  pub kind : ℕ

-- A baton or a value clause, which is of no operation.
unfoldable pub passed_over : Clause → Bool
passed_over c = c.kind == 3 || c.kind == 2

abbrev pub is_plain : Clause → Bool
is_plain c = c.kind == 0

-- No clause before `a` is of its operation.
unfoldable pub is_first : (src : List ℕ) → (earlier : List Clause) → Clause → Bool
is_first src [] a = true
is_first src (e ∷ es) a = (passed_over e || not (name_eq src e.name a.name)) && is_first src es a

-- A later clause of the operation of `a` that resumes otherwise.
unfoldable pub differs : (src : List ℕ) → (a b : Clause) → Bool
differs src a b =
    not (passed_over b)
    && (name_eq src a.name b.name
        && ((is_plain a && not (is_plain b)) || (not (is_plain a) && is_plain b)))

-- The first such clause.
unfoldable pub first_differing : (src : List ℕ) → Clause → (later : List Clause) → Option Clause
first_differing src a [] = none
first_differing src a (b ∷ bs) =
    let rest = first_differing src a bs in if differs src a b then some b else rest

-- The pairs of clauses that `check_kind_agreement` reports, the later one first.
unfoldable pub disagreements :
    (src : List ℕ) → (earlier clauses : List Clause) → List (Clause × Clause)
disagreements src earlier [] = []
disagreements src earlier (a ∷ rest_) =
    let rest = disagreements src (earlier ++ a ∷ []) rest_ in
    if passed_over a || not (is_first src earlier a)
    then rest
    else elim (first_differing src a rest_) [ none ↦ rest | some b ↦ (b, a) ∷ rest ]

-- The words for the kinds in the message are their numbers here.
unfoldable pub report_pairs : List (Clause × Clause) → WokDiagSink → WokDiagSink
report_pairs [] d = d
report_pairs ((b, a) ∷ ps) d = report_pairs ps (
    diag_add d e_arity b.name.off b.name.len (
      message
        "the clauses for `%.*s` disagree: this one is %s and an earlier one is %s -- they merge into one arm, so they cannot resume differently"
        (b.name.len ∷ b.name.off ∷ b.kind ∷ a.kind ∷ [])))

unfoldable pub check_kind_agreement : (src : List ℕ) → List Clause → WokDiagSink → WokDiagSink
check_kind_agreement src clauses d = report_pairs (disagreements src [] clauses) d

-- A clause resumes as every one of its operation among `cs`.
abbrev pub AgreesWith : (src : List ℕ) → (a : Clause) → (cs : List Clause) → Type 0
AgreesWith src a cs = (passed_over a ≡ true) ⊎ All (λ b. differs src a b ≡ false) cs

-- Each clause resumes as every later one of its operation.
abbrev pub LaterAgree : (src : List ℕ) → List Clause → Type 0
LaterAgree src [] = Unit
LaterAgree src (a ∷ cs) = AgreesWith src a cs × LaterAgree src cs

abbrev other : Bool → Bool → Bool
other p q = (p && not q) || (not p && q)

other_trans : (p q r : Bool) → other p q ≡ false → other p r ≡ false → other q r ≡ false
other_trans true true true h g = refl
other_trans true true false h g = cc
other_trans true false r h g = cc
other_trans false true r h g = cc
other_trans false false true h g = cc
other_trans false false false h g = refl

name_eq_trans :
    (src : List ℕ) (a b c : WokSpan)
    → name_eq src a b ≡ true
    → name_eq src b c ≡ true
    → name_eq src a c ≡ true
name_eq_trans src a b c h g =
    let ro : Ro = record { fix = record { ops = []; edge = []; words = 0 }; src = src } in
    name_eq-span_eq ro a c
    ∙ span_eq_trans ro a b c (sym (name_eq-span_eq ro a b) ∙ h) (sym (name_eq-span_eq ro b c) ∙ g)

differs_trans :
    (src : List ℕ) (e a b : Clause)
    → passed_over a ≡ false
    → name_eq src e.name a.name ≡ true
    → differs src e a ≡ false
    → differs src e b ≡ false
    → differs src a b ≡ false
unfolding differs
differs_trans src e a b p n h g = elim (Bool-cases (passed_over b)) [
  | inl z ↦ rw z refl
  | inr z ↦ elim (Bool-cases (name_eq src a.name b.name)) [
    | inr y ↦ rw (z, y) refl
    | inl y ↦
        let far = name_eq_trans src e.name a.name b.name n y in
        rw (z, y)
          (other_trans (is_plain e) (is_plain a) (is_plain b) (rw (p, n) at h) (rw (z, far) at g))
  ]
]

differs_trans-All :
    (src : List ℕ) (e a : Clause) (cs : List Clause)
    → passed_over a ≡ false
    → name_eq src e.name a.name ≡ true
    → differs src e a ≡ false
    → All (λ b. differs src e b ≡ false) cs
    → All (λ b. differs src a b ≡ false) cs
differs_trans-All src e a [] p n h g = tt
differs_trans-All src e a (b ∷ cs) p n h (g, gs) =
    (differs_trans src e a b p n h g, differs_trans-All src e a cs p n h gs)

-- A clause that is not the first of its operation agrees with those that an earlier one agrees with.
not_first :
    (src : List ℕ) (es : List Clause) (a : Clause) (cs : List Clause)
    → passed_over a ≡ false
    → is_first src es a ≡ false
    → All (λ e. AgreesWith src e (a ∷ cs)) es
    → All (λ b. differs src a b ≡ false) cs
unfolding is_first
not_first src [] a cs p h g = cc
not_first src (e ∷ es) a cs p h (inl q, gs) = not_first src es a cs p (rw q at h) gs
not_first src (e ∷ es) a cs p h (inr (d, ds), gs) = elim (Bool-cases (passed_over e)) [
  | inl z ↦ not_first src es a cs p (rw z at h) gs
  | inr z ↦ elim (Bool-cases (name_eq src e.name a.name)) [
    | inl y ↦ differs_trans-All src e a cs p y d ds
    | inr y ↦ not_first src es a cs p (rw (z, y) at h) gs
  ]
]

first_differing-none :
    (src : List ℕ) (a : Clause) (cs : List Clause)
    → first_differing src a cs ≡ none
    → All (λ b. differs src a b ≡ false) cs
unfolding first_differing
first_differing-none src a [] h = tt
first_differing-none src a (b ∷ cs) h = elim (Bool-cases (differs src a b)) [
  | inl z ↦ let e = rw z at h in cc
  | inr z ↦ (z, first_differing-none src a cs (rw z at h))
]

none-first_differing :
    (src : List ℕ) (a : Clause) (cs : List Clause)
    → All (λ b. differs src a b ≡ false) cs
    → first_differing src a cs ≡ none
unfolding first_differing
none-first_differing src a [] h = refl
none-first_differing src a (b ∷ cs) (z, h) = rw z (none-first_differing src a cs h)

AgreesWith-tail :
    (src : List ℕ) (b : Clause) (cs es : List Clause)
    → All (λ e. AgreesWith src e (b ∷ cs)) es
    → All (λ e. AgreesWith src e cs) es
AgreesWith-tail src b cs [] h = tt
AgreesWith-tail src b cs (e ∷ es) (inl p, h) = (inl p, AgreesWith-tail src b cs es h)
AgreesWith-tail src b cs (e ∷ es) (inr (d, ds), h) = (inr ds, AgreesWith-tail src b cs es h)

step_LaterAgree :
    (src : List ℕ) (es : List Clause) (a : Clause) (cs : List Clause)
    → disagreements src es (a ∷ cs) ≡ []
    → All (λ e. AgreesWith src e (a ∷ cs)) es
    → AgreesWith src a cs × (disagreements src (es ++ a ∷ []) cs ≡ [])
unfolding disagreements
step_LaterAgree src es a cs h g = elim (Bool-cases (passed_over a)) [
  | inl z ↦ (inl z, rw z at h)
  | inr z ↦ elim (Bool-cases (is_first src es a)) [
    | inr y ↦ (inr (not_first src es a cs z y g), rw (z, y) at h)
    | inl y ↦ elim (Option-cases (first_differing src a cs)) [
      | inl w ↦ (inr (first_differing-none src a cs w), rw (z, y, w) at h)
      | inr (b, w) ↦ let e = rw (z, y, w) at h in cc
    ]
  ]
]

disagreements-LaterAgree :
    (src : List ℕ) (es cs : List Clause)
    → disagreements src es cs ≡ []
    → All (λ e. AgreesWith src e cs) es
    → LaterAgree src cs
disagreements-LaterAgree src es [] h g = tt
disagreements-LaterAgree src es (a ∷ cs) h g =
    let (mine, rest) = step_LaterAgree src es a cs h g in
    (
      mine,
      disagreements-LaterAgree src (es ++ a ∷ []) cs rest (
          All-append (λ e. AgreesWith src e cs) es (a ∷ []) (AgreesWith-tail src a cs es g)
            (mine, tt)),
    )

LaterAgree-disagreements :
    (src : List ℕ) (es cs : List Clause) → LaterAgree src cs → disagreements src es cs ≡ []
unfolding disagreements
LaterAgree-disagreements src es [] h = refl
LaterAgree-disagreements src es (a ∷ cs) (h, hs) =
    let rest = LaterAgree-disagreements src (es ++ a ∷ []) cs hs in
    elim (Bool-cases (passed_over a)) [
      | inl z ↦ rw z rest
      | inr z ↦ elim (Bool-cases (is_first src es a)) [
        | inr y ↦ rw (z, y) rest
        | inl y ↦ elim h [ inl p ↦ cc | inr d ↦ rw (z, y, none-first_differing src a cs d) rest ]
      ]
    ]

-- Comparing the first clause of each operation with the later ones is comparing each with the later.
pub disagreements-iff-LaterAgree :
    (src : List ℕ) (cs : List Clause) → (disagreements src [] cs ≡ []) ↔ LaterAgree src cs
disagreements-iff-LaterAgree src cs =
    (λ h. disagreements-LaterAgree src [] cs h tt, λ h. LaterAgree-disagreements src [] cs h)
