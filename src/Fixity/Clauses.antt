-- ===== src/Fixity/Clauses.antt =====
-- grammar/c/wok_resolve.c: what `check_kind_agreement` asks of every two clauses of a handler.
use wokml.Prelude.{
  ℕ, ◌≡◌, ◌≢◌, ◌↔◌, refl, sym, true, false, List, [], ◌∷◌, ◌==◌, All, All-zip, All-map, Bool-cases,
  inl, inr, arith, eq_of_==,
}
use wokml.Token.Words.{same_bytes}
use wokml.Token.Roster.{same_bytes-eq}
use wokml.Reorder.Compare.{same_bytes_refl}
use wokml.Fixity.{source_text, name_eq}
use wokml.Fixity.Agreement.{
  Clause, passed_over, differs, disagreements, AgreesWith, LaterAgree, disagreements-iff-LaterAgree,
}

-- A clause of an operation, neither a value clause nor a baton.
abbrev IsOfOperation : Clause → Type 0
IsOfOperation c = (c.kind ≢ 2) × (c.kind ≢ 3)

-- The two are clauses of operations that the text spells alike.
pub record SameOperation (src : List ℕ) (a b : Clause) : Type 0 where
  pub left : IsOfOperation a
  pub right : IsOfOperation b
  pub lengths : a.name.len ≡ b.name.len
  pub texts : source_text src a.name ≡ source_text src b.name

-- Clauses of one operation are both plain, or neither is.
pub ResumeAlike : (src : List ℕ) → (a b : Clause) → Type 0
ResumeAlike src a b = SameOperation src a b → (a.kind ≡ 0) ↔ (b.kind ≡ 0)

-- Every two clauses of the handler.
abbrev pub Agree : (src : List ℕ) → List Clause → Type 0
Agree src cs = All (λ a. All (ResumeAlike src a) cs) cs

SameOperation-sym : (src : List ℕ) (a b : Clause) → SameOperation src a b → SameOperation src b a
SameOperation-sym src a b o = record {
  left = o.right;
  right = o.left;
  lengths = sym o.lengths;
  texts = sym o.texts;
}

ResumeAlike-sym : (src : List ℕ) (a b : Clause) → ResumeAlike src a b → ResumeAlike src b a
unfolding ResumeAlike
ResumeAlike-sym src a b r o = let (to, from) = r (SameOperation-sym src b a o) in (from, to)

ResumeAlike-refl : (src : List ℕ) (a : Clause) → ResumeAlike src a a
unfolding ResumeAlike
ResumeAlike-refl src a o = (λ e. e, λ e. e)

operation-IsOfOperation : (c : Clause) → passed_over c ≡ false → IsOfOperation c
unfolding passed_over
operation-IsOfOperation c h = (λ e. absurd (ground arith), λ e. absurd (ground arith))

IsOfOperation-operation : (c : Clause) → IsOfOperation c → passed_over c ≡ false
unfolding passed_over
IsOfOperation-operation c h = ground arith

differs-ResumeAlike : (src : List ℕ) (a b : Clause) → differs src a b ≡ false → ResumeAlike src a b
unfolding ResumeAlike differs name_eq
differs-ResumeAlike src a b h o =
    let mine = IsOfOperation-operation b o.right in
    let same : (a.name.len == b.name.len) ≡ true = ground (arith, o.lengths) in
    let text : same_bytes (source_text src a.name) (source_text src b.name) ≡ true =
      rw o.texts (same_bytes_refl (source_text src b.name)) in
    let g = rw (mine, same, text) at h in (λ e. ground arith, λ e. ground arith)

ResumeAlike-differs :
    (src : List ℕ) (a b : Clause)
    → passed_over a ≡ false
    → ResumeAlike src a b
    → differs src a b ≡ false
unfolding ResumeAlike differs name_eq
ResumeAlike-differs src a b p r = elim (Bool-cases (passed_over b)) [
  | inl z ↦ rw z refl
  | inr z ↦ elim (Bool-cases (a.name.len == b.name.len)) [
    | inr y ↦ rw (z, y) refl
    | inl y ↦ elim (Bool-cases (same_bytes (source_text src a.name) (source_text src b.name))) [
      | inr x ↦ rw (z, y, x) refl
      | inl x ↦
          let (to, from) = r (record {
            left = operation-IsOfOperation a p;
            right = operation-IsOfOperation b z;
            lengths = eq_of_== _ _ y;
            texts = same_bytes-eq _ _ x;
          }) in
          rw (z, y, x) (ground arith)
    ]
  ]
]

AgreesWith-ResumeAlike :
    (src : List ℕ) (a : Clause) (cs : List Clause)
    → AgreesWith src a cs
    → All (ResumeAlike src a) cs
unfolding ResumeAlike
AgreesWith-ResumeAlike src a [] h = tt
AgreesWith-ResumeAlike src a (b ∷ cs) (inl p) =
    (λ o. let q = IsOfOperation-operation a o.left in cc, AgreesWith-ResumeAlike src a cs (inl p))
AgreesWith-ResumeAlike src a (b ∷ cs) (inr (d, ds)) =
    (differs-ResumeAlike src a b d, AgreesWith-ResumeAlike src a cs (inr ds))

none_differ :
    (src : List ℕ) (a : Clause) (cs : List Clause)
    → passed_over a ≡ false
    → All (ResumeAlike src a) cs
    → All (λ b. differs src a b ≡ false) cs
none_differ src a [] p h = tt
none_differ src a (b ∷ cs) p (r, rs) = (ResumeAlike-differs src a b p r, none_differ src a cs p rs)

-- One more clause in front of those that the others are compared with.
in_front :
    (src : List ℕ) (a : Clause) (bs cs : List Clause)
    → All (ResumeAlike src a) bs
    → All (λ b. All (ResumeAlike src b) cs) bs
    → All (λ b. All (ResumeAlike src b) (a ∷ cs)) bs
in_front src a bs cs h k =
    All-zip (ResumeAlike src a) (λ b. All (ResumeAlike src b) cs)
      (λ b. All (ResumeAlike src b) (a ∷ cs)) bs (λ b r rs. (ResumeAlike-sym src a b r, rs)) h k

behind_front :
    (src : List ℕ) (a : Clause) (bs cs : List Clause)
    → All (λ b. All (ResumeAlike src b) (a ∷ cs)) bs
    → All (λ b. All (ResumeAlike src b) cs) bs
behind_front src a bs cs h =
    All-map (λ b. All (ResumeAlike src b) (a ∷ cs)) (λ b. All (ResumeAlike src b) cs) bs
      (λ b rs. rs.1) h

LaterAgree-Agree : (src : List ℕ) (cs : List Clause) → LaterAgree src cs → Agree src cs
LaterAgree-Agree src [] h = tt
LaterAgree-Agree src (a ∷ cs) (h, hs) =
    let mine = AgreesWith-ResumeAlike src a cs h in
    ((ResumeAlike-refl src a, mine), in_front src a cs cs mine (LaterAgree-Agree src cs hs))

Agree-LaterAgree : (src : List ℕ) (cs : List Clause) → Agree src cs → LaterAgree src cs
Agree-LaterAgree src [] h = tt
Agree-LaterAgree src (a ∷ cs) ((r, mine), rest) = (
  elim (Bool-cases (passed_over a)) [ inl z ↦ inl z | inr z ↦ inr (none_differ src a cs z mine) ],
  Agree-LaterAgree src cs (behind_front src a cs cs rest),
)

-- `check_kind_agreement` has nothing to report of a handler exactly if every two of its clauses that are
-- neither of kind 2, a value clause, nor of kind 3, a baton, and that the text spells alike, are
-- both of kind 0, which is plain, or both of another one.
pub disagreements-iff-Agree :
    (src : List ℕ) (cs : List Clause) → (disagreements src [] cs ≡ []) ↔ Agree src cs
disagreements-iff-Agree src cs =
    let (to, from) = disagreements-iff-LaterAgree src cs in
    (λ h. LaterAgree-Agree src cs (to h), λ h. from (Agree-LaterAgree src cs h))
