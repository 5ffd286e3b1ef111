-- ===== src/Fixity/First.antt =====
-- grammar/c/wok_resolve.c: of the declarations of an operator the first one counts.
use wokml.Prelude.{
  ℕ, zero, suc, ◌+◌, ◌≡◌, inl, inr, refl, sym, ap, ◌∙◌, Bool, true, false, not, ◌&&◌, ◌||◌, Option,
  none, some, some-injective, List, [], ◌∷◌, ◌==◌, if◌then◌else◌, get_or, set, Bool-cases, arith,
  ◌>>=◌,
}
use wokml.Ast.{WokSpan}
use wokml.Reorder.{Ro, WokFixOp, span_eq, find_from}
use wokml.Fixity.{u32_max, FixRel, FixityDecl, nobody}
use wokml.Fixity.Index.{find_from_hit, span_eq_sym, span_eq_trans, name_at}
use wokml.Fixity.Insert.{grown}

-- The first operator of a name.
unfoldable pub found_op : Ro → WokSpan → List WokFixOp → Option WokFixOp
found_op ro name [] = none
found_op ro name (op ∷ ops) =
    let rest = found_op ro name ops in if span_eq ro name op.name then some op else rest

abbrev pub is_found : {A : Type 0} → Option A → Bool
is_found none = false
is_found (some x) = true

-- The associativity and the place that an operator declares, if it is no mere neighbour.
abbrev pub settled : WokFixOp → Option (ℕ × ℕ)
settled op = if op.decl_off == u32_max then none else some (op.assoc, op.decl_off)

abbrev pub verdict : Ro → List WokFixOp → WokSpan → Option (ℕ × ℕ)
verdict ro ops name = found_op ro name ops >>= settled

-- The first declaration of an operator.
unfoldable pub first_decl : Ro → WokSpan → List FixityDecl → Option FixityDecl
first_decl ro name [] = none
first_decl ro name (decl ∷ decls) =
    let rest = first_decl ro name decls in if span_eq ro name decl.name then some decl else rest

abbrev pub decl_verdict : Ro → WokSpan → List FixityDecl → Option (ℕ × ℕ)
decl_verdict ro name decls = first_decl ro name decls >>= λ decl. some (decl.assoc, decl.name.off)

-- Some operator of the list has the name.
abbrev pub known : Ro → List WokFixOp → WokSpan → Bool
known ro ops name = is_found (found_op ro name ops)

-- A declaration names its operator and the neighbours of it.
unfoldable pub in_rels : Ro → WokSpan → List FixRel → Bool
in_rels ro name [] = false
in_rels ro name (r ∷ rs) = span_eq ro name r.name || in_rels ro name rs

abbrev pub mentions : Ro → WokSpan → FixityDecl → Bool
mentions ro name decl = span_eq ro name decl.name || in_rels ro name decl.rels

-- The name is in a declaration whose operator is not `declared` and has no declaration before it.
unfoldable pub named : Ro → (declared : WokSpan → Bool) → List FixityDecl → WokSpan → Bool
named ro declared [] name = false
named ro declared (decl ∷ decls) name =
    (not (declared decl.name) && mentions ro name decl)
    || named ro (λ x. declared x || span_eq ro x decl.name) decls name

abbrev pub or_else : {A : Type 0} → Option A → Option A → Option A
or_else none y = y
or_else (some x) y = some x

pub span_eq_alike :
    (ro : Ro) (a b c : WokSpan) → span_eq ro a b ≡ true → span_eq ro a c ≡ span_eq ro b c
span_eq_alike ro a b c h = elim (Bool-cases (span_eq ro b c)) [
  | inl z ↦ span_eq_trans ro a b c h z ∙ sym z
  | inr z ↦ elim (Bool-cases (span_eq ro a c)) [
    | inl y ↦ let w = span_eq_trans ro b a c (span_eq_sym ro a b h) y in cc
    | inr y ↦ y ∙ sym z
  ]
]

span_eq_commutes : (ro : Ro) (a b : WokSpan) → span_eq ro a b ≡ span_eq ro b a
span_eq_commutes ro a b = elim (Bool-cases (span_eq ro a b)) [
  | inl z ↦ z ∙ sym (span_eq_sym ro a b z)
  | inr z ↦ elim (Bool-cases (span_eq ro b a)) [
    | inl y ↦ let w = span_eq_sym ro b a y in cc
    | inr y ↦ z ∙ sym y
  ]
]

span_eq_alike_right :
    (ro : Ro) (a b c : WokSpan) → span_eq ro a b ≡ true → span_eq ro c a ≡ span_eq ro c b
span_eq_alike_right ro a b c h =
    span_eq_commutes ro c a ∙ span_eq_alike ro a b c h ∙ span_eq_commutes ro b c

pub found_op_alike :
    (ro : Ro) (a b : WokSpan) (ops : List WokFixOp)
    → span_eq ro a b ≡ true
    → found_op ro a ops ≡ found_op ro b ops
unfolding found_op
found_op_alike ro a b [] h = refl
found_op_alike ro a b (op ∷ ops) h =
    rw (span_eq_alike ro a b op.name h, found_op_alike ro a b ops h) refl

pub found_op-grown :
    (ro : Ro) (a : WokSpan) (ops : List WokFixOp) (op : WokFixOp)
    → found_op ro a (grown ops op)
      ≡ or_else (found_op ro a ops) (if span_eq ro a op.name then some op else none)
unfolding found_op
found_op-grown ro a [] op = refl
found_op-grown ro a (o ∷ ops) op = elim (Bool-cases (span_eq ro a o.name)) [
  | inl z ↦ rw z refl
  | inr z ↦ rw z (found_op-grown ro a ops op)
]

-- A search that finds a place finds the operator there, and one that finds none finds none.
pub find_from-found_op :
    (ro : Ro) (a : WokSpan) (i j : ℕ) (ops : List WokFixOp)
    → find_from ro a i ops ≡ some (i + j)
    → found_op ro a ops ≡ some (get_or ops j nobody)
unfolding find_from found_op
find_from-found_op ro a i j [] h = cc
find_from-found_op ro a i zero (op ∷ ops) h = elim (Bool-cases (span_eq ro a op.name)) [
  | inl z ↦ rw z refl
  | inr z ↦
      let (k, e, l, m) = find_from_hit ro a (i + 1) (i + 0) ops (rw z at h) in absurd (omega arith)
]
find_from-found_op ro a i (suc j) (op ∷ ops) h = elim (Bool-cases (span_eq ro a op.name)) [
  | inl z ↦ let e : i ≡ i + suc j = some-injective i (i + suc j) (rw z at h) in absurd (omega arith)
  | inr z ↦
      rw z (find_from-found_op ro a (i + 1) j ops ((rw z at h) ∙ ap (λ v. some v) (omega arith)))
]

pub find_from-found_op-none :
    (ro : Ro) (a : WokSpan) (i : ℕ) (ops : List WokFixOp)
    → find_from ro a i ops ≡ none
    → found_op ro a ops ≡ none
unfolding find_from found_op
find_from-found_op-none ro a i [] h = refl
find_from-found_op-none ro a i (op ∷ ops) h = elim (Bool-cases (span_eq ro a op.name)) [
  | inl z ↦ let e = rw z at h in cc
  | inr z ↦ rw z (find_from-found_op-none ro a (i + 1) ops (rw z at h))
]

-- An operator that is changed, but not its name, at the first place of a name.
pub found_op-set :
    (ro : Ro) (a b : WokSpan) (i j : ℕ) (ops : List WokFixOp) (op : WokFixOp)
    → find_from ro b i ops ≡ some (i + j)
    → op.name ≡ name_at ops j
    → found_op ro a (set ops j op) ≡ (if span_eq ro a b then some op else found_op ro a ops)
unfolding find_from found_op
found_op-set ro a b i j [] op h n = cc
found_op-set ro a b i zero (o ∷ ops) op h n = elim (Bool-cases (span_eq ro b o.name)) [
  | inl z ↦
      let same : span_eq ro a o.name ≡ span_eq ro a b =
        span_eq_alike_right ro o.name b a (span_eq_sym ro b o.name z) in
      elim (Bool-cases (span_eq ro a b)) [
        | inl y ↦ rw (n, same, y) refl
        | inr y ↦ rw (n, same, y) refl
      ]
  | inr z ↦
      let (k, e, l, m) = find_from_hit ro b (i + 1) (i + 0) ops (rw z at h) in absurd (omega arith)
]
found_op-set ro a b i (suc j) (o ∷ ops) op h n = elim (Bool-cases (span_eq ro b o.name)) [
  | inl z ↦ let e : i ≡ i + suc j = some-injective i (i + suc j) (rw z at h) in absurd (omega arith)
  | inr z ↦
      let deeper =
        found_op-set ro a b (i + 1) j ops op ((rw z at h) ∙ ap (λ v. some v) (omega arith)) n in
      elim (Bool-cases (span_eq ro a b)) [
        | inl y ↦
            let miss : span_eq ro a o.name ≡ false = span_eq_alike ro a b o.name y ∙ z in
            rw (miss, y) (deeper ∙ rw y refl)
        | inr y ↦ rw y (ap (λ v. if span_eq ro a o.name then some o else v) (deeper ∙ rw y refl))
      ]
]
