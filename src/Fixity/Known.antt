-- ===== src/Fixity/Known.antt =====
-- grammar/c/wok_resolve.c: which names stand in the table.
use wokml.Prelude.{
  ℕ, ◌+◌, ◌≡◌, inl, inr, refl, ap, ◌∙◌, Bool, true, false, ◌||◌, some, List, set, Bool-cases,
  Option-cases, arith,
}
use wokml.Ast.{WokSpan}
use wokml.Reorder.{Ro, WokFixOp, span_eq, find_from}
use wokml.Fixity.Index.{name_at}
use wokml.Fixity.Insert.{grown}
use wokml.Fixity.First.{
  found_op, is_found, known, found_op_alike, found_op-grown, find_from-found_op, found_op-set,
}

pub or_true : (b : Bool) → (b || true) ≡ true
or_true true = refl
or_true false = refl

pub or_false : (b : Bool) → (b || false) ≡ b
or_false true = refl
or_false false = refl

pub or_swap : (a b c d : Bool) → (((a || b) || c) || d) ≡ (a || ((b || c) || d))
or_swap true b c d = refl
or_swap false b c d = refl

pub or_assoc : (a b c : Bool) → ((a || b) || c) ≡ (a || (b || c))
or_assoc true b c = refl
or_assoc false b c = refl

from_start : (i : ℕ) → some i ≡ some (0 + i)
from_start i = ap (λ v. some v) (omega arith)

pub known-grown :
    (ro : Ro) (ops : List WokFixOp) (op : WokFixOp) (name : WokSpan)
    → known ro (grown ops op) name ≡ (known ro ops name || span_eq ro name op.name)
known-grown ro ops op name =
    ap (λ o. is_found o) (found_op-grown ro name ops op)
    ∙ elim (Option-cases (found_op ro name ops)) [
      | inr (x, z) ↦ rw z refl
      | inl z ↦ elim (Bool-cases (span_eq ro name op.name)) [
        | inl y ↦ rw (z, y) refl
        | inr y ↦ rw (z, y) refl
      ]
    ]

-- A name that is found is known under each of its spans.
pub known-found :
    (ro : Ro) (ops : List WokFixOp) (at name : WokSpan) (i : ℕ)
    → find_from ro at 0 ops ≡ some i
    → known ro ops name ≡ (known ro ops name || span_eq ro name at)
known-found ro ops at name i e = elim (Bool-cases (span_eq ro name at)) [
  | inr y ↦ rw (y, or_false (known ro ops name)) refl
  | inl y ↦
      rw (y, found_op_alike ro name at ops y, find_from-found_op ro at 0 i ops (e ∙ from_start i))
        refl
]

pub known-set :
    (ro : Ro) (ops : List WokFixOp) (at name : WokSpan) (i : ℕ) (op : WokFixOp)
    → find_from ro at 0 ops ≡ some i
    → op.name ≡ name_at ops i
    → known ro (set ops i op) name ≡ (known ro ops name || span_eq ro name at)
known-set ro ops at name i op e same =
    ap (λ o. is_found o) (found_op-set ro name at 0 i ops op (e ∙ from_start i) same)
    ∙ elim (Bool-cases (span_eq ro name at)) [
      | inl y ↦ rw (y, or_true (known ro ops name)) refl
      | inr y ↦ rw (y, or_false (known ro ops name)) refl
    ]
