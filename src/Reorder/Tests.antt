-- ===== src/Reorder/Tests.antt =====
-- Runs of the pass on `a + b * c`, and on a table with an operator that is not declared.
use wokml.Prelude.{ℕ, zero, suc, ◌≡◌, ◌<◌, refl, true, false, some, [], ◌∷◌, arith}
use wokml.Ast.{
  WokSpan, WokNode, node, no_slots, slot, of_node, of_seq, of_span, of_flag, empty, item, tag_of,
  WellTyped,
}
use wokml.Ast.Schema.{
  e_var, e_chain, h_chain_op, fields_of, family_of, family_accepts, family_index,
}
use wokml.Diag.{WokDiagSink, diag_new}
use wokml.Reorder.{WokFixOp, Ro, Tail, fix_tighter}
use wokml.Reorder.Walk.{reorder}
use wokml.Reorder.Under.{IsOrder}
use wokml.Reorder.Typed.{reorder-WellTyped}

abbrev span_at : (off len : ℕ) → WokSpan
span_at off len = record { off = off; len = len }

abbrev plus : WokFixOp
plus = record { name = span_at 1 1; assoc = 0; decl_off = 0 }

abbrev times : WokFixOp
times = record { name = span_at 3 1; assoc = 0; decl_off = 0 }

-- `a+b*c`, and `*` tighter than `+`.
abbrev sums : Ro
sums = record {
  fix = record { ops = plus ∷ times ∷ []; edge = 0 ∷ 1 ∷ []; words = 1 };
  src = 97 ∷ 43 ∷ 98 ∷ 42 ∷ 99 ∷ [];
}

sums-irreflexive : (i : ℕ) → i < 2 → fix_tighter sums i i ≡ false
unfolding fix_tighter
sums-irreflexive zero lt = refl
sums-irreflexive (suc zero) lt = refl
sums-irreflexive (suc (suc i)) lt = ground arith

sums-transitive :
    (i j k : ℕ)
    → i < 2
    → j < 2
    → k < 2
    → fix_tighter sums i j ≡ true
    → fix_tighter sums j k ≡ true
    → fix_tighter sums i k ≡ true
unfolding fix_tighter
sums-transitive zero zero k li lj lk h g = g
sums-transitive zero (suc zero) k li lj lk h g = cc
sums-transitive (suc zero) zero zero li lj lk h g = refl
sums-transitive (suc zero) zero (suc zero) li lj lk h g = cc
sums-transitive (suc zero) (suc zero) k li lj lk h g = cc
sums-transitive (suc (suc i)) j k li lj lk h g = ground arith
sums-transitive (suc zero) (suc (suc j)) k li lj lk h g = ground arith
sums-transitive zero (suc (suc j)) k li lj lk h g = ground arith
sums-transitive (suc zero) zero (suc (suc k)) li lj lk h g = ground arith

sums-IsOrder : IsOrder sums
sums-IsOrder = record { irreflexive = sums-irreflexive; transitive = sums-transitive }

abbrev var : (off : ℕ) → WokNode
var off = node e_var off 1 0 (slot (of_span (span_at off 1)) no_slots)

abbrev op : (off : ℕ) → WokNode → WokNode
op off rhs =
    node h_chain_op off 2 0
      (slot (of_span (span_at off 1)) (slot (of_flag false) (slot (of_node rhs) no_slots)))

abbrev chain : WokNode
chain = node e_chain 0 5 0 (
    slot (of_node (var 0))
      (slot (of_seq (item (op 1 (var 2)) (item (op 3 (var 4)) empty))) no_slots))

abbrev plus_b : Tail
plus_b = record { name = span_at 1 1; backtick = false; rhs = var 2; fix_idx = 0 }

abbrev times_c : Tail
times_c = record { name = span_at 3 1; backtick = false; rhs = var 4; fix_idx = 1 }

reorder-WellTyped_example :
    (r : WokNode) × (d' : WokDiagSink) × (reorder sums chain (diag_new sums.src) ≡ some (r, d'))
    × WellTyped r
    × (family_of (tag_of r) ≡ family_of e_chain)
unfolding WellTyped fields_of family_of family_accepts family_index
reorder-WellTyped_example = reorder-WellTyped sums chain (diag_new sums.src) sums-IsOrder (
  ((refl, λ e. cc), (tt, tt)),
  (
    (
      ((refl, λ e. cc), (tt, (tt, (((refl, λ e. cc), (tt, tt)), tt)))),
      (((refl, λ e. cc), (tt, (tt, (((refl, λ e. cc), (tt, tt)), tt)))), tt),
    ),
    tt,
  ),
)

abbrev neighbour : WokFixOp
neighbour = record { name = span_at 3 1; assoc = 0; decl_off = 4294967295 }

abbrev half : Ro
half = record {
  fix = record { ops = plus ∷ neighbour ∷ []; edge = 0 ∷ 1 ∷ []; words = 1 };
  src = sums.src;
}
