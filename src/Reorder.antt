-- ===== src/Reorder.antt =====
-- grammar/c/wok_reorder.c and the fixity table of grammar/c/wok_resolve.h: the pass that nests a flat
-- chain of operators by their precedence.
-- `none` is a read of a slot as another member of its union, which the schema rules out. A node comes
-- with a flag that says whether it is another node than the one that was visited, which the source
-- reads off the pointers.
pub mod Compare
pub mod Under
pub mod Loosest
pub mod Chain
pub mod Walk
pub mod Slots
pub mod Typed
mod Tests
use Prim.Native.Nat.{◌^◌}
use wokml.Prelude.{
  ℕ, zero, suc, ◌+◌, ◌-◌, ◌*◌, ◌/◌, ◌%◌, ◌≡◌, Bool, true, false, not, ◌&&◌, ◌||◌, Option, none,
  some, List, [], ◌∷◌, ltb, leb, ◌==◌, if◌then◌else◌, length, get_or, take, drop, ◌>>=◌,
}
use wokml.Ast.{
  WokSpan, WokNode, node, WokSlots, no_slots, slot, WokSlot, of_node, null, of_seq, of_span, of_num,
  of_flag, WokSeq, empty, item, tag_of, off_of, len_of,
}
use wokml.Token.Words.{same_bytes}
use wokml.Ast.Schema.{WokTag, e_chain, h_chain_op}
use wokml.Diag.{WokDiagSink, diag_add, e_fixity, message}
use wokml.Diag.Position.{position}

pub record WokFixOp : Type 0 where
  pub name : WokSpan
  pub assoc : ℕ
  pub decl_off : ℕ

pub record WokFixTable : Type 0 where
  pub ops : List WokFixOp
  pub edge : List ℕ
  pub words : ℕ

-- `RO`, less the sink, which each function takes and returns.
pub record Ro : Type 0 where
  pub fix : WokFixTable
  pub src : List ℕ

abbrev pub text_at : Ro → WokSpan → List ℕ
text_at ro s = take s.len (drop s.off ro.src)

unfoldable pub span_eq : Ro → (a b : WokSpan) → Bool
span_eq ro a b = a.len == b.len && same_bytes (text_at ro a) (text_at ro b)

-- `fix_find` from entry `i` on.
unfoldable pub find_from : Ro → WokSpan → ℕ → List WokFixOp → Option ℕ
find_from ro name i [] = none
find_from ro name i (op ∷ ops) =
    let rest = find_from ro name (i + 1) ops in if span_eq ro name op.name then some i else rest

abbrev pub fix_find : Ro → WokSpan → Option ℕ
fix_find ro name = find_from ro name 0 ro.fix.ops

unfoldable pub fix_tighter : Ro → (i j : ℕ) → Bool
fix_tighter ro i j = not (get_or ro.fix.edge (i * ro.fix.words + j / 64) 0 / 2 ^ (j % 64) % 2 == 0)

pub record Tail : Type 0 where
  pub name : WokSpan
  pub backtick : Bool
  pub rhs : WokNode
  pub fix_idx : ℕ

pub data Order : Type 0 where
  ord_tighter ord_looser ord_equal ord_incomparable : Order

unfoldable pub compare_ops : Ro → (a b : Tail) → Order
compare_ops ro a b =
    if span_eq ro a.name b.name
    then ord_equal
    else if fix_tighter ro a.fix_idx b.fix_idx
    then ord_tighter
    else if fix_tighter ro b.fix_idx a.fix_idx
    then ord_looser
    else ord_incomparable

abbrev pub diag_undeclared : WokDiagSink → WokSpan → WokDiagSink
diag_undeclared d name = diag_add d e_fixity name.off name.len (
    message
      "`%.*s` has no `fixity` declaration; reorder mode cannot place it in a chain without one"
      (name.len ∷ name.off ∷ []))

abbrev diag_neighbour_only : WokDiagSink → WokSpan → WokDiagSink
diag_neighbour_only d name = diag_add d e_fixity name.off name.len (
    message
      "`%.*s` is named only as another operator's neighbour and has no `fixity` declaration of its own"
      (name.len ∷ name.off ∷ []))

-- `check_neighbours`, with the verdict.
unfoldable pub check_neighbours : List WokFixOp → WokDiagSink → Bool × WokDiagSink
check_neighbours [] d = (true, d)
check_neighbours (op ∷ ops) d =
    let declared = check_neighbours ops d in
    let reported = check_neighbours ops (diag_neighbour_only d op.name) in
    if op.decl_off == 4294967295 then (false, reported.1) else declared

abbrev diag_incomparable : WokDiagSink → (best cur : WokSpan) → WokDiagSink
diag_incomparable d best cur =
    let (bl, bc, d1) = position d best.off in
    let (cl, cc, d2) = position d1 cur.off in
    diag_add d2 e_fixity cur.off cur.len (
      message
        "`%.*s` (%u:%u) and `%.*s` (%u:%u) have no declared order: bracket the chain, or relate them with `tighter than`"
        (best.len ∷ best.off ∷ bl ∷ bc ∷ cur.len ∷ cur.off ∷ cl ∷ cc ∷ []))

abbrev nobody : WokFixOp
nobody = record { name = record { off = 0; len = 0 }; assoc = 0; decl_off = 0 }

-- The declared associativity of an operator, WOK_ASSOC_LEFT or WOK_ASSOC_RIGHT.
abbrev pub assoc_at : Ro → (fix_idx : ℕ) → ℕ
assoc_at ro i = (get_or ro.fix.ops i nobody).assoc

abbrev pub assoc_left : ℕ
assoc_left = 0

-- The loop of `find_loosest`, at occurrence `i`, with the loosest so far and its place.
unfoldable pub find_loop :
    Ro → (best : ℕ) → (loosest : Tail) → (i : ℕ) → List Tail → WokDiagSink → Option ℕ × WokDiagSink
find_loop ro best b i [] d = (some best, d)
find_loop ro best b i (t ∷ ts) d =
    let stands = find_loop ro best b (i + 1) ts d in
    let moves = find_loop ro i t (i + 1) ts d in
    elim (compare_ops ro t b) [
      | ord_tighter ↦ stands
      | ord_looser ↦ moves
      | ord_equal ↦ if assoc_at ro b.fix_idx == assoc_left then moves else stands
      | ord_incomparable ↦ (none, diag_incomparable d b.name t.name)
    ]

unfoldable pub find_loosest : Ro → List Tail → WokDiagSink → Option ℕ × WokDiagSink
find_loosest ro [] d = (some 0, d)
find_loosest ro (t ∷ ts) d = find_loop ro 0 t 1 ts d

-- The difference of two 32-bit offsets.
abbrev pub u32_minus : ℕ → ℕ → ℕ
u32_minus a b = (a + 4294967296 - b) % 4294967296

unfoldable pub combine_infix : (lhs : WokNode) → Tail → (rhs : WokNode) → WokNode
combine_infix lhs t rhs =
    let start = off_of lhs in
    let end = (off_of rhs + len_of rhs) % 4294967296 in
    let opn =
      node h_chain_op t.name.off (u32_minus end t.name.off) 0
        (slot (of_span t.name) (slot (of_flag t.backtick) (slot (of_node rhs) no_slots))) in
    node e_chain start (u32_minus end start) 0
      (slot (of_node lhs) (slot (of_seq (item opn empty)) no_slots))

-- The chain behind its occurrence `idx`, with that occurrence.
unfoldable pub split_at : ℕ → List Tail → Option (Tail × List Tail)
split_at idx [] = none
split_at zero (t ∷ ts) = some (t, ts)
split_at (suc idx) (t ∷ ts) = split_at idx ts

-- What follows the search in `reorder_split`, with its recursive calls.
unfoldable pub at_loosest :
    (again : WokNode → List Tail → WokDiagSink → Option (WokNode × WokDiagSink))
    → WokNode
    → List Tail
    → Option ℕ × WokDiagSink
    → Option (WokNode × WokDiagSink)
at_loosest again h ts (none, d) = some (h, d)
at_loosest again h ts (some idx, d) = do
  (split, after) ← split_at idx ts
  (left, d1) ← again h (take idx ts) d
  (right, d2) ← again split.rhs after d1
  some (combine_infix left split right, d2)

unfoldable pub reorder_split :
    (fuel : ℕ) → Ro → WokNode → List Tail → WokDiagSink → Option (WokNode × WokDiagSink)
reorder_split fuel ro h [] d = some (h, d)
reorder_split zero ro h (t ∷ ts) d = none
reorder_split (suc fuel) ro h (t ∷ ts) d =
    at_loosest (reorder_split fuel ro) h (t ∷ ts) (find_loosest ro (t ∷ ts) d)
