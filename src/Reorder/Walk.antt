-- ===== src/Reorder/Walk.antt =====
-- grammar/c/wok_reorder.c: the walk over the tree.
use wokml.Prelude.{
  ℕ, Bool, true, false, ◌||◌, Option, none, some, List, [], ◌∷◌, length, if◌then◌else◌, ◌>>=◌,
}
use wokml.Ast.{
  WokSpan, WokNode, node, WokSlots, no_slots, slot, WokSlot, of_node, null, of_seq, of_span, of_num,
  of_flag, WokSeq, empty, item,
}
use wokml.Ast.Schema.{WokTag, e_chain, h_chain_op}
use wokml.Diag.{WokDiagSink}
use wokml.Reorder.{Ro, Tail, fix_find, diag_undeclared, check_neighbours, reorder_split}

unfoldable pub is_chain : WokTag → Bool
is_chain e_chain = true
is_chain _ = false

-- `E_Chain_head` and `E_Chain_ops`
unfoldable pub chain_slots : WokSlots → Option (WokNode × WokSeq)
chain_slots (slot (of_node h) (slot (of_seq ops) no_slots)) = some (h, ops)
chain_slots _ = none

-- `H_ChainOp_op`, `H_ChainOp_backtick` and `H_ChainOp_rhs`
unfoldable pub chain_op : WokNode → Option (WokSpan × Bool × WokNode)
chain_op
      (node h_chain_op off len trivia
        (slot (of_span name) (slot (of_flag backtick) (slot (of_node rhs) no_slots)))) =
    some (name, backtick, rhs)
chain_op _ = none

-- One occurrence, with its place in the table and what the later ones come to.
unfoldable pub collected :
    (name : WokSpan) (backtick : Bool) (rhs : WokNode) (d : WokDiagSink)
    → (place : Option ℕ) → (later : Option (Option (List Tail) × WokDiagSink))
    → Option (Option (List Tail) × WokDiagSink)
collected name backtick rhs d none later = some (none, diag_undeclared d name)
collected name backtick rhs d (some idx) later = do
  (rest, d1) ← later
  some (
    rest >>= (λ ts.
        some (record { name = name; backtick = backtick; rhs = rhs; fix_idx = idx } ∷ ts)),
    d1,
  )

-- The occurrences of a chain with their places in the table, up to one that has none.
unfoldable pub collect : Ro → WokSeq → WokDiagSink → Option (Option (List Tail) × WokDiagSink)
collect ro empty d = some (some [], d)
collect ro (item op ops) d =
    let later = collect ro ops d in
    chain_op op
    >>= (λ (name, backtick, rhs). collected name backtick rhs d (fix_find ro name) later)

-- The end of `reorder_chain`: the chain as it was, or the nested one.
unfoldable pub nest :
    Ro → (n h : WokNode) → Option (List Tail) × WokDiagSink → Option (Bool × WokNode × WokDiagSink)
nest ro n h (none, d) = some (false, n, d)
nest ro n h (some ts, d) = do (m, d1) ← reorder_split (length ts) ro h ts d; some (true, m, d1)

unfoldable pub reorder_chain : Ro → WokNode → WokDiagSink → Option (Bool × WokNode × WokDiagSink)
reorder_chain ro (node tag off len trivia slots) d = do
  (h, ops) ← chain_slots slots
  r ← collect ro ops d
  nest ro (node tag off len trivia slots) h r

-- The end of `reorder_node`.
unfoldable pub rebuilt :
    Ro → (fresh chain : Bool) → WokNode → WokDiagSink → Option (Bool × WokNode × WokDiagSink)
rebuilt ro fresh false base d = some (fresh, base, d)
rebuilt ro fresh true base d = do
  (moved, r, d1) ← reorder_chain ro base d
  some (fresh || moved, r, d1)

-- The node that the slots make: a copy without comments when one of them is another one.
abbrev pub base_of : (fresh : Bool) → WokTag → (off len trivia : ℕ) → (old new : WokSlots) → WokNode
base_of fresh tag off len trivia old new =
    if fresh then node tag off len 0 new else node tag off len trivia old

unfoldable mutual
  pub reorder_node : Ro → WokNode → WokDiagSink → Option (Bool × WokNode × WokDiagSink)
  reorder_node ro (node tag off len trivia slots) d = do
    (fresh, slots1, d1) ← reorder_slots ro slots d
    rebuilt ro fresh (is_chain tag) (base_of fresh tag off len trivia slots slots1) d1

  pub reorder_slots : Ro → WokSlots → WokDiagSink → Option (Bool × WokSlots × WokDiagSink)
  reorder_slots ro no_slots d = some (false, no_slots, d)
  reorder_slots ro (slot s ss) d = do
    (f, s1, d1) ← reorder_slot ro s d
    (g, ss1, d2) ← reorder_slots ro ss d1
    some (f || g, slot s1 ss1, d2)

  -- `reorder_child_slot` and `reorder_seq_slot`
  pub reorder_slot : Ro → WokSlot → WokDiagSink → Option (Bool × WokSlot × WokDiagSink)
  reorder_slot ro (of_node n) d = do (f, n1, d1) ← reorder_node ro n d; some (f, of_node n1, d1)
  reorder_slot ro null d = some (false, null, d)
  reorder_slot ro (of_seq q) d = do (f, q1, d1) ← reorder_seq ro q d; some (f, of_seq q1, d1)
  reorder_slot ro (of_span s) d = some (false, of_span s, d)
  reorder_slot ro (of_num n) d = some (false, of_num n, d)
  reorder_slot ro (of_flag b) d = some (false, of_flag b, d)

  pub reorder_seq : Ro → WokSeq → WokDiagSink → Option (Bool × WokSeq × WokDiagSink)
  reorder_seq ro empty d = some (false, empty, d)
  reorder_seq ro (item n q) d = do
    (f, n1, d1) ← reorder_node ro n d
    (g, q1, d2) ← reorder_seq ro q d1
    some (f || g, item n1 q1, d2)

-- `wok_reorder`
unfoldable pub reorder : Ro → (file : WokNode) → WokDiagSink → Option (WokNode × WokDiagSink)
reorder ro file d =
    let (ok, d1) = check_neighbours ro.fix.ops d in
    if ok then (do (moved, r, d2) ← reorder_node ro file d1; some (r, d2)) else some (file, d1)
