-- ===== src/Reorder/Typed.antt =====
-- grammar/c/wok_reorder.c: the walk keeps what the schema says of a tree.
use wokml.Prelude.{
  ℕ, zero, suc, ◌≡◌, refl, sym, ap, ◌∙◌, subst, Bool, true, false, ◌||◌, Option, none, some,
  some-injective, List, [], ◌∷◌, ◌++◌, ◌==◌, take, length, All, Option-cases, Bool-cases, inl, inr,
  arith, ◌>>=◌, >>=-eq-some,
}
use wokml.Ast.{
  WokSpan, WokNode, node, WokSlots, no_slots, slot, WokSlot, of_node, null, of_seq, of_span, of_num,
  of_flag, WokSeq, empty, item, tag_of, Child, WellTyped, SlotsFit, SlotFits, SeqFits,
}
use wokml.Ast.Schema.{
  WokTag, WokFamily, WokFieldDesc, WokFieldClass, node_field, opt_field, seq_field, name_field,
  text_field, int_field, flag_field, family_of, fields_of, family_index, family_accepts, e_chain,
  fam_chainop,
}
use wokml.Diag.{WokDiagSink}
use wokml.Reorder.{
  Ro, WokFixOp, Tail, fix_find, diag_undeclared, check_neighbours, find_loosest, combine_infix,
  split_at, at_loosest, reorder_split,
}
use wokml.Reorder.Walk.{
  is_chain, chain_op, collected, collect, nest, reorder_chain, rebuilt, base_of, reorder_node,
  reorder_slots, reorder_slot, reorder_seq, reorder,
}
use wokml.Reorder.Compare.{Known}
use wokml.Reorder.Under.{IsOrder}
use wokml.Reorder.Chain.{reorder_split-Nested}
use wokml.Reorder.Slots.{IsExpr, child_expr, is_chain-eq, head_slots, chain_op-Typed}

combine_infix-IsExpr :
    (l : WokNode) (t : Tail) (r : WokNode) → IsExpr l → IsExpr r → IsExpr (combine_infix l t r)
unfolding combine_infix WellTyped fields_of family_of family_accepts family_index
combine_infix-IsExpr l t r el er =
    ((refl, λ e. cc), (el, ((((refl, λ e. cc), (tt, (tt, (er, tt)))), tt), tt)))

abbrev Typed : List Tail → Type 0
Typed = All (λ t. IsExpr t.rhs)

take-Typed : (k : ℕ) (ts : List Tail) → Typed ts → Typed (take k ts)
take-Typed zero ts h = tt
take-Typed (suc k) [] h = tt
take-Typed (suc k) (t ∷ ts) (h, hs) = (h, take-Typed k ts hs)

split_at-Typed :
    (k : ℕ) (ts : List Tail) (s : Tail) (after : List Tail)
    → split_at k ts ≡ some (s, after)
    → Typed ts
    → IsExpr s.rhs × Typed after
unfolding split_at
split_at-Typed k [] s after e h = cc
split_at-Typed zero (t ∷ ts) s after e h =
    let same = some-injective (t, ts) (s, after) e in subst (λ p. IsExpr p.0.rhs × Typed p.1) same h
split_at-Typed (suc k) (t ∷ ts) s after e (h, hs) = split_at-Typed k ts s after e hs

at_loosest-IsExpr :
    (again : WokNode → List Tail → WokDiagSink → Option (WokNode × WokDiagSink))
    → ((h : WokNode) (ts : List Tail) (d : WokDiagSink) (n : WokNode) (d' : WokDiagSink)
        → again h ts d ≡ some (n, d')
        → IsExpr h
        → Typed ts
        → IsExpr n)
    → (h : WokNode) (ts : List Tail) (r : Option ℕ × WokDiagSink) (n : WokNode) (d' : WokDiagSink)
    → at_loosest again h ts r ≡ some (n, d')
    → IsExpr h
    → Typed ts
    → IsExpr n
unfolding at_loosest
at_loosest-IsExpr again ih h ts (none, d) n d' e eh ets =
    subst IsExpr (ap (λ p. p.0) (some-injective (h, d) (n, d') e)) eh
at_loosest-IsExpr again ih h ts (some k, d) n d' e eh ets =
    let ((s, after), e1, f1) = >>=-eq-some (split_at k ts) _ e in
    let ((l, d1), e2, f2) = >>=-eq-some (again h (take k ts) d) _ f1 in
    let ((r, d2), e3, f3) = >>=-eq-some (again s.rhs after d1) _ f2 in
    let (es, ea) = split_at-Typed k ts s after e1 ets in
    let el = ih h (take k ts) d l d1 e2 eh (take-Typed k ts ets) in
    let er = ih s.rhs after d1 r d2 e3 es ea in
    subst IsExpr (ap (λ p. p.0) (some-injective (combine_infix l s r, d2) (n, d') f3))
      (combine_infix-IsExpr l s r el er)

reorder_split-IsExpr :
    (fuel : ℕ) (ro : Ro) (h : WokNode) (ts : List Tail) (d : WokDiagSink) (n : WokNode)
    (d' : WokDiagSink)
    → reorder_split fuel ro h ts d ≡ some (n, d')
    → IsExpr h
    → Typed ts
    → IsExpr n
unfolding reorder_split
reorder_split-IsExpr fuel ro h [] d n d' e eh ets =
    subst IsExpr (ap (λ p. p.0) (some-injective (h, d) (n, d') e)) eh
reorder_split-IsExpr zero ro h (t ∷ ts) d n d' e eh ets = cc
reorder_split-IsExpr (suc fuel) ro h (t ∷ ts) d n d' e eh ets =
    at_loosest-IsExpr (reorder_split fuel ro) (reorder_split-IsExpr fuel ro) h (t ∷ ts)
      (find_loosest ro (t ∷ ts) d) n d' e eh ets

-- What the occurrences of a chain come to: all known to the table, or one that is not.
abbrev Collected : Ro → Option (List Tail) → Type 0
Collected ro none = Unit
Collected ro (some ts) = All (Known ro) ts × Typed ts

collect-eq :
    (ro : Ro) (op : WokNode) (ops : WokSeq) (d : WokDiagSink) (name : WokSpan) (backtick : Bool)
    (rhs : WokNode) (place : Option ℕ)
    → chain_op op ≡ some (name, backtick, rhs)
    → fix_find ro name ≡ place
    → collect ro (item op ops) d ≡ collected name backtick rhs d place (collect ro ops d)
unfolding collect
collect-eq ro op ops d name backtick rhs place e f =
    rw e (ap (λ p. collected name backtick rhs d p (collect ro ops d)) f)

collect-Typed :
    (ro : Ro) (ops : WokSeq) (d : WokDiagSink)
    → SeqFits fam_chainop ops
    → (r : Option (List Tail)) × (d' : WokDiagSink) × (collect ro ops d ≡ some (r, d'))
      × Collected ro r
unfolding collect collected WellTyped
collect-Typed ro empty d fits = (some [], d, refl, (tt, tt))
collect-Typed ro (item op ops) d ((child, typed), fits) =
    let (name, backtick, rhs, e, x) = chain_op-Typed op child typed in
    let (rest, d1, f, c) = collect-Typed ro ops d fits in
    elim (Option-cases (fix_find ro name)) [
      | inl z ↦
          (none, diag_undeclared d name, collect-eq ro op ops d name backtick rhs none e z, tt)
      | inr (idx, z) ↦
          let t : Tail = record { name = name; backtick = backtick; rhs = rhs; fix_idx = idx } in
          (
            rest >>= (λ ts. some (t ∷ ts)),
            d1,
            collect-eq ro op ops d name backtick rhs (some idx) e z
                ∙ ap (collected name backtick rhs d (some idx)) f,
            grow t rest z x c,
          )
    ]
  where
    grow :
        (t : Tail) (rest : Option (List Tail))
        → Known ro t
        → IsExpr t.rhs
        → Collected ro rest
        → Collected ro (rest >>= (λ ts. some (t ∷ ts)))
    grow t none k x c = tt
    grow t (some ts) k x (ks, xs) = ((k, ks), (x, xs))

Child-same :
    (want : WokFamily) (n r : WokNode)
    → family_of (tag_of r) ≡ family_of (tag_of n)
    → Child want (tag_of n)
    → Child want (tag_of r)
Child-same want n r e (a, ne) = (rw e a, λ z. ne (sym e ∙ z))

-- What the pass makes of a node or of a part of one.
abbrev Kept : WokNode → WokNode → Type 0
Kept n r = WellTyped r × (family_of (tag_of r) ≡ family_of (tag_of n))

module _ (ro : Ro) (order : IsOrder ro) where
  nest-Kept :
      (off len tr : ℕ) (slots : WokSlots) (h : WokNode) (r : Option (List Tail)) (d : WokDiagSink)
      → WellTyped (node e_chain off len tr slots)
      → IsExpr h
      → Collected ro r
      → (moved : Bool) × (m : WokNode) × (d' : WokDiagSink) × (nest ro
            (node e_chain off len tr slots)
            h
            (r, d)
          ≡ some (moved, m, d'))
        × Kept (node e_chain off len tr slots) m
  unfolding nest family_of
  nest-Kept off len tr slots h none d typed x c =
      (false, node e_chain off len tr slots, d, refl, (typed, refl))
  nest-Kept off len tr slots h (some ts) d typed x (known, ets) =
      let (m, d1, e, o) = reorder_split-Nested (length ts) ro h ts d order known (omega arith) in
      let ((a, ne), wt) = reorder_split-IsExpr (length ts) ro h ts d m d1 e x ets in
      (true, m, d1, rw e refl, (wt, child_expr (family_of (tag_of m)) a ne))

  chain-Kept :
      (off len tr : ℕ) (slots : WokSlots) (d : WokDiagSink)
      → WellTyped (node e_chain off len tr slots)
      → (moved : Bool) × (m : WokNode) × (d' : WokDiagSink) × (reorder_chain ro
            (node e_chain off len tr slots)
            d
          ≡ some (moved, m, d'))
        × Kept (node e_chain off len tr slots) m
  unfolding reorder_chain WellTyped
  chain-Kept off len tr slots d typed =
      let (h, ops, e, x, fits) = head_slots slots typed in
      let (r, d1, f, c) = collect-Typed ro ops d fits in
      let (moved, m, d2, g, k) = nest-Kept off len tr slots h r d1 typed x c in
      (moved, m, d2, rw (e, f) g, k)

  rebuilt-Kept :
      (fresh chain : Bool) (tag : WokTag) (off len tr : ℕ) (slots : WokSlots) (d : WokDiagSink)
      → is_chain tag ≡ chain
      → WellTyped (node tag off len tr slots)
      → (moved : Bool) × (m : WokNode) × (d' : WokDiagSink) × (rebuilt ro fresh chain
            (node tag off len tr slots)
            d
          ≡ some (moved, m, d'))
        × Kept (node tag off len tr slots) m
  unfolding rebuilt
  rebuilt-Kept fresh false tag off len tr slots d e typed =
      (fresh, node tag off len tr slots, d, refl, (typed, refl))
  rebuilt-Kept fresh true tag off len tr slots d e typed =
      let k = is_chain-eq tag e in
      let (moved, m, d1, f, w) =
        chain-Kept off len tr slots d (subst (λ t. WellTyped (node t off len tr slots)) k typed) in
      (
        fresh || moved,
        m,
        d1,
        subst
            (λ t. rebuilt ro fresh true (node t off len tr slots) d ≡ some (fresh || moved, m, d1))
            (sym k) (rw f refl),
        (w.0, w.1 ∙ ap family_of (sym k)),
      )

  base-Kept :
      (fresh : Bool) (tag : WokTag) (off len tr : ℕ) (old new : WokSlots) (d : WokDiagSink)
      → WellTyped (node tag off len tr old)
      → WellTyped (node tag off len 0 new)
      → (moved : Bool) × (m : WokNode) × (d' : WokDiagSink) × (rebuilt ro fresh
            (is_chain tag)
            (base_of fresh tag off len tr old new)
            d
          ≡ some (moved, m, d'))
        × Kept (node tag off len tr old) m
  base-Kept true tag off len tr old new d a b =
      rebuilt-Kept true (is_chain tag) tag off len 0 new d refl b
  base-Kept false tag off len tr old new d a b =
      rebuilt-Kept false (is_chain tag) tag off len tr old d refl a

module _ (ro : Ro) (order : IsOrder ro) where
  mutual
    unfolding WellTyped reorder_node

    pub reorder_node-Typed :
        (n : WokNode) (d : WokDiagSink)
        → WellTyped n
        → (moved : Bool) × (r : WokNode) × (d' : WokDiagSink) × (reorder_node ro n d
            ≡ some (moved, r, d'))
          × WellTyped r
          × (family_of (tag_of r) ≡ family_of (tag_of n))
    reorder_node-Typed (node tag off len tr slots) d typed =
        let (fresh, slots1, d1, e, fits) = reorder_slots-Typed (fields_of tag) slots d typed in
        let (moved, r, d2, f, k) =
          base-Kept ro order fresh tag off len tr slots slots1 d1 typed fits in
        (moved, r, d2, rw e f, k.0, k.1)

    reorder_slots-Typed :
        (fs : List WokFieldDesc) (ss : WokSlots) (d : WokDiagSink)
        → SlotsFit fs ss
        → (fresh : Bool) × (ss1 : WokSlots) × (d' : WokDiagSink) × (reorder_slots ro ss d
            ≡ some (fresh, ss1, d'))
          × SlotsFit fs ss1
    reorder_slots-Typed [] no_slots d fits = (false, no_slots, d, refl, tt)
    reorder_slots-Typed [] (slot s ss) d fits = absurd fits
    reorder_slots-Typed (f ∷ fs) no_slots d fits = absurd fits
    reorder_slots-Typed (f ∷ fs) (slot s ss) d (fit, fits) =
        let (a, s1, d1, e, fit1) = reorder_slot-Typed f.cls f.family s d fit in
        let (b, ss1, d2, g, fits1) = reorder_slots-Typed fs ss d1 fits in
        (a || b, slot s1 ss1, d2, rw (e, g) refl, (fit1, fits1))

    reorder_slot-Typed :
        (cls : WokFieldClass) (want : WokFamily) (s : WokSlot) (d : WokDiagSink)
        → SlotFits cls want s
        → (fresh : Bool) × (s1 : WokSlot) × (d' : WokDiagSink) × (reorder_slot ro s d
            ≡ some (fresh, s1, d'))
          × SlotFits cls want s1
    reorder_slot-Typed node_field want (of_node n) d (child, typed) =
        let (f, n1, d1, e, typed1, same) = reorder_node-Typed n d typed in
        (f, of_node n1, d1, rw e refl, (Child-same want n n1 same child, typed1))
    reorder_slot-Typed node_field want null d fits = absurd fits
    reorder_slot-Typed node_field want (of_seq q) d fits = absurd fits
    reorder_slot-Typed node_field want (of_span s) d fits = absurd fits
    reorder_slot-Typed node_field want (of_num k) d fits = absurd fits
    reorder_slot-Typed node_field want (of_flag b) d fits = absurd fits
    reorder_slot-Typed opt_field want (of_node n) d (child, typed) =
        let (f, n1, d1, e, typed1, same) = reorder_node-Typed n d typed in
        (f, of_node n1, d1, rw e refl, (Child-same want n n1 same child, typed1))
    reorder_slot-Typed opt_field want null d fits = (false, null, d, refl, tt)
    reorder_slot-Typed opt_field want (of_seq q) d fits = absurd fits
    reorder_slot-Typed opt_field want (of_span s) d fits = absurd fits
    reorder_slot-Typed opt_field want (of_num k) d fits = absurd fits
    reorder_slot-Typed opt_field want (of_flag b) d fits = absurd fits
    reorder_slot-Typed seq_field want (of_node n) d fits = absurd fits
    reorder_slot-Typed seq_field want null d fits = absurd fits
    reorder_slot-Typed seq_field want (of_seq q) d fits =
        let (f, q1, d1, e, fits1) = reorder_seq-Typed want q d fits in
        (f, of_seq q1, d1, rw e refl, fits1)
    reorder_slot-Typed seq_field want (of_span s) d fits = absurd fits
    reorder_slot-Typed seq_field want (of_num k) d fits = absurd fits
    reorder_slot-Typed seq_field want (of_flag b) d fits = absurd fits
    reorder_slot-Typed name_field want (of_node n) d fits = absurd fits
    reorder_slot-Typed name_field want null d fits = absurd fits
    reorder_slot-Typed name_field want (of_seq q) d fits = absurd fits
    reorder_slot-Typed name_field want (of_span s) d fits = (false, (of_span s), d, refl, tt)
    reorder_slot-Typed name_field want (of_num k) d fits = absurd fits
    reorder_slot-Typed name_field want (of_flag b) d fits = absurd fits
    reorder_slot-Typed text_field want (of_node n) d fits = absurd fits
    reorder_slot-Typed text_field want null d fits = absurd fits
    reorder_slot-Typed text_field want (of_seq q) d fits = absurd fits
    reorder_slot-Typed text_field want (of_span s) d fits = (false, (of_span s), d, refl, tt)
    reorder_slot-Typed text_field want (of_num k) d fits = absurd fits
    reorder_slot-Typed text_field want (of_flag b) d fits = absurd fits
    reorder_slot-Typed int_field want (of_node n) d fits = absurd fits
    reorder_slot-Typed int_field want null d fits = absurd fits
    reorder_slot-Typed int_field want (of_seq q) d fits = absurd fits
    reorder_slot-Typed int_field want (of_span s) d fits = absurd fits
    reorder_slot-Typed int_field want (of_num k) d fits = (false, (of_num k), d, refl, tt)
    reorder_slot-Typed int_field want (of_flag b) d fits = absurd fits
    reorder_slot-Typed flag_field want (of_node n) d fits = absurd fits
    reorder_slot-Typed flag_field want null d fits = absurd fits
    reorder_slot-Typed flag_field want (of_seq q) d fits = absurd fits
    reorder_slot-Typed flag_field want (of_span s) d fits = absurd fits
    reorder_slot-Typed flag_field want (of_num k) d fits = absurd fits
    reorder_slot-Typed flag_field want (of_flag b) d fits = (false, (of_flag b), d, refl, tt)

    reorder_seq-Typed :
        (want : WokFamily) (q : WokSeq) (d : WokDiagSink)
        → SeqFits want q
        → (fresh : Bool) × (q1 : WokSeq) × (d' : WokDiagSink) × (reorder_seq ro q d
            ≡ some (fresh, q1, d'))
          × SeqFits want q1
    reorder_seq-Typed want empty d fits = (false, empty, d, refl, tt)
    reorder_seq-Typed want (item n q) d ((child, typed), fits) =
        let (a, n1, d1, e, typed1, same) = reorder_node-Typed n d typed in
        let (b, q1, d2, g, fits1) = reorder_seq-Typed want q d1 fits in
        (a || b, item n1 q1, d2, rw (e, g) refl, ((Child-same want n n1 same child, typed1), fits1))

-- For a fixity table that is a strict order and a tree without damage that fits the schema, `reorder`
-- returns. What it returns fits the schema as well, and is of the family of what it was given.
pub reorder-WellTyped :
    (ro : Ro) (file : WokNode) (d : WokDiagSink)
    → IsOrder ro
    → WellTyped file
    → (r : WokNode) × (d' : WokDiagSink) × (reorder ro file d ≡ some (r, d'))
      × WellTyped r
      × (family_of (tag_of r) ≡ family_of (tag_of file))
unfolding reorder
reorder-WellTyped ro file d order typed =
    let verdict = check_neighbours ro.fix.ops d in
    elim (Bool-cases verdict.0) [
      | inl z ↦
          let (moved, r, d2, e, w, same) = reorder_node-Typed ro order file verdict.1 typed in
          (r, d2, rw (z, e) refl, w, same)
      | inr z ↦ (file, verdict.1, rw z refl, typed, refl)
    ]

check_neighbours-false :
    (xs : List WokFixOp) (op : WokFixOp) (ys : List WokFixOp) (d : WokDiagSink)
    → op.decl_off ≡ 4294967295
    → (check_neighbours (xs ++ (op ∷ ys)) d).0 ≡ false
unfolding check_neighbours
check_neighbours-false [] op ys d e = rw e refl
check_neighbours-false (x ∷ xs) op ys d e = elim (Bool-cases (x.decl_off == 4294967295)) [
  | inl z ↦ rw z refl
  | inr z ↦ rw z (check_neighbours-false xs op ys d e)
]

-- A fixity table with an operator that only another one's declaration names: `reorder` returns the
-- tree that it was given, whatever the tree is.
pub reorder-undeclared :
    (ro : Ro) (xs : List WokFixOp) (op : WokFixOp) (ys : List WokFixOp) (file : WokNode)
    (d : WokDiagSink)
    → ro.fix.ops ≡ xs ++ (op ∷ ys)
    → op.decl_off ≡ 4294967295
    → reorder ro file d ≡ some (file, (check_neighbours ro.fix.ops d).1)
unfolding reorder
reorder-undeclared ro xs op ys file d e m =
    let z : (check_neighbours ro.fix.ops d).0 ≡ false =
      ap (λ l. (check_neighbours l d).0) e ∙ check_neighbours-false xs op ys d m in
    rw z refl
