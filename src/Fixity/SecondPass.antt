-- ===== src/Fixity/SecondPass.antt =====
-- grammar/c/wok_resolve.c: the second pass of `build_fixity` sets the bits that the declarations state.
use wokml.Prelude.{
  ℕ, ◌≡◌, ◌≤◌, ◌<◌, inl, inr, refl, sym, ap, ◌∙◌, subst, Bool, true, false, not, ◌&&◌, ◌||◌, Option,
  none, some, List, [], ◌∷◌, ◌==◌, if◌then◌else◌, length, All, Bool-cases, Option-cases, arith,
  ◌>>=◌,
}
use wokml.Ast.{WokSpan}
use wokml.Reorder.{Ro, WokFixOp, WokFixTable, find_from}
use wokml.Fixity.{u32_max, Names, FixRel, FixityDecl, op_at}
use wokml.Fixity.Table.{
  fix_bit, fix_set, fix_is_winner, fixrel_tighter, add_edge, add_rels, add_decl, add_edges,
}
use wokml.Fixity.Matrix.{IsShaped, fix_set-IsShaped, fix_set_bit}
use wokml.Fixity.Index.{place, find_from_hit}
use wokml.Fixity.Declare.{IsIndexed, find_entry-find_from}
use wokml.Fixity.First.{verdict, decl_verdict, find_from-found_op}

-- One relation of a declaration whose head stands at `head`: the operator at `i` is tighter than the
-- one at `j`.
abbrev pub rel_links : Ro → List WokFixOp → (head : ℕ) → FixRel → (i j : ℕ) → Bool
rel_links ro ops head r i j = elim (find_from ro r.name 0 ops) [
  | none ↦ false
  | some nb ↦ if r.sense == fixrel_tighter then i == head && j == nb else i == nb && j == head
]

unfoldable pub rels_link : Ro → List WokFixOp → (head : ℕ) → List FixRel → (i j : ℕ) → Bool
rels_link ro ops head [] i j = false
rels_link ro ops head (r ∷ rs) i j = rel_links ro ops head r i j || rels_link ro ops head rs i j

abbrev pub declared_at : (off : ℕ) → Option (ℕ × ℕ) → Bool
declared_at off none = false
declared_at off (some (assoc, at)) = at == off

-- A declaration is the first one of its operator.
unfoldable pub wins : Ro → List FixityDecl → FixityDecl → Bool
wins ro decls decl = declared_at decl.name.off (decl_verdict ro decl.name decls)

-- What a declaration that is the first of its operator states.
unfoldable pub decl_links :
    Ro → List WokFixOp → (all : List FixityDecl) → FixityDecl → (i j : ℕ) → Bool
decl_links ro ops all decl i j = elim (find_from ro decl.name 0 ops) [
  | none ↦ false
  | some head ↦ wins ro all decl && rels_link ro ops head decl.rels i j
]

unfoldable pub decls_link : Ro → List WokFixOp → (all decls : List FixityDecl) → (i j : ℕ) → Bool
decls_link ro ops all [] i j = false
decls_link ro ops all (decl ∷ decls) i j =
    decl_links ro ops all decl i j || decls_link ro ops all decls i j

-- Whether a search found a place.
abbrev pub has_place : Option ℕ → Bool
has_place none = false
has_place (some i) = true

or_assoc : (a b c : Bool) → ((a || b) || c) ≡ (a || (b || c))
or_assoc true b c = refl
or_assoc false b c = refl

or_none : (a : Bool) → a ≡ (a || false)
or_none true = refl
or_none false = refl

fix_set_ops : (t : WokFixTable) (i j : ℕ) → (fix_set t i j).ops ≡ t.ops
unfolding fix_set
fix_set_ops t i j = refl

-- A table over the operators `ops` whose bits are `bits`.
pub record HasBits (ops : List WokFixOp) (bits : ℕ → ℕ → Bool) (t : WokFixTable) : Type 0 where
  pub shaped : IsShaped t
  pub same_ops : t.ops ≡ ops
  pub bits_are : (i j : ℕ) → j < length ops → fix_bit t i j ≡ bits i j

module _ (ro : Ro) (cap : ℕ) (st : Names) (h : IsIndexed ro cap st)
    (fit : length st.ops ≤ cap) where
  placed :
      (name : WokSpan) (i : ℕ)
      → find_from ro name 0 st.ops ≡ some i
      → (i < length st.ops) × ((i == u32_max) ≡ false)
  placed name i e =
      let (j, f, p, m) = find_from_hit ro name 0 i st.ops e in
      let tiny = h.tiny in (omega arith, ground arith)

  written :
      (t : WokFixTable) (bits : ℕ → ℕ → Bool) (a c : ℕ)
      → HasBits st.ops bits t
      → a < length st.ops
      → c < length st.ops
      → HasBits st.ops (λ i j. bits i j || (i == a && j == c)) (fix_set t a c)
  written t bits a c b p q =
      let size = ap (λ ops. length ops) b.same_ops in
      record {
        shaped = fix_set-IsShaped t a c b.shaped;
        same_ops = fix_set_ops t a c ∙ b.same_ops;
        bits_are = λ i j l.
            fix_set_bit t a c i j b.shaped (omega arith) (omega arith) (omega arith)
            ∙ ap (λ v. v || (i == a && j == c)) (b.bits_are i j l);
      }

  -- The bits that a table has, spelled another way.
  respelled :
      (bits bits' : ℕ → ℕ → Bool) (t : WokFixTable)
      → HasBits st.ops bits t
      → ((i j : ℕ) → bits i j ≡ bits' i j)
      → HasBits st.ops bits' t
  respelled bits bits' t b e = record {
    shaped = b.shaped;
    same_ops = b.same_ops;
    bits_are = λ i j p. b.bits_are i j p ∙ e i j;
  }

  -- The table after a relation, by what the search for the neighbour gives.
  linked : WokFixTable → (head sense : ℕ) → Option ℕ → WokFixTable
  linked t head sense o = add_edge t head (place o) sense

  linked_none :
      (t : WokFixTable) (bits : ℕ → ℕ → Bool) (head sense : ℕ)
      → HasBits st.ops bits t
      → HasBits st.ops (λ i j. bits i j || false) (linked t head sense none)
  unfolding linked add_edge
  linked_none t bits head sense b =
      respelled bits (λ i j. bits i j || false) t b (λ i j. or_none (bits i j))

  linked_some :
      (t : WokFixTable) (bits : ℕ → ℕ → Bool) (head sense nb : ℕ)
      → HasBits st.ops bits t
      → head < length st.ops
      → nb < length st.ops
      → (nb == u32_max) ≡ false
      → HasBits st.ops
          (λ i j.
            bits i j
            || (if sense == fixrel_tighter then i == head && j == nb else i == nb && j == head))
          (linked t head sense (some nb))
  unfolding linked add_edge
  linked_some t bits head sense nb b l p n = elim (Bool-cases (sense == fixrel_tighter)) [
    | inl y ↦ rw (n, y) (written t bits head nb b l p)
    | inr y ↦ rw (n, y) (written t bits nb head b p l)
  ]

  add_edge-HasBits :
      (t : WokFixTable) (bits : ℕ → ℕ → Bool) (head : ℕ) (r : FixRel)
      → HasBits st.ops bits t
      → head < length st.ops
      → HasBits st.ops
          (λ i j. bits i j || rel_links ro st.ops head r i j)
          (add_edge t head (place (find_from ro r.name 0 st.ops)) r.sense)
  unfolding linked
  add_edge-HasBits t bits head r b l = elim (Option-cases (find_from ro r.name 0 st.ops)) [
    | inl z ↦
        respelled _ _ _
          (subst (λ o. HasBits st.ops (λ i j. bits i j || false) (linked t head r.sense o)) (sym z)
            (linked_none t bits head r.sense b))
          (λ i j. rw (z, rel_links) refl)
    | inr (nb, z) ↦
        let (p, n) = placed r.name nb z in
        respelled _ _ _
          (subst
            (λ o.
              HasBits st.ops
                (λ i j.
                  bits i j
                  || (if r.sense == fixrel_tighter
                      then i == head && j == nb
                      else i == nb && j == head))
                (linked t head r.sense o))
            (sym z) (linked_some t bits head r.sense nb b l p n))
          (λ i j. rw (z, rel_links) refl)
  ]

  add_rels-HasBits :
      (rels : List FixRel) (t : WokFixTable) (bits : ℕ → ℕ → Bool) (head : ℕ)
      → HasBits st.ops bits t
      → head < length st.ops
      → (t' : WokFixTable) × (add_rels ro.src st t head rels ≡ some t')
        × HasBits st.ops (λ i j. bits i j || rels_link ro st.ops head rels i j) t'
  unfolding add_rels rels_link
  add_rels-HasBits [] t bits head b l =
      (t, refl, respelled bits (λ i j. bits i j || false) t b (λ i j. or_none (bits i j)))
  add_rels-HasBits (r ∷ rs) t bits head b l =
      let found = find_entry-find_from ro cap st r.name h fit in
      let nb = place (find_from ro r.name 0 st.ops) in
      let one = λ (i j : ℕ). bits i j || rel_links ro st.ops head r i j in
      let (t', e, b') =
        add_rels-HasBits rs (add_edge t head nb r.sense) one head
          (add_edge-HasBits t bits head r b l) l in
      (
        t',
        ap (λ o. o >>= λ v. add_rels ro.src st (add_edge t head v r.sense) head rs) found ∙ e,
        respelled _ _ t' b' (λ i j.
            or_assoc (bits i j) (rel_links ro st.ops head r i j) (rels_link ro st.ops head rs i j)),
      )

  -- The test of `fix_is_winner`.
  winner :
      (decls : List FixityDecl) (decl : FixityDecl)
      → ((name : WokSpan) → verdict ro st.ops name ≡ decl_verdict ro name decls)
      → decl.name.off < u32_max
      → fix_is_winner ro.src st decl
        ≡ some (
          place (find_from ro decl.name 0 st.ops),
          has_place (find_from ro decl.name 0 st.ops) && wins ro decls decl,
        )
  unfolding fix_is_winner wins
  winner decls decl says o =
      ap
        (λ o. o >>= λ head.
          some (head, not (head == u32_max) && (op_at st head).decl_off == decl.name.off))
        (find_entry-find_from ro cap st decl.name h fit)
      ∙ elim (Option-cases (find_from ro decl.name 0 st.ops)) [
        | inl z ↦ rw z refl
        | inr (i, z) ↦
            let (p, n) = placed decl.name i z in
            let op = op_at st i in
            let at =
              find_from-found_op ro decl.name 0 i st.ops (z ∙ ap (λ v. some v) (omega arith)) in
            elim (Bool-cases (op.decl_off == u32_max)) [
              | inl y ↦
                  let said : decl_verdict ro decl.name decls ≡ none =
                    sym (says decl.name) ∙ rw at (rw y refl) in
                  let off : (op.decl_off == decl.name.off) ≡ false = ground arith in
                  rw (z, n, off) (ap (λ v. some (i, v)) (sym (ap (declared_at decl.name.off) said)))
              | inr y ↦
                  let said : decl_verdict ro decl.name decls ≡ some (op.assoc, op.decl_off) =
                    sym (says decl.name) ∙ rw at (rw y refl) in
                  rw (z, n) (ap (λ v. some (i, v)) (sym (ap (declared_at decl.name.off) said)))
            ]
      ]

  add_decl-HasBits :
      (decls : List FixityDecl) (decl : FixityDecl) (t : WokFixTable) (bits : ℕ → ℕ → Bool)
      → HasBits st.ops bits t
      → (t' : WokFixTable) × (add_decl ro.src st t decl.rels (
        place (find_from ro decl.name 0 st.ops),
        has_place (find_from ro decl.name 0 st.ops) && wins ro decls decl,
      )
          ≡ some t')
        × HasBits st.ops (λ i j. bits i j || decl_links ro st.ops decls decl i j) t'
  unfolding add_decl decl_links
  add_decl-HasBits decls decl t bits b = elim (Option-cases (find_from ro decl.name 0 st.ops)) [
    | inl z ↦ (t, rw z refl, respelled _ _ t b (λ i j. rw (z, decl_links) (or_none (bits i j))))
    | inr (head, z) ↦ elim (Bool-cases (wins ro decls decl)) [
      | inl y ↦
          let (p, n) = placed decl.name head z in
          let (t', e, b') = add_rels-HasBits decl.rels t bits head b p in
          (t', rw (z, y) e, respelled _ _ t' b' (λ i j. rw (z, y, decl_links) refl))
      | inr y ↦
          (t, rw (z, y) refl, respelled _ _ t b (λ i j. rw (z, y, decl_links) (or_none (bits i j))))
    ]
  ]

  pub add_edges-HasBits :
      (all decls : List FixityDecl) (t : WokFixTable) (bits : ℕ → ℕ → Bool)
      → ((name : WokSpan) → verdict ro st.ops name ≡ decl_verdict ro name all)
      → All (λ decl. decl.name.off < u32_max) decls
      → HasBits st.ops bits t
      → (t' : WokFixTable) × (add_edges ro.src st t decls ≡ some t')
        × HasBits st.ops (λ i j. bits i j || decls_link ro st.ops all decls i j) t'
  unfolding add_edges decls_link
  add_edges-HasBits all [] t bits says o b =
      (t, refl, respelled _ _ t b (λ i j. or_none (bits i j)))
  add_edges-HasBits all (decl ∷ decls) t bits says (o, os) b =
      let one = λ (i j : ℕ). bits i j || decl_links ro st.ops all decl i j in
      let (t1, e1, b1) = add_decl-HasBits all decl t bits b in
      let (t2, e2, b2) = add_edges-HasBits all decls t1 one says os b1 in
      (
        t2,
        rw (winner all decl says o) (rw e1 e2),
        respelled _ _ t2 b2 (λ i j.
            or_assoc (bits i j) (decl_links ro st.ops all decl i j)
              (decls_link ro st.ops all decls i j)),
      )
