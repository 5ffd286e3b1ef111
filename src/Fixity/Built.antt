-- ===== src/Fixity/Built.antt =====
-- grammar/c/wok_resolve.c: the table that `build_fixity` makes of the declarations of a file.
use Prim.Native.Nat.{◌^◌}
use native.Mathlib.Nat.{zero-div}
use wokml.Prelude.{
  ℕ, ◌+◌, ◌*◌, ◌/◌, ◌%◌, ◌≡◌, ◌≤◌, ◌<◌, ◌↔◌, inl, inr, refl, sym, ap, ◌∙◌, subst, true, false, not,
  ◌||◌, some, List, [], ◌∷◌, ◌==◌, length, length-replicate, get_or-replicate, All, Bool-cases,
  arith, eq_of_==,
}
use wokml.Ast.{WokSpan}
use wokml.Diag.{WokDiagSink}
use wokml.Reorder.{Ro, WokFixOp, WokFixTable, span_eq, find_from}
use wokml.Fixity.{u32_max, Names, find_entry, FixityDecl}
use wokml.Fixity.Table.{
  fix_bit, warshall, count_names, bare_table, Built, build_declared, build_fixity, no_names,
}
use wokml.Fixity.Closure.{Reaches, edge, walk, warshall_ops, warshall_transitive, warshall-Reaches}
use wokml.Fixity.Index.{place, name_at}
use wokml.Fixity.Declare.{find_entry-find_from, idx_init-IsIndexed}
use wokml.Fixity.First.{verdict, known, named, decl_verdict, found_op, first_decl}
use wokml.Fixity.FirstPass.{declare_all-Declares}
use wokml.Fixity.SecondPass.{decls_link, HasBits, add_edges-HasBits}

-- An operator is tighter than another by what the first declarations of operators state, or because
-- of an operator between them.
pub data Follows (ro : Ro) (decls : List FixityDecl) (ops : List WokFixOp) : ℕ → ℕ → Type 0 where
  stated :
      {i j : ℕ}
      → i < length ops
      → j < length ops
      → decls_link ro ops decls decls i j ≡ true
      → Follows ro decls ops i j
  between :
      {i j k : ℕ} → Follows ro decls ops i j → Follows ro decls ops j k → Follows ro decls ops i k

-- What `build_fixity` leaves: lookups that find the operators of the table, which are the operators and
-- neighbours of the first declarations, each once; an order that is what the declarations state, and
-- for each name what its first declaration says.
pub record IsBuilt (ro : Ro) (decls : List FixityDecl) (b : Built) : Type 0 where
  pub finds :
      (name : WokSpan)
      → find_entry ro.src b.names name ≡ some (place (find_from ro name 0 b.table.ops))
  pub knows : (name : WokSpan) → known ro b.table.ops name ≡ named ro (λ x. false) decls name
  pub apart :
      (i j : ℕ)
      → i < length b.table.ops
      → j < length b.table.ops
      → span_eq ro (name_at b.table.ops i) (name_at b.table.ops j) ≡ true
      → i ≡ j
  pub few : length b.table.ops < u32_max
  pub says : (name : WokSpan) → verdict ro b.table.ops name ≡ decl_verdict ro name decls
  pub follows :
      (i j : ℕ)
      → i < length b.table.ops
      → j < length b.table.ops
      → (fix_bit b.table i j ≡ true) ↔ Follows ro decls b.table.ops i j
  pub transitive :
      (i j k : ℕ)
      → i < length b.table.ops
      → j < length b.table.ops
      → k < length b.table.ops
      → fix_bit b.table i j ≡ true
      → fix_bit b.table j k ≡ true
      → fix_bit b.table i k ≡ true

bare_table-HasBits : (ops : List WokFixOp) → HasBits ops (λ i j. false) (bare_table ops)
unfolding fix_bit
bare_table-HasBits ops =
    let words = (length ops + 63) / 64 in
    record {
      shaped = record { wide = omega arith; filled = length-replicate (length ops * words) 0 };
      same_ops = refl;
      bits_are = λ i j p.
          ap (λ v. not (v / 2 ^ (j % 64) % 2 == 0))
            (get_or-replicate (length ops * words) (i * words + j / 64) 0)
          ∙ ap (λ v. not (v % 2 == 0)) (zero-div (2 ^ (j % 64)));
    }

module _ (ro : Ro) (decls : List FixityDecl) (ops : List WokFixOp) (t : WokFixTable)
    (b : HasBits ops (λ i j. false || decls_link ro ops decls decls i j) t) where
  Follows-Reaches : {i j : ℕ} → Follows ro decls ops i j → Reaches t i j
  Follows-Reaches (between f g) = walk (Follows-Reaches f) (Follows-Reaches g)
  Follows-Reaches {i} {j} (stated p q e) =
      let size = ap (λ ops. length ops) b.same_ops in
      edge (omega arith) (omega arith) (b.bits_are i j q ∙ e)

  Reaches-Follows : {i j : ℕ} → Reaches t i j → Follows ro decls ops i j
  Reaches-Follows (walk f g) = between (Reaches-Follows f) (Reaches-Follows g)
  Reaches-Follows {i} {j} (edge p q e) =
      let size = ap (λ ops. length ops) b.same_ops in
      stated (omega arith) (omega arith) (sym (b.bits_are i j (omega arith)) ∙ e)

  closed_ops : (warshall t).ops ≡ ops
  closed_ops = warshall_ops t ∙ b.same_ops

  closed-Follows :
      (i j : ℕ)
      → i < length ops
      → j < length ops
      → (fix_bit (warshall t) i j ≡ true) ↔ Follows ro decls ops i j
  closed-Follows i j p q =
      let size = ap (λ ops. length ops) b.same_ops in
      let (to, from) = warshall-Reaches t b.shaped i j (omega arith) (omega arith) in
      (λ h. Reaches-Follows (to h), λ f. from (Follows-Reaches f))

  closed_transitive :
      (i j k : ℕ)
      → i < length ops
      → j < length ops
      → k < length ops
      → fix_bit (warshall t) i j ≡ true
      → fix_bit (warshall t) j k ≡ true
      → fix_bit (warshall t) i k ≡ true
  closed_transitive i j k p q r =
      let size = ap (λ ops. length ops) b.same_ops in
      warshall_transitive t b.shaped i j k (omega arith) (omega arith) (omega arith)

-- The facts of a finished table, with its operators named apart.
IsBuilt-over :
    (ro : Ro) (decls : List FixityDecl) (st : Names) (t : WokFixTable) (d : WokDiagSink)
    (ops : List WokFixOp)
    → t.ops ≡ ops
    → ((name : WokSpan) → find_entry ro.src st name ≡ some (place (find_from ro name 0 ops)))
    → ((name : WokSpan) → known ro ops name ≡ named ro (λ x. false) decls name)
    → ((i j : ℕ)
        → i < length ops
        → j < length ops
        → span_eq ro (name_at ops i) (name_at ops j) ≡ true
        → i ≡ j)
    → length ops < u32_max
    → ((name : WokSpan) → verdict ro ops name ≡ decl_verdict ro name decls)
    → ((i j : ℕ)
        → i < length ops
        → j < length ops
        → (fix_bit t i j ≡ true) ↔ Follows ro decls ops i j)
    → ((i j k : ℕ)
        → i < length ops
        → j < length ops
        → k < length ops
        → fix_bit t i j ≡ true
        → fix_bit t j k ≡ true
        → fix_bit t i k ≡ true)
    → IsBuilt ro decls (record { table = t; names = st; sink = d })
IsBuilt-over ro decls st t d ops e finds knows apart few says follows transitive = record {
  finds =
      subst
        (λ o. (name : WokSpan) → find_entry ro.src st name ≡ some (place (find_from ro name 0 o)))
        (sym e) finds;
  knows =
      subst (λ o. (name : WokSpan) → known ro o name ≡ named ro (λ x. false) decls name) (sym e)
        knows;
  apart =
      subst
        (λ o.
          (i j : ℕ)
          → i < length o
          → j < length o
          → span_eq ro (name_at o i) (name_at o j) ≡ true
          → i ≡ j)
        (sym e) apart;
  few = subst (λ o. length o < u32_max) (sym e) few;
  says =
      subst (λ o. (name : WokSpan) → verdict ro o name ≡ decl_verdict ro name decls) (sym e) says;
  follows =
      subst
        (λ o.
          (i j : ℕ) → i < length o → j < length o → (fix_bit t i j ≡ true) ↔ Follows ro decls o i j)
        (sym e) follows;
  transitive =
      subst
        (λ o.
          (i j k : ℕ)
          → i < length o
          → j < length o
          → k < length o
          → fix_bit t i j ≡ true
          → fix_bit t j k ≡ true
          → fix_bit t i k ≡ true)
        (sym e) transitive;
}

build_declared-IsBuilt :
    (ro : Ro) (decls : List FixityDecl) (d : WokDiagSink)
    → All (λ decl. decl.name.off < u32_max) decls
    → count_names decls ≤ 1073741824
    → (b : Built) × (build_declared ro.src decls d (count_names decls) ≡ some b)
      × IsBuilt ro decls b
unfolding build_declared first_decl found_op
build_declared-IsBuilt ro decls d o l =
    let cap = count_names decls in
    let (ix, e0, h0) = idx_init-IsIndexed ro cap l in
    let (st, d1, e1, k) =
      declare_all-Declares ro cap decls (record { ops = []; idx = ix }) d o h0 (omega arith) in
    let tiny = k.indexed.tiny in
    let fits = k.fits in
    let (t, e2, b) =
      add_edges-HasBits ro cap st k.indexed k.fits decls decls (bare_table st.ops) (λ i j. false)
        k.says o (bare_table-HasBits st.ops) in
    (
      record { table = warshall t; names = st; sink = d1 },
      rw e0 (rw e1 (rw e2 refl)),
      IsBuilt-over ro decls st (warshall t) d1 st.ops (closed_ops ro decls st.ops t b)
          (λ name. find_entry-find_from ro cap st name k.indexed k.fits)
          (k.knows (λ x. false) (λ x. refl)) k.indexed.holds.distinct (omega arith) k.says
          (closed-Follows ro decls st.ops t b) (closed_transitive ro decls st.ops t b),
    )

empty_built : WokDiagSink → Built
empty_built d = record {
  table = record { ops = []; edge = []; words = 0 };
  names = no_names;
  sink = d;
}

empty_built-IsBuilt : (ro : Ro) (d : WokDiagSink) → IsBuilt ro [] (empty_built d)
unfolding empty_built find_entry find_from found_op first_decl named
empty_built-IsBuilt ro d = record {
  finds = λ name. refl;
  knows = λ name. refl;
  apart = λ i j p. absurd (omega arith);
  few = omega arith;
  says = λ name. refl;
  follows = λ i j p q. absurd (omega arith);
  transitive = λ i j k p q r. absurd (omega arith);
}

no_decls-count : (decls : List FixityDecl) → count_names decls ≡ 0 → decls ≡ []
unfolding count_names
no_decls-count [] e = refl
no_decls-count (decl ∷ decls) e = absurd (omega arith)

-- For declarations of at most 2^30 names, whose heads stand below offset 2^32 - 1, `build_fixity`
-- returns. The names of the table are those of the operators that are declared and of the neighbours
-- in their first declarations, each once; a lookup gives the place of a name, an operator has the
-- associativity and the place of its first declaration or is a neighbour only, and a bit between
-- two operators is set exactly if the first declarations of operators state it or a chain of such
-- statements leads from the one to the other.
pub build_fixity-IsBuilt :
    (ro : Ro) (decls : List FixityDecl) (d : WokDiagSink)
    → All (λ decl. decl.name.off < u32_max) decls
    → count_names decls ≤ 1073741824
    → (b : Built) × (build_fixity ro.src decls d ≡ some b) × IsBuilt ro decls b
unfolding build_fixity empty_built
build_fixity-IsBuilt ro decls d o l = elim (Bool-cases (count_names decls == 0)) [
  | inr z ↦ let (b, e, k) = build_declared-IsBuilt ro decls d o l in (b, rw z e, k)
  | inl z ↦ (
    empty_built d,
    rw z refl,
    subst (λ ds. IsBuilt ro ds (empty_built d))
        (sym (no_decls-count decls (eq_of_== (count_names decls) 0 z))) (empty_built-IsBuilt ro d),
  )
]
