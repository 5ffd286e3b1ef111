-- ===== src/Fixity/Resolved.antt =====
-- grammar/c/wok_resolve.c and grammar/c/wok_reorder.c: the table of `wok_resolve`, as the reorder pass
-- takes it.
use wokml.Prelude.{
  ℕ, suc, ◌+◌, ◌≡◌, ◌≤◌, ◌<◌, ◌↔◌, inl, inr, refl, sym, ap, ◌∙◌, subst, false, ◌||◌, Option, none,
  some, some-injective, List, [], ◌∷◌, map, ltb, ◌==◌, if◌then◌else◌, length, All, Bool-cases,
  arith, ◌>>=◌,
}
use wokml.Ast.{WokSpan, WokNode}
use wokml.Diag.{WokDiagSink}
use wokml.Reorder.{Ro, WokFixOp, Tail, span_eq, find_from, fix_tighter, reorder_split}
use wokml.Reorder.Compare.{Known, Known-inside}
use wokml.Reorder.Under.{IsOrder}
use wokml.Reorder.Chain.{Nested}
use wokml.Fixity.{u32_max, find_entry, FixityDecl}
use wokml.Fixity.Table.{fix_bit, count_names, Built, build_fixity}
use wokml.Fixity.Checks.{
  spokesmen, occurrences, unlicensed_with, unlicensed, report_pair, check_chain,
}
use wokml.Fixity.Index.{place}
use wokml.Fixity.Built.{IsBuilt, build_fixity-IsBuilt}
use wokml.Fixity.Shield.{occurrence}
use wokml.Fixity.Settled.{reorder_settles}
use wokml.Fixity.Standing.{Nested-stands}
use wokml.Fixity.Circles.{spokesmen-none}

-- The state of the reorder pass over a source, with the table that was built for it.
abbrev pub over : List ℕ → Built → Ro
over src b = record { fix = b.table; src = src }

-- Declarations that a table is made for.
abbrev pub Fits : List FixityDecl → Type 0
Fits decls = All (λ decl. decl.name.off < u32_max) decls × (count_names decls ≤ 1073741824)

abbrev bare : List ℕ → Ro
bare src = record { fix = record { ops = []; edge = []; words = 0 }; src = src }

span_eq_src : (ro so : Ro) (a b : WokSpan) → ro.src ≡ so.src → span_eq ro a b ≡ span_eq so a b
unfolding span_eq
span_eq_src ro so a b e = rw e refl

find_from_src :
    (ro so : Ro) (name : WokSpan) (i : ℕ) (ops : List WokFixOp)
    → ro.src ≡ so.src
    → find_from ro name i ops ≡ find_from so name i ops
unfolding find_from
find_from_src ro so name i [] e = refl
find_from_src ro so name i (op ∷ ops) e =
    rw (span_eq_src ro so name op.name e, find_from_src ro so name (i + 1) ops e) refl

built_lem :
    (src : List ℕ) (decls : List FixityDecl) (d : WokDiagSink) (b : Built)
    → Fits decls
    → build_fixity src decls d ≡ some b
    → IsBuilt (bare src) decls b
built_lem src decls d b (o, l) e =
    let (c, f, k) = build_fixity-IsBuilt (bare src) decls d o l in
    subst (IsBuilt (bare src) decls) (some-injective c b (sym f ∙ e)) k

-- For declarations that fit, as for `build_fixity-IsBuilt`: where the check for circles has
-- nothing to report, the table that the reorder pass takes is a strict order.
pub build_fixity-IsOrder :
    (src : List ℕ) (decls : List FixityDecl) (d : WokDiagSink) (b : Built)
    → Fits decls
    → build_fixity src decls d ≡ some b
    → spokesmen b.table (length b.table.ops) 0 ≡ []
    → IsOrder (over src b)
unfolding fix_tighter fix_bit
build_fixity-IsOrder src decls d b fits e quiet =
    let k = built_lem src decls d b fits e in
    record {
      irreflexive = λ i p. spokesmen-none b.table i k.transitive quiet p;
      transitive = k.transitive;
    }

module _ (src : List ℕ) (b : Built)
    (finds : (name : WokSpan)
      → find_entry src b.names name
        ≡ some (place (find_from (over src b) name 0 b.table.ops))) where
  -- The check sees each operator at the place where the reorder pass has it.
  occurrences_lem :
      (ts : List Tail)
      → All (Known (over src b)) ts
      → occurrences src b.names (map (λ t. t.name) ts) ≡ some (map occurrence ts)
  unfolding occurrences
  occurrences_lem [] ks = refl
  occurrences_lem (t ∷ ts) (k, ks) =
      rw (finds t.name ∙ ap (λ o. some (place o)) k, occurrences_lem ts ks) refl

  check_chain_lem :
      (ts : List Tail) (d : WokDiagSink)
      → All (Known (over src b)) ts
      → check_chain src b.names b.table (map (λ t. t.name) ts) d
        ≡ some (report_pair d (unlicensed b.table (map occurrence ts)))
  unfolding check_chain unlicensed unlicensed_with report_pair
  check_chain_lem [] d ks = refl
  check_chain_lem (t ∷ []) d ks = elim (Bool-cases (t.fix_idx == u32_max)) [
    | inl z ↦ rw z refl
    | inr z ↦ rw z refl
  ]
  check_chain_lem (t ∷ u ∷ ts) d (k, ks) =
      let inside : t.fix_idx < length b.table.ops = Known-inside (over src b) t k in
      let many : ltb (suc (suc (length (map (λ (t : Tail). t.name) ts)))) 2 ≡ false =
        ground arith in
      let some_op : (length b.table.ops == 0) ≡ false = ground arith in
      let test : (ltb (suc (suc (length (map (λ (t : Tail). t.name) ts)))) 2
            || length b.table.ops == 0)
          ≡ false =
        rw (many, some_op) refl in
      ap
        (λ v.
          if v
          then some d
          else (occurrences src b.names (map (λ t. t.name) (t ∷ u ∷ ts)) >>= λ os.
              some (report_pair d (unlicensed b.table os))))
        test
      ∙ ap (λ o. o >>= λ os. some (report_pair d (unlicensed b.table os)))
          (occurrences_lem (t ∷ u ∷ ts) (k, ks))

-- The two occurrences that `check_chain` reports of a chain, if any.
abbrev pub chain_fault : Built → List Tail → Option (WokSpan × WokSpan)
chain_fault b ts = unlicensed b.table (map occurrence ts)

-- The reorder pass nests a chain as the table says, and reports nothing.
abbrev pub Settles : List ℕ → Built → WokNode → List Tail → WokDiagSink → Type 0
Settles src b h ts d =
    (n : WokNode) × (reorder_split (length ts) (over src b) h ts d ≡ some (n, d))
    × Nested (over src b) h ts n

-- For the table of declarations that fit, in whose order there is no circle, and a chain whose
-- operators all stand in it: `check_chain` reports the fault of the chain, if it has one, and the
-- chain has none exactly if `reorder_split` nests it as the table says and reports nothing.
pub shield_rule :
    (src : List ℕ) (decls : List FixityDecl) (d : WokDiagSink) (b : Built)
    → Fits decls
    → build_fixity src decls d ≡ some b
    → spokesmen b.table (length b.table.ops) 0 ≡ []
    → (h : WokNode) (ts : List Tail) (d1 : WokDiagSink) → All (Known (over src b)) ts
    → (check_chain src b.names b.table (map (λ t. t.name) ts) d1
        ≡ some (report_pair d1 (chain_fault b ts)))
      × ((chain_fault b ts ≡ none) ↔ Settles src b h ts d1)
shield_rule src decls d b fits e quiet h ts d1 ks =
    let k = built_lem src decls d b fits e in
    let order = build_fixity-IsOrder src decls d b fits e quiet in
    let finds = λ (name : WokSpan).
      k.finds name
      ∙ ap (λ o. some (place o)) (find_from_src (bare src) (over src b) name 0 b.table.ops refl) in
    (
      check_chain_lem src b finds ts d1 ks,
      (
        λ ok. reorder_settles (over src b) order k.few (length ts) h ts d1 ks (omega arith) ok,
        λ (n, run, nested). Nested-stands (over src b) order k.few nested ks,
      ),
    )
