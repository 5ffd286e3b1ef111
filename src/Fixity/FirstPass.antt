-- ===== src/Fixity/FirstPass.antt =====
-- grammar/c/wok_resolve.c: the first pass of `build_fixity` ends, and keeps of each operator what its
-- first declaration says.
use wokml.Prelude.{
  ℕ, ◌+◌, ◌≡◌, ◌≤◌, ◌<◌, inl, inr, refl, sym, ap, ◌∙◌, Bool, true, false, ◌||◌, Option, none, some,
  List, [], ◌∷◌, ◌==◌, length, All, Bool-cases, Option-cases, arith, ◌>>=◌,
}
use wokml.Ast.{WokSpan}
use wokml.Diag.{WokDiagSink}
use wokml.Reorder.{Ro, WokFixOp, span_eq, find_from}
use wokml.Fixity.{
  u32_max, Names, FixityDecl, op_at, redeclared, declare_decl, declare_all, diag_redeclared,
}
use wokml.Fixity.Table.{count_names}
use wokml.Fixity.Index.{place}
use wokml.Fixity.Declare.{IsIndexed, find_entry-find_from}
use wokml.Fixity.Known.{or_true, or_false, or_swap}
use wokml.Fixity.First.{
  settled, verdict, known, in_rels, named, is_found, first_decl, decl_verdict, or_else,
  found_op_alike, find_from-found_op, find_from-found_op-none,
}
use wokml.Fixity.OneDecl.{found_place, neighbours-Leaves, with_decl, head-Leaves}

module _ (ro : Ro) (cap : ℕ) where
  -- A redeclaration is of a name that declares something already.
  redeclared-verdict :
      (st : Names) (name : WokSpan)
      → IsIndexed ro cap st
      → length st.ops ≤ cap
      → redeclared st (place (find_from ro name 0 st.ops)) ≡ true
      → (v : ℕ × ℕ) × (verdict ro st.ops name ≡ some v)
  unfolding redeclared
  redeclared-verdict st name h l r = elim (Option-cases (find_from ro name 0 st.ops)) [
    | inl z ↦ let e = rw z at r in cc
    | inr (i, z) ↦
        let (p, n) = found_place ro cap st name i h l z in
        let op = op_at st i in
        let at = find_from-found_op ro name 0 i st.ops (z ∙ ap (λ v. some v) (omega arith)) in
        elim (Bool-cases (op.decl_off == u32_max)) [
          | inl y ↦ let e = rw (z, n, y) at r in cc
          | inr y ↦ ((op.assoc, op.decl_off), rw at (rw y refl))
        ]
  ]

  unsettled-verdict :
      (st : Names) (name : WokSpan)
      → IsIndexed ro cap st
      → length st.ops ≤ cap
      → redeclared st (place (find_from ro name 0 st.ops)) ≡ false
      → verdict ro st.ops name ≡ none
  unfolding redeclared
  unsettled-verdict st name h l r = elim (Option-cases (find_from ro name 0 st.ops)) [
    | inl z ↦ rw (find_from-found_op-none ro name 0 st.ops z) refl
    | inr (i, z) ↦
        let (p, n) = found_place ro cap st name i h l z in
        let at = find_from-found_op ro name 0 i st.ops (z ∙ ap (λ v. some v) (omega arith)) in
        elim (Bool-cases ((op_at st i).decl_off == u32_max)) [
          | inl y ↦ rw at (rw y refl)
          | inr y ↦ let e = rw (z, n, y) at r in cc
        ]
  ]

  verdict_alike :
      (ops : List WokFixOp) (a b : WokSpan)
      → span_eq ro a b ≡ true
      → verdict ro ops a ≡ verdict ro ops b
  verdict_alike ops a b e = ap (λ o. o >>= settled) (found_op_alike ro a b ops e)

  -- The first pass ends with the names indexed, and an operator declares what it declared before, or
  -- else what its first declaration says.
  pub record Declares (st : Names) (decls : List FixityDecl) (st' : Names) : Type 0 where
    pub indexed : IsIndexed ro cap st'
    pub fits : length st'.ops ≤ cap
    pub says :
        (name : WokSpan)
        → verdict ro st'.ops name ≡ or_else (verdict ro st.ops name) (decl_verdict ro name decls)
    pub knows :
        (declared : WokSpan → Bool)
        → ((x : WokSpan) → declared x ≡ is_found (verdict ro st.ops x))
        → (name : WokSpan)
        → known ro st'.ops name ≡ (known ro st.ops name || named ro declared decls name)

  -- Whether a name is declared once a declaration is taken in, redeclared or not.
  skip_declared :
      (st : Names) (decl : FixityDecl) (declared : WokSpan → Bool) (v : ℕ × ℕ)
      → verdict ro st.ops decl.name ≡ some v
      → ((x : WokSpan) → declared x ≡ is_found (verdict ro st.ops x))
      → (x : WokSpan) → (declared x || span_eq ro x decl.name) ≡ is_found (verdict ro st.ops x)
  skip_declared st decl declared v e same x = elim (Bool-cases (span_eq ro x decl.name)) [
    | inl y ↦ rw (y, or_true (declared x), verdict_alike st.ops x decl.name y ∙ e) refl
    | inr y ↦ rw (y, or_false (declared x)) (same x)
  ]

  take_declared :
      (st : Names) (decl : FixityDecl) (declared : WokSpan → Bool)
      → ((x : WokSpan) → declared x ≡ is_found (verdict ro st.ops x))
      → (x : WokSpan)
      → (declared x || span_eq ro x decl.name) ≡ is_found (with_decl ro cap st decl x)
  unfolding with_decl
  take_declared st decl declared same x = elim (Bool-cases (span_eq ro x decl.name)) [
    | inl y ↦ rw (y, or_true (declared x)) refl
    | inr y ↦ rw (y, or_false (declared x)) (same x)
  ]

  skip_verdict :
      (st : Names) (decl : FixityDecl) (decls : List FixityDecl) (name : WokSpan) (v : ℕ × ℕ)
      → verdict ro st.ops decl.name ≡ some v
      → or_else (verdict ro st.ops name) (decl_verdict ro name decls)
        ≡ or_else (verdict ro st.ops name) (decl_verdict ro name (decl ∷ decls))
  unfolding first_decl
  skip_verdict st decl decls name v e = elim (Bool-cases (span_eq ro name decl.name)) [
    | inl y ↦ rw (verdict_alike st.ops name decl.name y ∙ e) refl
    | inr y ↦ rw y refl
  ]

  take_verdict :
      (st : Names) (decl : FixityDecl) (decls : List FixityDecl) (name : WokSpan)
      → verdict ro st.ops decl.name ≡ none
      → or_else (with_decl ro cap st decl name) (decl_verdict ro name decls)
        ≡ or_else (verdict ro st.ops name) (decl_verdict ro name (decl ∷ decls))
  unfolding first_decl with_decl
  take_verdict st decl decls name e = elim (Bool-cases (span_eq ro name decl.name)) [
    | inl y ↦ rw (verdict_alike st.ops name decl.name y ∙ e, y) refl
    | inr y ↦ rw y refl
  ]

  none_else : (v : Option (ℕ × ℕ)) (name : WokSpan) → v ≡ or_else v (decl_verdict ro name [])
  unfolding first_decl
  none_else none name = refl
  none_else (some v) name = refl

  pub declare_all-Declares :
      (decls : List FixityDecl) (st : Names) (d : WokDiagSink)
      → All (λ decl. decl.name.off < u32_max) decls
      → IsIndexed ro cap st
      → length st.ops + count_names decls ≤ cap
      → (st' : Names) × (d' : WokDiagSink) × (declare_all ro.src decls st d ≡ some (st', d'))
        × Declares st decls st'
  unfolding declare_all declare_decl count_names named
  declare_all-Declares [] st d o h l = (
    st,
    d,
    refl,
    record {
      indexed = h;
      fits = omega arith;
      says = λ name. none_else (verdict ro st.ops name) name;
      knows = λ declared same name. sym (or_false (known ro st.ops name));
    },
  )
  declare_all-Declares (decl ∷ decls) st d (o, os) h l =
      let found = find_entry-find_from ro cap st decl.name h (omega arith) in
      let at = place (find_from ro decl.name 0 st.ops) in
      let step = λ (b : Bool) (e : redeclared st at ≡ b).
        ap (declare_decl (declare_all ro.src decls) ro.src st decl d at) e in
      elim (Bool-cases (redeclared st at)) [
        | inl z ↦
            let (v, e) = redeclared-verdict st decl.name h (omega arith) z in
            let (st', d', run, k) =
              declare_all-Declares decls st (diag_redeclared d decl.name (op_at st at).decl_off) os
                h (omega arith) in
            (
              st',
              d',
              rw found (step true z ∙ run),
              record {
                indexed = k.indexed;
                fits = k.fits;
                says = λ name. k.says name ∙ skip_verdict st decl decls name v e;
                knows = λ declared same name.
                    let old : declared decl.name ≡ true = same decl.name ∙ ap (λ o. is_found o) e in
                    rw old (
                      k.knows (λ x. declared x || span_eq ro x decl.name)
                        (skip_declared st decl declared v e same) name);
              },
            )
        | inr z ↦
            let e = unsettled-verdict st decl.name h (omega arith) z in
            let (st1, e1, m1) =
              head-Leaves ro cap st decl (length decl.rels + count_names decls) o h (omega arith) in
            let (st2, e2, m2) =
              neighbours-Leaves ro cap st1 decl.rels (count_names decls) m1.indexed m1.fits in
            let (st', d', run, k) = declare_all-Declares decls st2 d os m2.indexed m2.fits in
            (
              st',
              d',
              rw found (step false z ∙ rw (e1, e2) run),
              record {
                indexed = k.indexed;
                fits = k.fits;
                says = λ name.
                    k.says name
                    ∙ ap (λ v. or_else v (decl_verdict ro name decls)) (m2.says name ∙ m1.says name)
                    ∙ take_verdict st decl decls name e;
                knows = λ declared same name.
                    let later = λ (x : WokSpan). declared x || span_eq ro x decl.name in
                    let new : declared decl.name ≡ false =
                      same decl.name ∙ ap (λ o. is_found o) e in
                    let after = named ro later decls name in
                    let two =
                      m2.knows name ∙ ap (λ b. b || in_rels ro name decl.rels) (m1.knows name) in
                    k.knows later
                      (λ x.
                        take_declared st decl declared same x
                        ∙ ap (λ o. is_found o) (sym (m2.says x ∙ m1.says x)))
                      name
                    ∙ ap (λ b. b || after) two
                    ∙ rw new (
                        or_swap (known ro st.ops name) (span_eq ro name decl.name)
                          (in_rels ro name decl.rels) after);
              },
            )
      ]
