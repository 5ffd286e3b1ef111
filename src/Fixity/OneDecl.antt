-- ===== src/Fixity/OneDecl.antt =====
-- grammar/c/wok_resolve.c: what one declaration does to the names of the table.
use wokml.Prelude.{
  ℕ, zero, suc, ◌+◌, ◌≡◌, ◌≤◌, ◌<◌, inl, inr, refl, sym, ap, ◌∙◌, Bool, false, ◌||◌, Option, none,
  some, List, [], ◌∷◌, ◌==◌, if◌then◌else◌, length, set, Bool-cases, Option-cases, arith,
  length-set, ◌>>=◌,
}
use wokml.Ast.{WokSpan}
use wokml.Reorder.{Ro, WokFixOp, span_eq, find_from}
use wokml.Fixity.{
  u32_max, Names, FixRel, FixityDecl, neighbour, head_op, ensure_op, declare_neighbours, promote,
  declare_head,
}
use wokml.Fixity.Index.{place, find_from_hit, name_at}
use wokml.Fixity.Insert.{grown, length-grown}
use wokml.Fixity.Declare.{IsIndexed, find_entry-find_from, append_op-IsIndexed}
use wokml.Fixity.Known.{or_false, or_assoc, known-grown, known-found, known-set}
use wokml.Fixity.First.{
  found_op, known, in_rels, settled, verdict, found_op_alike, found_op-grown,
  find_from-found_op-none, found_op-set,
}

-- What an operation on the names does that keeps them indexed: the names that it leaves fit in `room`
-- more, what each name declares is `after`, and the names in the table are `inside`.
pub record Leaves (ro : Ro) (cap : ℕ) (room : ℕ) (after : WokSpan → Option (ℕ × ℕ))
    (inside : WokSpan → Bool) (st : Names) : Type 0 where
  pub indexed : IsIndexed ro cap st
  pub fits : length st.ops + room ≤ cap
  pub says : (name : WokSpan) → verdict ro st.ops name ≡ after name
  pub knows : (name : WokSpan) → known ro st.ops name ≡ inside name

module _ (ro : Ro) (cap : ℕ) where
  -- A place that was found is a place.
  pub found_place :
      (st : Names) (name : WokSpan) (i : ℕ)
      → IsIndexed ro cap st
      → length st.ops ≤ cap
      → find_from ro name 0 st.ops ≡ some i
      → (i < length st.ops) × ((i == u32_max) ≡ false)
  found_place st name i h l e =
      let (j, f, p, m) = find_from_hit ro name 0 i st.ops e in
      let tiny = h.tiny in (omega arith, ground arith)

  settled_neighbour :
      (st : Names) (name nb : WokSpan)
      → find_from ro nb 0 st.ops ≡ none
      → verdict ro (grown st.ops (neighbour nb)) name ≡ verdict ro st.ops name
  settled_neighbour st name nb e =
      ap (λ o. o >>= settled) (found_op-grown ro name st.ops (neighbour nb))
      ∙ elim (Option-cases (found_op ro name st.ops)) [
        | inr (op, z) ↦ rw z refl
        | inl z ↦ elim (Bool-cases (span_eq ro name nb)) [
          | inl y ↦ rw (z, y) refl
          | inr y ↦ rw (z, y) refl
        ]
      ]

  ensure_neighbour :
      (st : Names) (nb : WokSpan) (room : ℕ)
      → IsIndexed ro cap st
      → length st.ops + suc room ≤ cap
      → (st' : Names) × (ensure_op ro.src st (neighbour nb) (place (find_from ro nb 0 st.ops))
          ≡ some st')
        × Leaves ro cap room (verdict ro st.ops) (λ x. known ro st.ops x || span_eq ro x nb) st'
  unfolding ensure_op
  ensure_neighbour st nb room h l = elim (Option-cases (find_from ro nb 0 st.ops)) [
    | inl z ↦
        let (st', e, h', o) = append_op-IsIndexed ro cap st (neighbour nb) h (omega arith) z in
        (
          st',
          rw z e,
          record {
            indexed = h';
            fits = omega (arith, ap (λ ops. length ops) o, length-grown st.ops (neighbour nb));
            says = λ name. ap (λ ops. verdict ro ops name) o ∙ settled_neighbour st name nb z;
            knows =
                λ name. ap (λ ops. known ro ops name) o ∙ known-grown ro st.ops (neighbour nb) name;
          },
        )
    | inr (i, z) ↦
        let (p, n) = found_place st nb i h (omega arith) z in
        (
          st,
          rw (z, n) refl,
          record {
            indexed = h;
            fits = omega arith;
            says = λ name. refl;
            knows = λ name. known-found ro st.ops nb name i z;
          },
        )
  ]

  pub neighbours-Leaves :
      (st : Names) (rels : List FixRel) (room : ℕ)
      → IsIndexed ro cap st
      → length st.ops + (length rels + room) ≤ cap
      → (st' : Names) × (declare_neighbours ro.src st rels ≡ some st')
        × Leaves ro cap room (verdict ro st.ops) (λ x. known ro st.ops x || in_rels ro x rels) st'
  unfolding declare_neighbours in_rels
  neighbours-Leaves st [] room h l = (
    st,
    refl,
    record {
      indexed = h;
      fits = omega arith;
      says = λ name. refl;
      knows = λ name. sym (or_false (known ro st.ops name));
    },
  )
  neighbours-Leaves st (r ∷ rs) room h l =
      let found = find_entry-find_from ro cap st r.name h (omega arith) in
      let (st1, e1, k) = ensure_neighbour st r.name (length rs + room) h (omega arith) in
      let (st2, e2, m) = neighbours-Leaves st1 rs room k.indexed k.fits in
      (
        st2,
        rw (found, e1) e2,
        record {
          indexed = m.indexed;
          fits = m.fits;
          says = λ name. m.says name ∙ k.says name;
          knows = λ name.
              m.knows name
              ∙ ap (λ b. b || in_rels ro name rs) (k.knows name)
              ∙ or_assoc (known ro st.ops name) (span_eq ro name r.name) (in_rels ro name rs);
        },
      )

  -- What the names declare once a declaration is taken in.
  unfoldable pub with_decl : Names → FixityDecl → WokSpan → Option (ℕ × ℕ)
  with_decl st decl name =
      if span_eq ro name decl.name then some (decl.assoc, decl.name.off) else verdict ro st.ops name

  promoted_says :
      (st : Names) (decl : FixityDecl) (i : ℕ) (name : WokSpan)
      → decl.name.off < u32_max
      → find_from ro decl.name 0 st.ops ≡ some i
      → verdict ro (promote st i decl).ops name ≡ with_decl st decl name
  unfolding promote with_decl
  promoted_says st decl i name o e =
      let op : WokFixOp = record {
        name = name_at st.ops i;
        assoc = decl.assoc;
        decl_off = decl.name.off;
      } in
      let real : (decl.name.off == u32_max) ≡ false = ground arith in
      let e' : find_from ro decl.name 0 st.ops ≡ some (0 + i) =
        e ∙ ap (λ v. some v) (omega arith) in
      ap (λ o. o >>= settled) (found_op-set ro name decl.name 0 i st.ops op e' refl)
      ∙ elim (Bool-cases (span_eq ro name decl.name)) [
        | inl y ↦ rw (y, real) refl
        | inr y ↦ rw y refl
      ]

  promoted_knows :
      (st : Names) (decl : FixityDecl) (i : ℕ) (name : WokSpan)
      → find_from ro decl.name 0 st.ops ≡ some i
      → known ro (promote st i decl).ops name ≡ (known ro st.ops name || span_eq ro name decl.name)
  unfolding promote
  promoted_knows st decl i name e =
      known-set ro st.ops decl.name name i
        (record { name = name_at st.ops i; assoc = decl.assoc; decl_off = decl.name.off }) e refl

  appended_says :
      (st : Names) (decl : FixityDecl) (name : WokSpan)
      → decl.name.off < u32_max
      → find_from ro decl.name 0 st.ops ≡ none
      → verdict ro (grown st.ops (head_op decl)) name ≡ with_decl st decl name
  unfolding with_decl
  appended_says st decl name o e =
      let real : (decl.name.off == u32_max) ≡ false = ground arith in
      ap (λ o. o >>= settled) (found_op-grown ro name st.ops (head_op decl))
      ∙ elim (Bool-cases (span_eq ro name decl.name)) [
        | inl y ↦
            let gone : found_op ro name st.ops ≡ none =
              found_op_alike ro name decl.name st.ops y
              ∙ find_from-found_op-none ro decl.name 0 st.ops e in
            rw (gone, y, real) refl
        | inr y ↦ elim (Option-cases (found_op ro name st.ops)) [
          | inl z ↦ rw (z, y) refl
          | inr (op, z) ↦ rw (z, y) refl
        ]
      ]

  names_kept :
      (ops : List WokFixOp) (i j : ℕ) (op : WokFixOp)
      → op.name ≡ name_at ops i
      → name_at (set ops i op) j ≡ name_at ops j
  names_kept [] i j op e = refl
  names_kept (o ∷ ops) zero zero op e = e
  names_kept (o ∷ ops) zero (suc j) op e = refl
  names_kept (o ∷ ops) (suc i) zero op e = refl
  names_kept (o ∷ ops) (suc i) (suc j) op e = names_kept ops i j op e

  promote-IsIndexed :
      (st : Names) (i : ℕ) (decl : FixityDecl)
      → IsIndexed ro cap st
      → IsIndexed ro cap (promote st i decl)
  unfolding promote
  promote-IsIndexed st i decl h =
      let op : WokFixOp = record {
        name = name_at st.ops i;
        assoc = decl.assoc;
        decl_off = decl.name.off;
      } in
      let size = length-set st.ops i op in
      let same = λ (j : ℕ). names_kept st.ops i j op refl in
      record {
        holds = record {
          sized = h.holds.sized;
          used = h.holds.used ∙ sym size;
          small = let small = h.holds.small in omega arith;
          sound =
              λ k p n. let (inside, key) = h.holds.sound k p n in (omega arith, key ∙ sym (same _));
          found = λ e p.
              let (s, l, at, way) = h.holds.found e (omega arith) in (s, l, at, rw (same e) way);
          distinct = λ a b p q m.
              h.holds.distinct a b (omega arith) (omega arith) (rw (same a, same b) at m);
        };
        roomy = h.roomy;
        tiny = h.tiny;
      }

  promote_fits :
      (st : Names) (i : ℕ) (decl : FixityDecl) (room : ℕ)
      → length st.ops + room ≤ cap
      → length (promote st i decl).ops + room ≤ cap
  unfolding promote
  promote_fits st i decl room l = omega (arith, length-set {0} {A = WokFixOp} st.ops i)

  pub head-Leaves :
      (st : Names) (decl : FixityDecl) (room : ℕ)
      → decl.name.off < u32_max
      → IsIndexed ro cap st
      → length st.ops + suc room ≤ cap
      → (st' : Names) × (declare_head ro.src st decl (place (find_from ro decl.name 0 st.ops))
          ≡ some st')
        × Leaves ro cap room
            (with_decl st decl)
            (λ x. known ro st.ops x || span_eq ro x decl.name)
            st'
  unfolding declare_head
  head-Leaves st decl room o h l = elim (Option-cases (find_from ro decl.name 0 st.ops)) [
    | inl z ↦
        let (st', e, h', g) = append_op-IsIndexed ro cap st (head_op decl) h (omega arith) z in
        (
          st',
          rw z e,
          record {
            indexed = h';
            fits = omega (arith, ap (λ ops. length ops) g, length-grown st.ops (head_op decl));
            says = λ name. ap (λ ops. verdict ro ops name) g ∙ appended_says st decl name o z;
            knows =
                λ name. ap (λ ops. known ro ops name) g ∙ known-grown ro st.ops (head_op decl) name;
          },
        )
    | inr (i, z) ↦
        let (p, n) = found_place st decl.name i h (omega arith) z in
        (
          promote st i decl,
          rw (z, n) refl,
          record {
            indexed = promote-IsIndexed st i decl h;
            fits = promote_fits st i decl room (omega arith);
            says = λ name. promoted_says st decl i name o z;
            knows = λ name. promoted_knows st decl i name z;
          },
        )
  ]
