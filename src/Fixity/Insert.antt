-- ===== src/Fixity/Insert.antt =====
-- grammar/c/wok_resolve.c: a name that is added to the index is found there, and no other is lost.
use wokml.Prelude.{
  ℕ, ◌+◌, ◌≡◌, ◌≢◌, ◌<◌, inl, inr, refl, sym, ap, ◌∙◌, subst, true, none, some, List, [], ◌∷◌, ◌++◌,
  ltb, ◌==◌, length, set, Bool-cases, arith, eq_of_==, ne_of_==, length-set, get_or-set_self,
  get_or-set_ne, length-append, get_or-append_left, get_or-append_right,
}
use wokml.Ast.{WokSpan}
use wokml.Reorder.{Ro, WokFixOp, span_eq, find_from}
use wokml.Fixity.{
  u32_max, name_hash, NameIdx, entry_at, key_at, first_slot, idx_add, nobody, no_name,
}
use wokml.Fixity.Slots.{
  IsSized, masked-lt, gap-lt, Leads, stop, step, count_used-set, free_slot, claim_from,
}
use wokml.Fixity.Index.{Holds, name_at, find_from_miss, span_eq_sym}

filled : NameIdx → (f : ℕ) → WokSpan → (e : ℕ) → NameIdx
filled ix f name e = record ix { key = set ix.key f name; entry = set ix.entry f e }

module _ (ix : NameIdx) (sized : IsSized ix) (f : ℕ) (p : f < ix.mask + 1) (name : WokSpan)
    (e : ℕ) where
  filled-IsSized : IsSized (filled ix f name e)
  unfolding filled
  filled-IsSized = record {
    power = sized.power;
    masked = sized.masked;
    entries = length-set ix.entry f e ∙ sized.entries;
    keys = length-set ix.key f name ∙ sized.keys;
  }

  filled_entry : entry_at (filled ix f name e) f ≡ e
  unfolding filled
  filled_entry = let size = sized.entries in get_or-set_self ix.entry f e u32_max (omega arith)

  filled_key : key_at (filled ix f name e) f ≡ name
  unfolding filled
  filled_key = let size = sized.keys in get_or-set_self ix.key f name no_name (omega arith)

  filled_entry_ne : (k : ℕ) → f ≢ k → entry_at (filled ix f name e) k ≡ entry_at ix k
  unfolding filled
  filled_entry_ne k n = get_or-set_ne ix.entry f k e u32_max n

  filled_key_ne : (k : ℕ) → f ≢ k → key_at (filled ix f name e) k ≡ key_at ix k
  unfolding filled
  filled_key_ne k n = get_or-set_ne ix.key f k name no_name n

  filled_taken :
      (k : ℕ) → e ≢ u32_max → entry_at ix k ≢ u32_max → entry_at (filled ix f name e) k ≢ u32_max
  filled_taken k n t c = elim (Bool-cases (f == k)) [
    | inl z ↦
        let at = eq_of_== f k z in
        n (sym filled_entry ∙ ap (λ v. entry_at (filled ix f name e) v) at ∙ c)
    | inr z ↦ t (sym (filled_entry_ne k (ne_of_== f k z)) ∙ c)
  ]

  -- A slot that is filled leaves every walk as it was.
  filled-Leads : {s k : ℕ} → e ≢ u32_max → Leads ix s k → Leads (filled ix f name e) s k
  unfolding filled
  filled-Leads n stop = stop
  filled-Leads n (step {k = k} t way) = step (filled_taken k n t) (filled-Leads n way)

abbrev pub grown : List WokFixOp → WokFixOp → List WokFixOp
grown ops op = ops ++ op ∷ []

pub name_at_old :
    (ops : List WokFixOp) (op : WokFixOp) (i : ℕ)
    → i < length ops
    → name_at (grown ops op) i ≡ name_at ops i
name_at_old ops op i h = ap (λ o. o.name) (get_or-append_left ops (op ∷ []) i nobody h)

pub name_at_new :
    (ops : List WokFixOp) (op : WokFixOp) → name_at (grown ops op) (length ops) ≡ op.name
name_at_new ops op =
    ap (λ k. name_at (grown ops op) k) (omega arith)
    ∙ ap (λ o. o.name) (get_or-append_right ops (op ∷ []) 0 nobody)

pub length-grown : (ops : List WokFixOp) (op : WokFixOp) → length (grown ops op) ≡ length ops + 1
length-grown ops op = length-append ops (op ∷ [])

module _ (ro : Ro) (ix : NameIdx) (ops : List WokFixOp) (h : Holds ro ix ops) (op : WokFixOp)
    (missing : find_from ro op.name 0 ops ≡ none) (tiny : length ops < u32_max) (f : ℕ)
    (p : f < ix.mask + 1) (free : entry_at ix f ≡ u32_max) where
  added : NameIdx
  added = filled ix f op.name (length ops)

  added_sound :
      (k : ℕ)
      → k < ix.mask + 1
      → entry_at added k ≢ u32_max
      → (entry_at added k < length (grown ops op))
        × (key_at added k ≡ name_at (grown ops op) (entry_at added k))
  unfolding added
  added_sound k l n = elim (Bool-cases (f == k)) [
    | inl z ↦
        let at = eq_of_== f k z in
        let e : entry_at added k ≡ length ops =
          ap (λ v. entry_at added v) (sym at) ∙ filled_entry ix h.sized f p op.name (length ops) in
        let key : key_at added k ≡ op.name =
          ap (λ v. key_at added v) (sym at) ∙ filled_key ix h.sized f p op.name (length ops) in
        (
          omega (arith, length-grown ops op),
          key ∙ sym (ap (λ v. name_at (grown ops op) v) e ∙ name_at_new ops op),
        )
    | inr z ↦
        let ne = ne_of_== f k z in
        let e : entry_at added k ≡ entry_at ix k =
          filled_entry_ne ix h.sized f p op.name (length ops) k ne in
        let key : key_at added k ≡ key_at ix k =
          filled_key_ne ix h.sized f p op.name (length ops) k ne in
        let (inside, held) = h.sound k l (λ c. n (e ∙ c)) in
        (
          omega (arith, length-grown ops op),
          key
              ∙ held
              ∙ sym (
                  ap (λ v. name_at (grown ops op) v) e ∙ name_at_old ops op (entry_at ix k) inside),
        )
  ]

  added_found :
      Leads ix f (first_slot ro.src ix op.name)
      → (e : ℕ) → e < length (grown ops op)
      → (s : ℕ) × (s < ix.mask + 1)
        × (entry_at added s ≡ e)
        × Leads added s (first_slot ro.src ix (name_at (grown ops op) e))
  unfolding added
  added_found way e l = elim (Bool-cases (e == length ops)) [
    | inl z ↦
        let at = eq_of_== e (length ops) z in
        (
          f,
          p,
          filled_entry ix h.sized f p op.name (length ops) ∙ sym at,
          subst (λ v. Leads added f (first_slot ro.src ix v))
              (sym (ap (λ v. name_at (grown ops op) v) at ∙ name_at_new ops op))
              (filled-Leads ix h.sized f p op.name (length ops) (λ c. omega arith) way),
        )
    | inr z ↦
        let ne = ne_of_== e (length ops) z in
        let old : e < length ops = let g = length-grown ops op in omega arith in
        let (s, b, at, road) = h.found e old in
        let other : f ≢ s = λ c. let g = ap (λ v. entry_at ix v) c in omega arith in
        (
          s,
          b,
          filled_entry_ne ix h.sized f p op.name (length ops) s other ∙ at,
          subst (λ v. Leads added s (first_slot ro.src ix v)) (sym (name_at_old ops op e old))
              (filled-Leads ix h.sized f p op.name (length ops) (λ c. omega arith) road),
        )
  ]

  fresh : {A : Type 0} (i : ℕ) → i < length ops → span_eq ro (name_at ops i) op.name ≡ true → A
  fresh i l m =
      let back = span_eq_sym ro (name_at ops i) op.name m in
      let miss = find_from_miss ro op.name 0 i ops missing l in cc

  added_distinct :
      (i j : ℕ)
      → i < length (grown ops op)
      → j < length (grown ops op)
      → span_eq ro (name_at (grown ops op) i) (name_at (grown ops op) j) ≡ true
      → i ≡ j
  added_distinct i j p q m =
      let size = length-grown ops op in
      elim (Bool-cases (ltb i (length ops))) [
        | inl y ↦ elim (Bool-cases (ltb j (length ops))) [
          | inl z ↦
              h.distinct i j (ground arith) (ground arith)
                (rw (name_at_old ops op i (ground arith), name_at_old ops op j (ground arith)) at m)
          | inr z ↦
              let last : j ≡ length ops = ground arith in
              fresh i (ground arith)
                (rw (last, name_at_old ops op i (ground arith), name_at_new ops op) at m)
        ]
        | inr y ↦
            let first : i ≡ length ops = ground arith in
            elim (Bool-cases (ltb j (length ops))) [
              | inl z ↦
                  let m' : span_eq ro op.name (name_at ops j) ≡ true =
                    rw (first, name_at_new ops op, name_at_old ops op j (ground arith)) at m in
                  let miss = find_from_miss ro op.name 0 j ops missing (ground arith) in cc
              | inr z ↦ ground arith
            ]
      ]

  added-Holds : Leads ix f (first_slot ro.src ix op.name) → Holds ro added (grown ops op)
  unfolding added filled
  added-Holds way = record {
    sized = filled-IsSized ix h.sized f p op.name (length ops);
    used =
        let size = h.sized.entries in
        count_used-set ix.entry f (length ops) (omega arith) free (λ c. omega arith)
        ∙ ap (λ n. n + 1) h.used
        ∙ sym (length-grown ops op);
    small = omega (arith, length-grown ops op);
    sound = added_sound;
    found = added_found way;
    distinct = added_distinct;
  }

-- A name that no operator has is added while a slot is free: the index then holds the operators with
-- a new last one of that name.
pub idx_add-Holds :
    (ro : Ro) (ix : NameIdx) (ops : List WokFixOp) (op : WokFixOp)
    → Holds ro ix ops
    → find_from ro op.name 0 ops ≡ none
    → length ops < ix.mask + 1
    → length ops < u32_max
    → (ix' : NameIdx) × (idx_add ro.src ix op.name (length ops) ≡ some ix')
      × Holds ro ix' (grown ops op)
      × (ix'.mask ≡ ix.mask)
unfolding idx_add added filled
idx_add-Holds ro ix ops op h missing roomy tiny =
    let used = h.used in
    let (f, q, g) = free_slot ix h.sized (omega arith) in
    let p : first_slot ro.src ix op.name < ix.mask + 1 =
      masked-lt ix (name_hash ro.src op.name) h.sized in
    let (s, claimed, l, free, way) =
      claim_from (ix.mask + 1) ix (first_slot ro.src ix op.name) f h.sized p q g
        (gap-lt ix (first_slot ro.src ix op.name) f p q) in
    (
      added ro ix ops h op missing tiny s l free,
      rw claimed refl,
      added-Holds ro ix ops h op missing tiny s l free way,
      refl,
    )
