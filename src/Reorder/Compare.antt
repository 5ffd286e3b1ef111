-- ===== src/Reorder/Compare.antt =====
-- grammar/c/wok_reorder.c: the comparison of two occurrences, by their places in the fixity table.
use wokml.Prelude.{
  ℕ, ◌+◌, ◌≡◌, ◌<◌, refl, sym, ap, ◌∙◌, true, some, List, [], ◌∷◌, ◌==◌, if◌then◌else◌, length,
  Bool-cases, inl, inr, arith, eq_of_==, ne_of_==, some-injective, ◌≤◌,
}
use wokml.Token.Words.{same_bytes}
use wokml.Ast.{WokSpan}
use wokml.Reorder.{
  Ro, WokFixOp, text_at, span_eq, find_from, fix_find, fix_tighter, Tail, Order, ord_tighter,
  ord_looser, ord_equal, ord_incomparable, compare_ops,
}

same_bytes-eq : (xs ys : List ℕ) → same_bytes xs ys ≡ true → xs ≡ ys
unfolding same_bytes
same_bytes-eq [] [] h = refl
same_bytes-eq [] (y ∷ ys) h = cc
same_bytes-eq (x ∷ xs) [] h = cc
same_bytes-eq (x ∷ xs) (y ∷ ys) h =
    let a : x ≡ y = ground arith in let b = same_bytes-eq xs ys (ground arith) in cc

pub same_bytes_refl : (xs : List ℕ) → same_bytes xs xs ≡ true
unfolding same_bytes
same_bytes_refl [] = refl
same_bytes_refl (x ∷ xs) = let t : (x == x) ≡ true = ground arith in rw t (same_bytes_refl xs)

-- What two equal spans agree in.
abbrev pub Same : Ro → (a b : WokSpan) → Type 0
Same ro a b = (a.len ≡ b.len) × (text_at ro a ≡ text_at ro b)

pub span_eq-Same : (ro : Ro) (a b : WokSpan) → span_eq ro a b ≡ true → Same ro a b
unfolding span_eq
span_eq-Same ro a b h = (ground arith, same_bytes-eq (text_at ro a) (text_at ro b) (ground arith))

pub Same-span_eq : (ro : Ro) (a b : WokSpan) → Same ro a b → span_eq ro a b ≡ true
unfolding span_eq
Same-span_eq ro a b (l, t) =
    let e : (a.len == b.len) ≡ true = ground arith in rw (e, sym t) (same_bytes_refl (text_at ro a))

Same-span_eq-left : (ro : Ro) (a b c : WokSpan) → Same ro a b → span_eq ro a c ≡ span_eq ro b c
unfolding span_eq
Same-span_eq-left ro a b c (l, t) = rw (t, l) refl

find_from-Same :
    (ro : Ro) (a b : WokSpan) (i : ℕ) (ops : List WokFixOp)
    → Same ro a b
    → find_from ro a i ops ≡ find_from ro b i ops
unfolding find_from
find_from-Same ro a b i [] s = refl
find_from-Same ro a b i (op ∷ ops) s =
    rw (Same-span_eq-left ro a b op.name s, find_from-Same ro a b (i + 1) ops s) refl

ne_of_lt : {A : Type 0} (i k : ℕ) → i ≡ k → i + 1 ≤ k → A
ne_of_lt i k e l = ground arith

find_from-ge :
    (ro : Ro) (a : WokSpan) (i k : ℕ) (ops : List WokFixOp)
    → find_from ro a i ops ≡ some k
    → (i ≤ k) × (k < i + length ops)
unfolding find_from
find_from-ge ro a i k [] e = cc
find_from-ge ro a i k (op ∷ ops) e = elim (Bool-cases (span_eq ro a op.name)) [
  | inl z ↦ let f : i ≡ k = some-injective i k (rw z at e) in (omega arith, omega arith)
  | inr z ↦ let (l, u) = find_from-ge ro a (i + 1) k ops (rw z at e) in (omega arith, omega arith)
]

-- Two names at one place of the table are the same.
find_from_unique :
    (ro : Ro) (a b : WokSpan) (i k : ℕ) (ops : List WokFixOp)
    → find_from ro a i ops ≡ some k
    → find_from ro b i ops ≡ some k
    → Same ro a b
unfolding find_from
find_from_unique ro a b i k [] e f = cc
find_from_unique ro a b i k (op ∷ ops) e f = elim (Bool-cases (span_eq ro a op.name)) [
  | inl z ↦ elim (Bool-cases (span_eq ro b op.name)) [
    | inl w ↦
        let (l, t) = span_eq-Same ro a op.name z in
        let (l', t') = span_eq-Same ro b op.name w in (l ∙ sym l', t ∙ sym t')
    | inr w ↦
        let g : i ≡ k = some-injective i k (rw z at e) in
        let (l, u) = find_from-ge ro b (i + 1) k ops (rw w at f) in ne_of_lt i k g l
  ]
  | inr z ↦ elim (Bool-cases (span_eq ro b op.name)) [
    | inl w ↦
        let g : i ≡ k = some-injective i k (rw w at f) in
        let (l, u) = find_from-ge ro a (i + 1) k ops (rw z at e) in ne_of_lt i k g l
    | inr w ↦ find_from_unique ro a b (i + 1) k ops (rw z at e) (rw w at f)
  ]
]

-- An occurrence whose place in the table has been looked up.
abbrev pub Known : Ro → Tail → Type 0
Known ro t = fix_find ro t.name ≡ some t.fix_idx

pub Known-inside : (ro : Ro) (t : Tail) → Known ro t → t.fix_idx < length ro.fix.ops
Known-inside ro t k = omega (arith, (find_from-ge ro t.name 0 t.fix_idx ro.fix.ops k).1)

-- The comparison by places.
unfoldable pub compare_places : Ro → (i j : ℕ) → Order
compare_places ro i j =
    if i == j
    then ord_equal
    else if fix_tighter ro i j
    then ord_tighter
    else if fix_tighter ro j i
    then ord_looser
    else ord_incomparable

pub compare_ops-places :
    (ro : Ro) (a b : Tail)
    → Known ro a
    → Known ro b
    → compare_ops ro a b ≡ compare_places ro a.fix_idx b.fix_idx
unfolding compare_ops compare_places
compare_ops-places ro a b k l =
    let same : span_eq ro a.name b.name ≡ (a.fix_idx == b.fix_idx) =
      elim (Bool-cases (a.fix_idx == b.fix_idx)) [
        | inl z ↦
            let e = eq_of_== a.fix_idx b.fix_idx z in
            let l' : fix_find ro b.name ≡ some a.fix_idx = l ∙ ap (λ n. some n) (sym e) in
            Same-span_eq ro a.name b.name
              (find_from_unique ro a.name b.name 0 a.fix_idx ro.fix.ops k l')
            ∙ sym z
        | inr z ↦ elim (Bool-cases (span_eq ro a.name b.name)) [
          | inr w ↦ w ∙ sym z
          | inl w ↦
              let s = span_eq-Same ro a.name b.name w in
              let e : some a.fix_idx ≡ some b.fix_idx =
                sym k ∙ find_from-Same ro a.name b.name 0 ro.fix.ops s ∙ l in
              absurd (ne_of_== a.fix_idx b.fix_idx z (some-injective a.fix_idx b.fix_idx e))
        ]
      ] in
    rw same refl
