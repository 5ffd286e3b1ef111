-- ===== src/Diag/Position.antt =====
-- grammar/c/wok_diag.c: the table of line starts, and `wok_diag_position`, which searches it.
use wokml.Prelude.{
  ℕ, zero, suc, ◌+◌, ◌-◌, ◌/◌, ◌%◌, ◌≡◌, ◌≤◌, ◌<◌, ◌⊎◌, refl, ap, ◌∙◌, none, some, List, [], ◌∷◌,
  length, get_or, ltb, leb, ◌==◌, if◌then◌else◌, subst, Bool-cases, inl, inr, arith,
}
use wokml.Diag.{WokDiagSink}

-- The second loop of `wok_diag_build_lines`, from offset `i` on.
pub starts_from : (i : ℕ) → List ℕ → List ℕ
starts_from i [] = []
starts_from i (c ∷ p) =
    let rest = starts_from (i + 1) p in if c == 10 then (i + 1) % 4294967296 ∷ rest else rest

pub build_lines : WokDiagSink → List ℕ
unfolding starts_from
build_lines s = elim s.line_starts [ none ↦ 0 ∷ starts_from 0 s.src | some starts ↦ starts ]

-- The binary search, from `lo` to `hi`.
pub search : (fuel : ℕ) → List ℕ → (off lo hi : ℕ) → ℕ
search zero starts off lo hi = lo
search (suc fuel) starts off lo hi =
    let mid = lo + (hi - lo) / 2 in
    let keep = leb (get_or starts mid 0) off in
    let next = search fuel starts off (if keep then mid else lo) (if keep then hi else mid) in
    if ltb (lo + 1) hi then next else lo

-- The line, the column, and the sink with its table.
pub position : WokDiagSink → (off : ℕ) → ℕ × ℕ × WokDiagSink
unfolding search build_lines
position s off =
    let starts = build_lines s in
    let lo = search (length starts) starts off 0 (length starts) in
    (
      (lo + 1) % 4294967296,
      (off + 4294967296 - get_or starts lo 0 + 1) % 4294967296,
      record s { line_starts = some starts },
    )

-- Line `k` of the table holds `off`: it starts no later, and the next line starts behind.
pub record Holds (starts : List ℕ) (off k : ℕ) : Type 0 where
  pub inside : k < length starts
  pub starts_before : get_or starts k 0 ≤ off
  pub next_behind : (k + 1 ≡ length starts) ⊎ (off < get_or starts (k + 1) 0)

abbrev Above : List ℕ → (off hi : ℕ) → Type 0
Above starts off hi = (hi ≡ length starts) ⊎ (off < get_or starts hi 0)

module _ (starts : List ℕ) (off : ℕ) where
  search-done :
      (lo hi : ℕ)
      → lo < hi
      → hi ≤ lo + 1
      → hi ≤ length starts
      → get_or starts lo 0 ≤ off
      → Above starts off hi
      → Holds starts off lo
  search-done lo hi lt near le below above =
      let e : hi ≡ lo + 1 = omega arith in
      record { inside = omega arith; starts_before = below; next_behind = rw e at above }

  search-Holds :
      (fuel lo hi : ℕ)
      → lo < hi
      → hi ≤ lo + fuel
      → hi ≤ length starts
      → get_or starts lo 0 ≤ off
      → Above starts off hi
      → Holds starts off (search fuel starts off lo hi)
  unfolding search
  search-Holds zero lo hi lt fuel le below above = absurd (omega arith)
  search-Holds (suc fuel) lo hi lt enough le below above = elim (Bool-cases (ltb (lo + 1) hi)) [
    | inr stop ↦ rw stop (search-done lo hi lt (ground arith) le below above)
    | inl more ↦
        let wide : lo + 1 < hi = ground arith in
        let mid = lo + (hi - lo) / 2 in
        elim (Bool-cases (leb (get_or starts mid 0) off)) [
          | inl keep ↦
              rw (more, keep)
                (search-Holds fuel mid hi (omega arith) (omega arith) le (ground arith) above)
          | inr drop_ ↦
              rw (more, drop_)
                (search-Holds fuel lo mid (omega arith) (omega arith) (omega arith) below
                  (inr (ground arith)))
        ]
  ]

length-starts_from : (i : ℕ) (p : List ℕ) → length (starts_from i p) ≤ length p
unfolding starts_from
length-starts_from i [] = omega arith
length-starts_from i (c ∷ p) = ground (arith, length-starts_from (i + 1) p)

-- The number of line feeds among the first `n` bytes.
abbrev pub newlines : (n : ℕ) → List ℕ → ℕ
newlines zero p = 0
newlines (suc n) [] = 0
newlines (suc n) (c ∷ p) = (if c == 10 then 1 else 0) + newlines n p

-- `k` of the entries are at `off` or before.
pub record Splits (ts : List ℕ) (off k : ℕ) : Type 0 where
  pub within : k ≤ length ts
  pub before : (j : ℕ) → k ≡ suc j → get_or ts j 0 ≤ off
  pub behind : (k ≡ length ts) ⊎ (off < get_or ts k 0)

after_start :
    (i j : ℕ) (p : List ℕ)
    → i + length p < 4294967296
    → j < length (starts_from i p)
    → i < get_or (starts_from i p) j 0
unfolding starts_from
after_start i j [] h lt = absurd (omega arith)
after_start i zero (c ∷ p) h lt = elim (Bool-cases (c == 10)) [
  | inl z ↦ rw z (omega arith)
  | inr z ↦ rw z (omega (arith, after_start (i + 1) zero p (omega arith) (rw z at lt)))
]
after_start i (suc j) (c ∷ p) h lt = elim (Bool-cases (c == 10)) [
  | inl z ↦ rw z (omega (arith, after_start (i + 1) j p (omega arith) (lower (rw z at lt))))
  | inr z ↦ rw z (omega (arith, after_start (i + 1) (suc j) p (omega arith) (rw z at lt)))
]
  where
    lower : {a b : ℕ} → suc a < suc b → a < b
    lower h = omega arith

-- No entry is at `i` or before.
Splits-first :
    (i k : ℕ) (p : List ℕ) → i + length p < 4294967296 → Splits (starts_from i p) i k → k ≡ 0
Splits-first i zero p h s = refl
Splits-first i (suc j) p h s =
    absurd (omega (arith, after_start i j p h (omega (arith, s.within)), s.before j refl))

Splits-tail : {t off k : ℕ} {ts : List ℕ} → Splits (t ∷ ts) off (suc k) → Splits ts off k
Splits-tail s = record {
  within = omega (arith, s.within);
  before = λ j e. s.before (suc j) (ap suc e);
  behind = elim s.behind [ inl e ↦ inl (omega arith) | inr h ↦ inr h ];
}

-- The entry of a line feed at `i`, in front of the others.
Splits-newline :
    (p : List ℕ) (i n k : ℕ)
    → i + suc (length p) < 4294967296
    → ((j : ℕ) → Splits (starts_from (i + 1) p) (i + 1 + n) j → j ≡ newlines n p)
    → Splits ((i + 1) % 4294967296 ∷ starts_from (i + 1) p) (i + suc n) k
    → k ≡ 1 + newlines n p
Splits-newline p i n zero h next s =
    absurd (elim s.behind [ inl e ↦ omega arith | inr x ↦ omega arith ])
Splits-newline p i n (suc k) h next s =
    omega (
      arith,
      next k (subst (λ o. Splits (starts_from (i + 1) p) o k) (omega arith) (Splits-tail s)),
    )

Splits-newlines :
    (p : List ℕ) (i n k : ℕ)
    → i + length p < 4294967296
    → Splits (starts_from i p) (i + n) k
    → k ≡ newlines n p
unfolding starts_from
Splits-newlines p i zero k h s =
    Splits-first i k p h (subst (λ o. Splits (starts_from i p) o k) (omega arith) s)
Splits-newlines [] i (suc n) k h s = omega (arith, s.within)
Splits-newlines (c ∷ p) i (suc n) k h s =
    let next = λ (j : ℕ) (t : Splits (starts_from (i + 1) p) (i + 1 + n) j).
      Splits-newlines p (i + 1) n j (omega arith) t in
    elim (Bool-cases (c == 10)) [
      | inl z ↦ rw z (Splits-newline p i n k h next (rw z at s))
      | inr z ↦ rw z (
          omega (
            arith,
            next k (subst (λ o. Splits (starts_from (i + 1) p) o k) (omega arith) (rw z at s)),
          ))
    ]

Holds-Splits : (ts : List ℕ) {off k : ℕ} → Holds (0 ∷ ts) off k → Splits ts off k
Holds-Splits ts {off} {k} h = record {
  within = omega (arith, h.inside);
  before = λ j e. rw e at h.starts_before;
  behind = elim h.next_behind [ inl e ↦ inl (omega arith) | inr lt ↦ inr (next_entry k lt) ];
}
  where
    next_entry : (k : ℕ) → off < get_or (0 ∷ ts) (k + 1) 0 → off < get_or ts k 0
    next_entry k lt = subst (λ j. off < get_or (0 ∷ ts) j 0) (one_more k) lt
      where
        one_more : (k : ℕ) → k + 1 ≡ suc k
        one_more k = omega arith

small_line : (x : ℕ) → x < 4294967296 → x % 4294967296 ≡ x
small_line x h = omega arith

-- The line that `wok_diag_position` computes from a fresh sink, for a source of less than 4 GiB, is
-- one more than the number of line feeds in front of the offset, also for an offset behind the end.
pub position-newlines :
    (s : WokDiagSink) (off : ℕ)
    → s.line_starts ≡ none
    → length s.src + 1 < 4294967296
    → (position s off).0 ≡ newlines off s.src + 1
unfolding position build_lines
position-newlines s off fresh small =
    let ts = starts_from 0 s.src in
    let len = length-starts_from 0 s.src in
    let lo = search (suc (length ts)) (0 ∷ ts) off 0 (suc (length ts)) in
    let holds : Holds (0 ∷ ts) off lo =
      search-Holds (0 ∷ ts) off (suc (length ts)) 0 (suc (length ts)) (omega arith) (omega arith)
        (omega arith) (omega arith) (inl refl) in
    let line : lo ≡ newlines off s.src =
      Splits-newlines s.src 0 off lo (omega arith)
        (subst (λ o. Splits ts o lo) (omega arith) (Holds-Splits ts holds)) in
    rw fresh (small_line (lo + 1) (omega (arith, holds.inside, len)) ∙ omega (arith, line))
