-- ===== src/Utf8/Validate.antt =====
-- runtime/wok_utf8.c against grammar/c/wok_utf8.c and the standard.
use native.Mathlib.Decide.{dec_lt}
use wokml.Prelude.{
  ℕ, ◌≡◌, ◌≢◌, ◌↔◌, ◌<◌, ◌≤◌, refl, sym, ap, ◌∙◌, [], ◌∷◌, ◌++◌, ◌==◌, if◌then◌else◌, length, drop,
  inl, inr, arith, append_assoc, append-nil, length-append, Bool-cases, eq_of_==, ne_of_==, subst,
}
use wokml.Utf8.Spec.{is_cont, row, IsChar, IsText, done, char}
use wokml.Utf8.{Bytes, dfa_step, validate_loop, validate_utf8, find_invalid}
use wokml.Utf8.SeqLen.{IsBytes, tail3, tail4, by_row, after_lead, char_len, lead-ascii, lead-accept}
use wokml.Utf8.Chars.{length-IsChar, char_len-Front, char_len-append}
use wokml.Utf8.Table
use wokml.Utf8.Table.{lead_state}
use wokml.Utf8.Rows.{row_state, classify, two_steps, reject-row}
use wokml.Utf8.Find.{NoChar, Found, drop-append, find_invalid-Found, All-behind}

-- What follows a character of `n` bytes at the front of `q`; 0 where there is none.
abbrev follow : ℕ → Bytes → ℕ
follow n q = if n == 0 then 0 else validate_loop 0 (drop n q)

validate-one :
    (b : ℕ) (p : Bytes)
    → b < 256
    → validate_loop 24 (b ∷ p) ≡ (if is_cont b then validate_loop 0 p else 0)
unfolding validate_loop
validate-one b p h = ground (arith, Table.dfa_step-one b h)

validate-two :
    (b : ℕ) (p : Bytes)
    → b < 256
    → validate_loop 36 (b ∷ p) ≡ (if is_cont b then validate_loop 24 p else 0)
unfolding validate_loop
validate-two b p h = ground (arith, Table.dfa_step-two b h)

after_three : (a b : ℕ) (p : Bytes) → IsBytes p → validate_loop 24 p ≡ follow (tail3 p) (a ∷ b ∷ p)
unfolding validate_loop
after_three a b [] h = refl
after_three a b (c ∷ p) h = ground (arith, validate-one c p h.0)

after_four : (a b : ℕ) (p : Bytes) → IsBytes p → validate_loop 36 p ≡ follow (tail4 p) (a ∷ b ∷ p)
unfolding validate_loop
after_four a b [] h = refl
after_four a b (c ∷ []) h = ground (arith, validate-two c [] h.0)
after_four a b (c ∷ d ∷ p) h = ground (arith, validate-two c (d ∷ p) h.0, validate-one d p h.1.0)

validate-step :
    (s b : ℕ) (p : Bytes)
    → validate_loop s (b ∷ p) ≡ (if dfa_step s b == 12 then 0 else validate_loop (dfa_step s b) p)
unfolding validate_loop
validate-step s b p = refl

after_second :
    (r s a b : ℕ) (p : Bytes)
    → IsBytes p
    → dfa_step s b ≡ row_state r
    → validate_loop s (b ∷ p) ≡ follow (by_row r p) (a ∷ b ∷ p)
after_second r s a b p h e =
    validate-step s b p
    ∙ rw e (elim (Bool-cases (r == 2)) [
      | inl k ↦ rw k refl
      | inr k ↦ elim (Bool-cases (r == 3)) [
        | inl l ↦ rw (k, l) (after_three a b p h)
        | inr l ↦ elim (Bool-cases (r == 4)) [
          | inl m ↦ rw (k, l, m) (after_four a b p h)
          | inr m ↦ rw (k, l, m) refl
        ]
      ]
    ])

validate-lead :
    (a : ℕ) (p : Bytes)
    → a < 256
    → validate_loop 0 (a ∷ p) ≡ (if lead_state a == 12 then 0 else validate_loop (lead_state a) p)
unfolding validate_loop
validate-lead a p h = rw (Table.dfa_step-lead a h) refl

high_lead :
    (a b : ℕ) (p : Bytes)
    → a < 256
    → b < 256
    → IsBytes p
    → 0x80 ≤ a
    → validate_loop 0 (a ∷ b ∷ p) ≡ follow (by_row (row a b) p) (a ∷ b ∷ p)
high_lead a b p ha hb hp low = elim (Bool-cases (lead_state a == 12)) [
  | inl r ↦ validate-lead a (b ∷ p) ha ∙ ground (arith, reject-row a b (classify a) low)
  | inr s ↦
      validate-lead a (b ∷ p) ha
      ∙ rw s (
          after_second (row a b) (lead_state a) a b p hp
            (two_steps a b (classify a) hb low (ground arith)))
]

only_lead : (a : ℕ) → a < 256 → 0x80 ≤ a → validate_loop 0 (a ∷ []) ≡ 0
unfolding validate_loop
only_lead a h low = validate-lead a [] h ∙ ground (arith, lead-accept a)

validate_high :
    (a : ℕ) (p : Bytes)
    → IsBytes (a ∷ p)
    → 0x80 ≤ a
    → validate_loop 0 (a ∷ p) ≡ follow (after_lead a p) (a ∷ p)
validate_high a [] h low = only_lead a h.0 low
validate_high a (b ∷ p) h low = high_lead a b p h.0 h.1.0 h.1.1 low

-- The DFA of the runtime takes the text apart into characters.
validate-char_len :
    (a : ℕ) (p : Bytes)
    → IsBytes (a ∷ p)
    → validate_loop 0 (a ∷ p) ≡ follow (char_len (a ∷ p)) (a ∷ p)
unfolding char_len
validate-char_len a p h = elim (dec_lt a 0x80) [
  | yes lt ↦ validate-lead a p h.0 ∙ rw (lead-ascii a lt) (ground arith)
  | no ge ↦ validate_high a p h (omega arith) ∙ ground arith
]

validate-front : (p : Bytes) → IsBytes p → 0 < length p → validate_loop 0 p ≡ follow (char_len p) p
validate-front [] b pos = absurd (omega arith)
validate-front (a ∷ p) b pos = validate-char_len a p b

validate-IsChar :
    {c : Bytes}
    → IsChar c
    → (r : Bytes) → IsBytes (c ++ r)
    → validate_loop 0 (c ++ r) ≡ validate_loop 0 r
validate-IsChar {c} h r b =
    let pos : 0 < length c = (length-IsChar h).0 in
    validate-front (c ++ r) b (omega (arith, length-append c r))
    ∙ rw (char_len-append h r, drop-append c r) (ground arith)

validate-IsText :
    {t : Bytes}
    → IsText t
    → (q : Bytes) → IsBytes (t ++ q)
    → validate_loop 0 (t ++ q) ≡ validate_loop 0 q
validate-IsText done q b = refl
validate-IsText (char {c} {p} h t) q b =
    let b' : IsBytes (c ++ (p ++ q)) = subst IsBytes (append_assoc c p q) b in
    ap (validate_loop 0) (append_assoc c p q)
    ∙ validate-IsChar h (p ++ q) b'
    ∙ validate-IsText t q (All-behind c (p ++ q) b')

-- Where no character stands at the front, nothing is read.
char_len-NoChar : (q : Bytes) → NoChar q → char_len q ≡ 0
char_len-NoChar q k = elim (Bool-cases (char_len q == 0)) [
  | inl z ↦ eq_of_== _ _ z
  | inr z ↦ let f = char_len-Front q (ne_of_== _ _ z) in absurd (k f.lead f.rest f.is_char f.splits)
]

validate-NoChar : (q : Bytes) → IsBytes q → q ≢ [] → NoChar q → validate_loop 0 q ≡ 0
validate-NoChar [] b ne k = absurd (ne refl)
validate-NoChar (a ∷ q) b ne k = validate-char_len a q b ∙ rw (char_len-NoChar (a ∷ q) k)

length_pos : (q : Bytes) → q ≢ [] → 0 < length q
length_pos [] ne = absurd (ne refl)
length_pos (x ∷ q) ne = omega arith

ended : {n m : ℕ} → n ≡ m → validate_loop 0 [] ≡ (if n == m then 1 else 0)
unfolding validate_loop
ended e = ground arith

stopped : {n m : ℕ} → n < m → ◌≡◌ {A = ℕ} 0 (if n == m then 1 else 0)
stopped h = ground arith

-- The answer of `wok_validate_utf8` at a place where the buffer stops being well formed.
validate-Found :
    (p : Bytes) {n : ℕ} → IsBytes p → Found p n → validate_utf8 p ≡ (if n == length p then 1 else 0)
unfolding validate_utf8
validate-Found p {n} b f =
    let b' : IsBytes (f.text ++ f.rest) = subst IsBytes f.splits b in
    ap (validate_loop 0) f.splits ∙ validate-IsText f.is_text f.rest b' ∙ elim f.stops [
      | inl e ↦
          ap (validate_loop 0) e
          ∙ ended
              (omega (arith, ap length f.splits, length-append f.text f.rest, f.size, ap length e))
      | inr (ne, k) ↦
          validate-NoChar f.rest (All-behind f.text f.rest b') ne k
          ∙ stopped (
              omega (
                arith,
                ap length f.splits,
                length-append f.text f.rest,
                f.size,
                length_pos f.rest ne,
              ))
    ]

-- The two validators agree on every buffer of bytes: `wok_validate_utf8` of the runtime answers 1
-- exactly when `wok_utf8_find_invalid` of the front end returns the length of the buffer.
pub validate_utf8-find_invalid :
    (p : Bytes) → IsBytes p → validate_utf8 p ≡ (if find_invalid p == length p then 1 else 0)
validate_utf8-find_invalid p b = validate-Found p b (find_invalid-Found p b)

accepted-nil : validate_loop 0 [] ≡ 1
unfolding validate_loop
accepted-nil = refl

accepted : (p : Bytes) {n : ℕ} → IsBytes p → Found p n → validate_utf8 p ≡ 1 → IsText p
accepted p b f h = elim f.stops [
  | inl e ↦ subst IsText (sym (f.splits ∙ ap (◌++◌ f.text) e ∙ append-nil f.text)) f.is_text
  | inr (ne, k) ↦ absurd (
      let z = validate-Found p b f in
      let l = length_pos f.rest ne in
      ground (arith, ap length f.splits, length-append f.text f.rest, f.size))
]

-- `wok_validate_utf8` answers 1 exactly for the buffers that are well-formed UTF-8.
pub validate_utf8-IsText : (p : Bytes) → IsBytes p → (validate_utf8 p ≡ 1) ↔ IsText p
unfolding validate_utf8
validate_utf8-IsText p b = (
  accepted p b (find_invalid-Found p b),
  λ t.
      ap (validate_loop 0) (sym (append-nil p))
      ∙ validate-IsText t [] (subst IsBytes (sym (append-nil p)) b)
      ∙ accepted-nil,
)
