-- ===== src/Utf8/Find.antt =====
-- `wok_utf8_find_invalid`: the offset at which the longest well-formed prefix ends.
use wokml.Prelude.{
  ℕ, zero, suc, ◌+◌, ◌≡◌, ◌≢◌, ◌≤◌, ◌<◌, ◌⊎◌, refl, sym, subst, ap, ◌∙◌, false, [], ◌∷◌, ◌++◌, ltb,
  ◌==◌, length, drop, Bool-cases, eq_of_==, ne_of_==, inl, inr, arith, append_assoc, append-nil,
  length-append, length-drop, All-drop,
}
use wokml.Utf8.Spec.{IsChar, one, IsText, done, char}
use wokml.Utf8.{
  Bytes, seq_len, high_bit, word_high, skip_ascii, find_round, find_loop, find_invalid,
}
use wokml.Utf8.SeqLen.{IsBytes}
use wokml.Utf8.Chars.{Front, seq_len-IsChar, seq_len-Front, length-IsChar}
use wokml.Utf8.Table.{high_bit-leb}

-- No encoded character stands at the front.
abbrev pub NoChar : Bytes → Type 0
NoChar q = (c rest : Bytes) → IsChar c → q ≢ c ++ rest

-- `p` splits at `n`: a text, and then nothing or bytes that start with no character.
pub record Found (p : Bytes) (n : ℕ) : Type 0 where
  pub text : Bytes
  pub rest : Bytes
  pub splits : p ≡ text ++ rest
  pub size : length text ≡ n
  pub is_text : IsText text
  pub stops : (rest ≡ []) ⊎ ((rest ≢ []) × NoChar rest)

pub IsText-append : {p q : Bytes} → IsText p → IsText q → IsText (p ++ q)
IsText-append {q} done u = u
IsText-append {q} (char {c} {p} h t) u =
    subst IsText (sym (append_assoc c p q)) (char h (IsText-append t u))

-- A text in front only moves the place.
Found-text :
    {t q : Bytes} {n : ℕ} (p : Bytes) → p ≡ t ++ q → IsText t → Found q n → Found p (length t + n)
Found-text {t} p e h f = record {
  text = t ++ f.text;
  rest = f.rest;
  splits = e ∙ ap (◌++◌ t) f.splits ∙ sym (append_assoc t f.text f.rest);
  size = omega (arith, length-append t f.text, f.size);
  is_text = IsText-append h f.is_text;
  stops = f.stops;
}

-- The fast path passes over a text, and changes nothing else.
record Skipped (i : ℕ) (p : Bytes) : Type 0 where
  text : Bytes
  is_text : IsText text
  place : (skip_ascii i p).0 ≡ i + length text
  splits : p ≡ text ++ (skip_ascii i p).1

Skipped-here : (i : ℕ) (p : Bytes) → skip_ascii i p ≡ (i, p) → Skipped i p
Skipped-here i p e = record {
  text = [];
  is_text = done;
  place = ap (λ (s : ℕ × Bytes). s.0) e ∙ omega arith;
  splits = sym (ap (λ (s : ℕ × Bytes). s.1) e);
}

high_bit-ascii : (b : ℕ) → b < 256 → high_bit b ≡ false → b ≤ 0x7F
high_bit-ascii b h e = ground (arith, high_bit-leb b h)

ascii_char : {a : ℕ} {p : Bytes} → a ≤ 0x7F → IsText p → IsText (a ∷ p)
ascii_char {a} h t = char (one h) t

module _ (a b c d e f g h : ℕ) where
  word_ascii :
      (p : Bytes)
      → IsBytes (a ∷ b ∷ c ∷ d ∷ e ∷ f ∷ g ∷ h ∷ p)
      → word_high a b c d e f g h ≡ false
      → IsText (a ∷ b ∷ c ∷ d ∷ e ∷ f ∷ g ∷ h ∷ [])
  word_ascii p s t = ascii_char (high_bit-ascii a s.0 (ground arith)) (
      ascii_char (high_bit-ascii b s.1.0 (ground arith)) (
        ascii_char (high_bit-ascii c s.1.1.0 (ground arith)) (
          ascii_char (high_bit-ascii d s.1.1.1.0 (ground arith)) (
            ascii_char (high_bit-ascii e s.1.1.1.1.0 (ground arith)) (
              ascii_char (high_bit-ascii f s.1.1.1.1.1.0 (ground arith)) (
                ascii_char (high_bit-ascii g s.1.1.1.1.1.1.0 (ground arith))
                  (ascii_char (high_bit-ascii h s.1.1.1.1.1.1.1.0 (ground arith)) done)))))))

Skipped-word :
    (i a b c d e f g h : ℕ) (p : Bytes)
    → skip_ascii i (a ∷ b ∷ c ∷ d ∷ e ∷ f ∷ g ∷ h ∷ p) ≡ skip_ascii (i + 8) p
    → IsText (a ∷ b ∷ c ∷ d ∷ e ∷ f ∷ g ∷ h ∷ [])
    → Skipped (i + 8) p
    → Skipped i (a ∷ b ∷ c ∷ d ∷ e ∷ f ∷ g ∷ h ∷ p)
Skipped-word i a b c d e f g h p q t s = record {
  text = a ∷ b ∷ c ∷ d ∷ e ∷ f ∷ g ∷ h ∷ s.text;
  is_text = IsText-append t s.is_text;
  place = ap (λ (s : ℕ × Bytes). s.0) q ∙ s.place ∙ omega arith;
  splits =
      ap (λ (r : Bytes). a ∷ b ∷ c ∷ d ∷ e ∷ f ∷ g ∷ h ∷ r) s.splits
      ∙ ap (λ (r : ℕ × Bytes). a ∷ b ∷ c ∷ d ∷ e ∷ f ∷ g ∷ h ∷ (s.text ++ r.1)) (sym q);
}

skip_ascii-Skipped : (i : ℕ) (p : Bytes) → IsBytes p → Skipped i p
unfolding skip_ascii
skip_ascii-Skipped i (a ∷ b ∷ c ∷ d ∷ e ∷ f ∷ g ∷ h ∷ p) all =
    elim (Bool-cases (word_high a b c d e f g h)) [
      | inl t ↦ Skipped-here i (a ∷ b ∷ c ∷ d ∷ e ∷ f ∷ g ∷ h ∷ p) (rw t refl)
      | inr t ↦
          Skipped-word i a b c d e f g h p (rw t refl) (word_ascii a b c d e f g h p all t)
            (skip_ascii-Skipped (i + 8) p all.1.1.1.1.1.1.1.1)
    ]
skip_ascii-Skipped i [] all = Skipped-here i [] refl
skip_ascii-Skipped i p all = Skipped-here i p refl

pub drop-append : (t q : Bytes) → drop (length t) (t ++ q) ≡ q
drop-append [] q = refl
drop-append (x ∷ t) q = drop-append t q

Found-here : (p : Bytes) → (p ≡ []) ⊎ ((p ≢ []) × NoChar p) → Found p 0
Found-here p s = record {
  text = [];
  rest = p;
  splits = refl;
  size = refl;
  is_text = done;
  stops = s;
}

-- What a round of the outer loop finds at the end of the fast path.
NoChar-seq_len : (q : Bytes) → IsBytes q → seq_len q (length q) ≡ 0 → NoChar q
NoChar-seq_len q b z c rest h e =
    absurd (omega (arith, seq_len-IsChar q b c rest h e, (length-IsChar h).0))

drop-Front : {q : Bytes} {n : ℕ} (f : Front q n) → drop n q ≡ f.rest
drop-Front f = rw (f.splits, ← f.size) (drop-append f.lead f.rest)

IsBytes-drop : (n : ℕ) (q : Bytes) → IsBytes q → IsBytes (drop n q)
IsBytes-drop = All-drop (λ b. b < 256)

Found-char : {q : Bytes} {n m : ℕ} → Front q n → Found (drop n q) m → Found q (n + m)
Found-char {q} {m} f g =
    let text : IsText f.lead = subst IsText (append-nil f.lead) (char f.is_char done) in
    let rest : Found f.rest m = subst (λ r. Found r m) (drop-Front f) g in
    rw (← f.size) (Found-text q f.splits text rest)

length-drop-Front : {q : Bytes} {n : ℕ} → Front q n → 0 < n → length (drop n q) < length q
length-drop-Front {q} {n} f pos =
    omega (arith, length-drop n q, ap length f.splits, length-append f.lead f.rest, f.size)

Front-ascii : (a : ℕ) (q : Bytes) → a < 0x80 → Front (a ∷ q) 1
Front-ascii a q h = record {
  lead = a ∷ [];
  rest = q;
  splits = refl;
  size = refl;
  is_char = one (omega arith);
}

-- What the loop promises of the bytes `q` at offset `j`.
abbrev Finds : (ℕ → Bytes → ℕ) → ℕ → Bytes → Type 0
Finds rec j q = (n : ℕ) × (rec j q ≡ j + n) × Found q n

module _ (rec : ℕ → Bytes → ℕ) (j : ℕ) (q : Bytes) (b : IsBytes q)
    (next : (k : ℕ) (r : Bytes) → length r < length q → IsBytes r → Finds rec k r) where
  -- The round goes on behind a character of `n` bytes.
  Finds-char :
      (n : ℕ)
      → 0 < n
      → Front q n
      → find_round rec j q ≡ rec (j + n) (drop n q)
      → Finds (find_round rec) j q
  Finds-char n pos f e =
      let (m, eq, found) = next (j + n) (drop n q) (length-drop-Front f pos) (IsBytes-drop n q b) in
      (n + m, e ∙ eq ∙ omega arith, Found-char f found)

  Finds-here :
      find_round rec j q ≡ j → (q ≡ []) ⊎ ((q ≢ []) × NoChar q) → Finds (find_round rec) j q
  Finds-here e s = (0, e ∙ omega arith, Found-here q s)

find_round-Finds :
    (rec : ℕ → Bytes → ℕ) (j : ℕ) (q : Bytes)
    → IsBytes q
    → ((k : ℕ) (r : Bytes) → length r < length q → IsBytes r → Finds rec k r)
    → Finds (find_round rec) j q
unfolding find_round
find_round-Finds rec j [] b next = Finds-here rec j [] b next refl (inl refl)
find_round-Finds rec j (a ∷ q) b next = elim (Bool-cases (ltb a 0x80)) [
  | inl low ↦
      Finds-char rec j (a ∷ q) b next 1 (omega arith) (Front-ascii a q (ground arith)) (rw low refl)
  | inr high ↦ elim (Bool-cases (seq_len (a ∷ q) (length (a ∷ q)) == 0)) [
    | inl z ↦
        Finds-here rec j (a ∷ q) b next (rw (high, z) refl)
          (inr ((λ e. cc), NoChar-seq_len (a ∷ q) b (eq_of_== _ _ z)))
    | inr z ↦
        Finds-char rec j (a ∷ q) b next (seq_len (a ∷ q) (length (a ∷ q))) (ground arith)
          (seq_len-Front (a ∷ q) b (ne_of_== _ _ z)) (rw (high, z) refl)
  ]
]

pub All-behind : (t q : Bytes) → IsBytes (t ++ q) → IsBytes q
All-behind [] q b = b
All-behind (x ∷ t) q b = All-behind t q b.1

find_loop-Found :
    (fuel i : ℕ) (p : Bytes) → length p < fuel → IsBytes p → Finds (find_loop fuel) i p
unfolding find_loop
find_loop-Found zero i p h b = absurd (omega arith)
find_loop-Found (suc fuel) i p h b =
    let s = skip_ascii-Skipped i p b in
    let bytes : IsBytes (skip_ascii i p).1 =
      All-behind s.text (skip_ascii i p).1 (rw s.splits at b) in
    let (n, e, f) =
      find_round-Finds (find_loop fuel) (skip_ascii i p).0 (skip_ascii i p).1 bytes (λ k r lt br.
        find_loop-Found fuel k r
          (omega (arith, ap length s.splits, length-append s.text (skip_ascii i p).1)) br) in
    (length s.text + n, e ∙ omega (arith, s.place), Found-text p s.splits s.is_text f)

-- `wok_utf8_find_invalid` returns the place where the buffer stops being well formed: the bytes in
-- front of it are encoded characters one after the other, and either none are left or no encoded
-- character starts there. The fast path changes nothing of this, and the loop ends.
pub find_invalid-Found : (p : Bytes) → IsBytes p → Found p (find_invalid p)
unfolding find_invalid
find_invalid-Found p b =
    let (n, e, f) = find_loop-Found (suc (length p)) 0 p (omega arith) b in
    let k : find_invalid p ≡ n = e ∙ omega arith in rw k f
