-- ===== src/Utf8/Chars.antt =====
-- Encoded characters and `wok_utf8_seq_len`.
use wokml.Prelude.{
  ℕ, ◌≡◌, ◌≢◌, ◌≤◌, ◌<◌, refl, true, ◌&&◌, [], ◌∷◌, ◌++◌, ltb, ◌==◌, length, Bool-cases, inl, inr,
  arith,
}
use wokml.Utf8.Spec.{is_cont, row, IsChar, one, two, three, four}
use wokml.Utf8.{Bytes, seq_len}
use wokml.Utf8.SeqLen.{IsBytes, tail3, tail4, by_row, after_lead, char_len, seq_len-char_len}

-- `p` starts with an encoded character of `n` bytes, and `rest` follows it.
pub record Front (p : Bytes) (n : ℕ) : Type 0 where
  pub lead : Bytes
  pub rest : Bytes
  pub splits : p ≡ lead ++ rest
  pub size : length lead ≡ n
  pub is_char : IsChar lead

char_len-tail3 : (a b : ℕ) (p : Bytes) → row a b ≡ 3 → tail3 p ≢ 0 → Front (a ∷ b ∷ p) (tail3 p)
char_len-tail3 a b [] r ne = absurd (ne refl)
char_len-tail3 a b (c ∷ p) r ne = elim (Bool-cases (is_cont c)) [
  | inl h ↦
      rw h (record {
        lead = a ∷ b ∷ c ∷ [];
        rest = p;
        splits = refl;
        size = refl;
        is_char = three r h;
      })
  | inr h ↦ absurd (ne (rw h refl))
]

char_len-tail4 : (a b : ℕ) (p : Bytes) → row a b ≡ 4 → tail4 p ≢ 0 → Front (a ∷ b ∷ p) (tail4 p)
char_len-tail4 a b [] r ne = absurd (ne refl)
char_len-tail4 a b (c ∷ []) r ne = absurd (ne refl)
char_len-tail4 a b (c ∷ d ∷ p) r ne = elim (Bool-cases (is_cont c && is_cont d)) [
  | inl h ↦ rw h (record {
    lead = a ∷ b ∷ c ∷ d ∷ [];
    rest = p;
    splits = refl;
    size = refl;
    is_char = four r (ground arith) (ground arith);
  })
  | inr h ↦ absurd (ne (rw h refl))
]

by_row-Front :
    (a b : ℕ) (p : Bytes) → by_row (row a b) p ≢ 0 → Front (a ∷ b ∷ p) (by_row (row a b) p)
by_row-Front a b p ne = elim (Bool-cases (row a b == 2)) [
  | inl h ↦ rw h (record {
    lead = a ∷ b ∷ [];
    rest = p;
    splits = refl;
    size = refl;
    is_char = two (ground arith);
  })
  | inr h ↦ elim (Bool-cases (row a b == 3)) [
    | inl k ↦ rw (h, k) (char_len-tail3 a b p (ground arith) (ground arith))
    | inr k ↦ elim (Bool-cases (row a b == 4)) [
      | inl l ↦ rw (h, k, l) (char_len-tail4 a b p (ground arith) (ground arith))
      | inr l ↦ absurd (ne (rw (h, k, l) refl))
    ]
  ]
]

char_len-after : (a : ℕ) (p : Bytes) → after_lead a p ≢ 0 → Front (a ∷ p) (after_lead a p)
char_len-after a [] ne = absurd (ne refl)
char_len-after a (b ∷ p) ne = by_row-Front a b p ne

pub char_len-Front : (p : Bytes) → char_len p ≢ 0 → Front p (char_len p)
unfolding char_len
char_len-Front [] ne = absurd (ne refl)
char_len-Front (a ∷ p) ne = elim (Bool-cases (ltb a 0x80)) [
  | inl h ↦
      rw h (record {
        lead = a ∷ [];
        rest = p;
        splits = refl;
        size = refl;
        is_char = one (ground arith);
      })
  | inr h ↦ rw h (char_len-after a p (rw h at ne))
]

-- The lead byte of a character of several bytes is not ASCII.
pub row-high : (a b : ℕ) → ltb a 0x80 ≡ true → row a b ≡ 0
unfolding row
row-high a b h = ground arith

pub char_len-append : {c : Bytes} → IsChar c → (p : Bytes) → char_len (c ++ p) ≡ length c
unfolding char_len
char_len-append (one {a} h) p = ground arith
char_len-append (two {a} {b} h) p = ground (arith, row-high a b)
char_len-append (three {a} {b} {c} h k) p = ground (arith, row-high a b)
char_len-append (four {a} {b} {c} {d} h k l) p = ground (arith, row-high a b)

pub length-IsChar : {c : Bytes} → IsChar c → (0 < length c) × (length c ≤ 4)
length-IsChar (one h) = omega arith
length-IsChar (two h) = omega arith
length-IsChar (three h k) = omega arith
length-IsChar (four h k l) = omega arith

-- Over a buffer of bytes that starts with an encoded character, `wok_utf8_seq_len` is the length of
-- that character.
pub seq_len-IsChar :
    (p : Bytes)
    → IsBytes p
    → (c rest : Bytes) → IsChar c
    → p ≡ c ++ rest
    → seq_len p (length p) ≡ length c
seq_len-IsChar p h c rest k e = rw (seq_len-char_len p h) (rw e (char_len-append k rest))

-- Where `wok_utf8_seq_len` over a buffer of bytes is not 0, the buffer starts with an encoded
-- character of that length.
pub seq_len-Front :
    (p : Bytes) → IsBytes p → seq_len p (length p) ≢ 0 → Front p (seq_len p (length p))
seq_len-Front p h = rw (seq_len-char_len p h) (char_len-Front p)
