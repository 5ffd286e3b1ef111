-- ===== src/Utf8/SeqLen.antt =====
-- `wok_utf8_seq_len` against the table of the standard.
use native.Mathlib.Decide.{dec_lt}
use wokml.Prelude.{
  ℕ, suc, ◌+◌, ◌≡◌, ◌∙◌, ◌<◌, ◌≤◌, refl, ◌&&◌, [], ◌∷◌, ltb, ◌==◌, if◌then◌else◌, length, All,
  Bool-cases, inl, inr, arith,
}
use wokml.Utf8.Spec.{is_cont, row}
use wokml.Utf8.{Bytes, dfa_step, seq_loop, seq_len}
use wokml.Utf8.Table
use wokml.Utf8.Table.{lead_state}
use wokml.Utf8.Rows.{row_state, classify, two_steps, reject-row}

-- The length of the character at the front, 0 for none, read off the standard's table.
abbrev pub tail3 : Bytes → ℕ
tail3 [] = 0
tail3 (c ∷ p) = if is_cont c then 3 else 0

abbrev pub tail4 : Bytes → ℕ
tail4 [] = 0
tail4 (c ∷ []) = 0
tail4 (c ∷ d ∷ p) = if is_cont c && is_cont d then 4 else 0

abbrev pub by_row : ℕ → Bytes → ℕ
by_row r p = if r == 2 then 2 else if r == 3 then tail3 p else if r == 4 then tail4 p else 0

abbrev pub after_lead : ℕ → Bytes → ℕ
after_lead a [] = 0
after_lead a (b ∷ p) = by_row (row a b) p

unfoldable pub char_len : Bytes → ℕ
char_len [] = 0
char_len (a ∷ p) = if ltb a 0x80 then 1 else after_lead a p

abbrev pub IsBytes : Bytes → Type 0
IsBytes = All (λ b. b < 256)

-- One more byte, from the state that waits for one.
loop_one :
    (k i b : ℕ) (p : Bytes)
    → b < 256
    → seq_loop (suc k) i 24 (b ∷ p) ≡ (if is_cont b then i + 1 else 0)
unfolding seq_loop
loop_one k i b p h = ground (arith, Table.dfa_step-one b h)

-- One more byte, from the state that waits for two.
loop_two :
    (k i b : ℕ) (p : Bytes)
    → b < 256
    → seq_loop (suc k) i 36 (b ∷ p) ≡ (if is_cont b then seq_loop k (i + 1) 24 p else 0)
unfolding seq_loop
loop_two k i b p h = ground (arith, Table.dfa_step-two b h)

abbrev rounds : Bytes → ℕ
rounds [] = 0
rounds (c ∷ []) = 1
rounds (c ∷ d ∷ p) = 2

after_three : (p : Bytes) → IsBytes p → seq_loop (rounds p) 2 24 p ≡ tail3 p
unfolding seq_loop
after_three [] h = refl
after_three (c ∷ []) h = loop_one 0 2 c [] h.0
after_three (c ∷ d ∷ p) h = loop_one 1 2 c (d ∷ p) h.0

after_four : (p : Bytes) → IsBytes p → seq_loop (rounds p) 2 36 p ≡ tail4 p
unfolding seq_loop
after_four [] h = refl
after_four (c ∷ []) h = ground (arith, loop_two 0 2 c [] h.0)
after_four (c ∷ d ∷ p) h = ground (arith, loop_two 1 2 c (d ∷ p) h.0, loop_one 0 3 d p h.1.0)

-- The second byte and what follows it.
after_second :
    (r s b : ℕ) (p : Bytes)
    → IsBytes p
    → dfa_step s b ≡ row_state r
    → seq_loop (suc (rounds p)) 1 s (b ∷ p) ≡ by_row r p
unfolding seq_loop
after_second r s b p h e = rw e (ground (arith, after_three p h, after_four p h))

pub lead-accept : (a : ℕ) → lead_state a ≡ 0 → a < 0x80
unfolding lead_state
lead-accept a e = ground arith

-- The first byte, not ASCII.
loop_lead :
    (k a : ℕ) (p : Bytes)
    → a < 256
    → 0x80 ≤ a
    → seq_loop (suc k) 0 0 (a ∷ p)
      ≡ (if lead_state a == 12 then 0 else seq_loop k 1 (lead_state a) p)
unfolding seq_loop
loop_lead k a p h low = rw (Table.dfa_step-lead a h) (ground (arith, lead-accept a))

high_lead :
    (a b : ℕ) (p : Bytes)
    → a < 256
    → b < 256
    → IsBytes p
    → 0x80 ≤ a
    → seq_loop (suc (suc (rounds p))) 0 0 (a ∷ b ∷ p) ≡ by_row (row a b) p
high_lead a b p ha hb hp low = elim (Bool-cases (lead_state a == 12)) [
  | inl r ↦
      loop_lead (suc (rounds p)) a (b ∷ p) ha low ∙ ground (arith, reject-row a b (classify a) low)
  | inr s ↦
      loop_lead (suc (rounds p)) a (b ∷ p) ha low
      ∙ rw s (
          after_second (row a b) (lead_state a) b p hp
            (two_steps a b (classify a) hb low (ground arith)))
]

limit_lem :
    (p : Bytes) → (let n = suc (suc (length p)) in if ltb n 4 then n else 4) ≡ suc (suc (rounds p))
limit_lem [] = refl
limit_lem (c ∷ []) = refl
limit_lem (c ∷ d ∷ p) = ground arith

pub lead-ascii : (a : ℕ) → a < 0x80 → lead_state a ≡ 0
unfolding lead_state
lead-ascii a h = ground arith

ascii_lead : (k a : ℕ) (p : Bytes) → a < 0x80 → seq_loop (suc k) 0 0 (a ∷ p) ≡ 1
unfolding seq_loop
ascii_lead k a p h = rw (Table.dfa_step-lead a (omega arith), lead-ascii a h) refl

only_byte : (a : ℕ) → a < 256 → seq_loop 1 0 0 (a ∷ []) ≡ (if ltb a 0x80 then 1 else 0)
unfolding seq_loop
only_byte a h = rw (Table.dfa_step-lead a h) (ground (arith, lead-accept a, lead-ascii a))

-- `wok_utf8_seq_len` reads the length of the character at the front off the standard's table,
-- whatever the bytes.
pub seq_len-char_len : (p : Bytes) → IsBytes p → seq_len p (length p) ≡ char_len p
unfolding seq_len char_len
seq_len-char_len [] h = refl
seq_len-char_len (a ∷ []) h = only_byte a h.0
seq_len-char_len (a ∷ b ∷ p) h = rw (limit_lem p) (elim (dec_lt a 0x80) [
  | yes lt ↦ ascii_lead (suc (rounds p)) a (b ∷ p) lt ∙ ground arith
  | no ge ↦ high_lead a b p h.0 h.1.0 h.1.1 (omega arith) ∙ ground arith
])
