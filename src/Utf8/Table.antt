-- ===== src/Utf8/Table.antt =====
-- What the table of the DFA says in each state, as ranges of the byte. Each is checked at all 256
-- bytes by evaluation.
use wokml.Prelude.{
  ℕ, zero, suc, ◌≡◌, ◌<◌, refl, sym, Bool, true, false, not, leb, ◌&&◌, ◌||◌, ltb, ◌==◌,
  if◌then◌else◌, arith, eq_of_==,
}
use wokml.Utf8.Spec.{within}
use wokml.Utf8.{dfa_step, high_bit}

each_under : (ℕ → Bool) → ℕ → Bool
each_under p zero = true
each_under p (suc last) = each_under p last && p last

each_under-apply :
    (p : ℕ → Bool) {x : ℕ} (bound : ℕ) → x < bound → each_under p bound ≡ true → p x ≡ true
unfolding each_under
each_under-apply p zero lt each = absurd (omega arith)
each_under-apply p {x} (suc last) lt each = ground (arith, each_under-apply p {x = x} last)

-- The two sides agree at every byte.
agree : (f g : ℕ → ℕ) → each_under (λ b. f b == g b) 256 ≡ true → (b : ℕ) → b < 256 → f b ≡ g b
agree f g h b lt = eq_of_== (f b) (g b) (each_under-apply (λ b. f b == g b) 256 lt h)

-- Equality of Booleans.
abbrev same : Bool → Bool → Bool
same true b = b
same false b = not b

same-eq : (a b : Bool) → same a b ≡ true → a ≡ b
same-eq true b h = sym h
same-eq false true h = cc
same-eq false false h = refl

-- From the accepting state: a lead byte.
unfoldable pub lead_state : ℕ → ℕ
lead_state b =
    if ltb b 0x80
    then 0
    else if within 0xC2 0xDF b
    then 24
    else if within 0xE0 0xE0 b
    then 48
    else if within 0xE1 0xEC b || within 0xEE 0xEF b
    then 36
    else if within 0xED 0xED b
    then 60
    else if within 0xF0 0xF0 b
    then 72
    else if within 0xF1 0xF3 b
    then 84
    else if within 0xF4 0xF4 b
    then 96
    else 12

table_lead : each_under (λ b. dfa_step 0 b == lead_state b) 256 ≡ true
unfolding each_under dfa_step lead_state
table_lead = refl

pub dfa_step-lead : (b : ℕ) → b < 256 → dfa_step 0 b ≡ lead_state b
dfa_step-lead = agree (dfa_step 0) lead_state table_lead

table_one : each_under (λ b. dfa_step 24 b == (if within 0x80 0xBF b then 0 else 12)) 256 ≡ true
unfolding each_under dfa_step
table_one = refl

pub dfa_step-one : (b : ℕ) → b < 256 → dfa_step 24 b ≡ (if within 0x80 0xBF b then 0 else 12)
dfa_step-one = agree (dfa_step 24) (λ b. if within 0x80 0xBF b then 0 else 12) table_one

table_two : each_under (λ b. dfa_step 36 b == (if within 0x80 0xBF b then 24 else 12)) 256 ≡ true
unfolding each_under dfa_step
table_two = refl

pub dfa_step-two : (b : ℕ) → b < 256 → dfa_step 36 b ≡ (if within 0x80 0xBF b then 24 else 12)
dfa_step-two = agree (dfa_step 36) (λ b. if within 0x80 0xBF b then 24 else 12) table_two

table_e0 : each_under (λ b. dfa_step 48 b == (if within 0xA0 0xBF b then 24 else 12)) 256 ≡ true
unfolding each_under dfa_step
table_e0 = refl

pub dfa_step-e0 : (b : ℕ) → b < 256 → dfa_step 48 b ≡ (if within 0xA0 0xBF b then 24 else 12)
dfa_step-e0 = agree (dfa_step 48) (λ b. if within 0xA0 0xBF b then 24 else 12) table_e0

table_ed : each_under (λ b. dfa_step 60 b == (if within 0x80 0x9F b then 24 else 12)) 256 ≡ true
unfolding each_under dfa_step
table_ed = refl

pub dfa_step-ed : (b : ℕ) → b < 256 → dfa_step 60 b ≡ (if within 0x80 0x9F b then 24 else 12)
dfa_step-ed = agree (dfa_step 60) (λ b. if within 0x80 0x9F b then 24 else 12) table_ed

table_f0 : each_under (λ b. dfa_step 72 b == (if within 0x90 0xBF b then 36 else 12)) 256 ≡ true
unfolding each_under dfa_step
table_f0 = refl

pub dfa_step-f0 : (b : ℕ) → b < 256 → dfa_step 72 b ≡ (if within 0x90 0xBF b then 36 else 12)
dfa_step-f0 = agree (dfa_step 72) (λ b. if within 0x90 0xBF b then 36 else 12) table_f0

table_three : each_under (λ b. dfa_step 84 b == (if within 0x80 0xBF b then 36 else 12)) 256 ≡ true
unfolding each_under dfa_step
table_three = refl

pub dfa_step-three : (b : ℕ) → b < 256 → dfa_step 84 b ≡ (if within 0x80 0xBF b then 36 else 12)
dfa_step-three = agree (dfa_step 84) (λ b. if within 0x80 0xBF b then 36 else 12) table_three

table_f4 : each_under (λ b. dfa_step 96 b == (if within 0x80 0x8F b then 36 else 12)) 256 ≡ true
unfolding each_under dfa_step
table_f4 = refl

pub dfa_step-f4 : (b : ℕ) → b < 256 → dfa_step 96 b ≡ (if within 0x80 0x8F b then 36 else 12)
dfa_step-f4 = agree (dfa_step 96) (λ b. if within 0x80 0x8F b then 36 else 12) table_f4

agree_bool :
    (f g : ℕ → Bool) → each_under (λ b. same (f b) (g b)) 256 ≡ true → (b : ℕ) → b < 256 → f b ≡ g b
agree_bool f g h b lt = same-eq (f b) (g b) (each_under-apply (λ b. same (f b) (g b)) 256 lt h)

table_high_bit : each_under (λ b. same (high_bit b) (leb 0x80 b)) 256 ≡ true
unfolding each_under high_bit
table_high_bit = refl

-- The bit that the mask of the fast path tests.
pub high_bit-leb : (b : ℕ) → b < 256 → high_bit b ≡ leb 0x80 b
high_bit-leb = agree_bool high_bit (leb 0x80) table_high_bit
