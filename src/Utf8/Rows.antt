-- ===== src/Utf8/Rows.antt =====
-- The rows of the standard's table against the states of the DFA: where a lead byte leads, and where
-- a second byte leads from there.
use native.Mathlib.Decide.{dec_lt}
use wokml.Prelude.{ℕ, ◌≡◌, ◌≢◌, ◌<◌, ◌≤◌, ◌==◌, if◌then◌else◌, arith}
use wokml.Utf8.Spec.{within, row}
use wokml.Utf8.{dfa_step}
use wokml.Utf8.Table
use wokml.Utf8.Table.{lead_state}

-- The lead bytes, by the row of the table that they open.
pub data Lead (a : ℕ) : Type 0 where
  ascii : a < 0x80 → Lead a
  bad_low : 0x80 ≤ a → a < 0xC2 → Lead a
  row_two : 0xC2 ≤ a → a ≤ 0xDF → Lead a
  row_e0 : 0xE0 ≤ a → a ≤ 0xE0 → Lead a
  row_mid : 0xE1 ≤ a → a ≤ 0xEC → Lead a
  row_ed : 0xED ≤ a → a ≤ 0xED → Lead a
  row_high : 0xEE ≤ a → a ≤ 0xEF → Lead a
  row_f0 : 0xF0 ≤ a → a ≤ 0xF0 → Lead a
  row_f1 : 0xF1 ≤ a → a ≤ 0xF3 → Lead a
  row_f4 : 0xF4 ≤ a → a ≤ 0xF4 → Lead a
  bad_high : 0xF5 ≤ a → Lead a

classify_high : (a : ℕ) → 0xED ≤ a → Lead a
classify_high a h = elim (dec_lt a 0xEE) [
  | yes h1 ↦ row_ed h (omega arith)
  | no h1 ↦ elim (dec_lt a 0xF0) [
    | yes h2 ↦ row_high (omega arith) (omega arith)
    | no h2 ↦ elim (dec_lt a 0xF1) [
      | yes h3 ↦ row_f0 (omega arith) (omega arith)
      | no h3 ↦ elim (dec_lt a 0xF4) [
        | yes h4 ↦ row_f1 (omega arith) (omega arith)
        | no h4 ↦ elim (dec_lt a 0xF5) [
          | yes h5 ↦ row_f4 (omega arith) (omega arith)
          | no h5 ↦ bad_high (omega arith)
        ]
      ]
    ]
  ]
]

pub classify : (a : ℕ) → Lead a
classify a = elim (dec_lt a 0x80) [
  | yes h ↦ ascii h
  | no h0 ↦ elim (dec_lt a 0xC2) [
    | yes h ↦ bad_low (omega arith) h
    | no h1 ↦ elim (dec_lt a 0xE0) [
      | yes h ↦ row_two (omega arith) (omega arith)
      | no h2 ↦ elim (dec_lt a 0xE1) [
        | yes h ↦ row_e0 (omega arith) (omega arith)
        | no h3 ↦ elim (dec_lt a 0xED) [
          | yes h ↦ row_mid (omega arith) (omega arith)
          | no h4 ↦ classify_high a (omega arith)
        ]
      ]
    ]
  ]
]

-- The state that two bytes lead to, the first not ASCII.
abbrev pub row_state : ℕ → ℕ
row_state r = if r == 2 then 0 else if r == 3 then 24 else if r == 4 then 36 else 12

state-row_two : (a : ℕ) → 0xC2 ≤ a → a ≤ 0xDF → lead_state a ≡ 24
unfolding lead_state
state-row_two a lo hi = ground arith

row_two_lem : (a b : ℕ) → 0xC2 ≤ a → a ≤ 0xDF → row a b ≡ (if within 0x80 0xBF b then 2 else 0)
unfolding row
row_two_lem a b lo hi = ground arith

state-row_e0 : (a : ℕ) → 0xE0 ≤ a → a ≤ 0xE0 → lead_state a ≡ 48
unfolding lead_state
state-row_e0 a lo hi = ground arith

row_e0_lem : (a b : ℕ) → 0xE0 ≤ a → a ≤ 0xE0 → row a b ≡ (if within 0xA0 0xBF b then 3 else 0)
unfolding row
row_e0_lem a b lo hi = ground arith

state-row_mid : (a : ℕ) → 0xE1 ≤ a → a ≤ 0xEC → lead_state a ≡ 36
unfolding lead_state
state-row_mid a lo hi = ground arith

row_mid_lem : (a b : ℕ) → 0xE1 ≤ a → a ≤ 0xEC → row a b ≡ (if within 0x80 0xBF b then 3 else 0)
unfolding row
row_mid_lem a b lo hi = ground arith

state-row_ed : (a : ℕ) → 0xED ≤ a → a ≤ 0xED → lead_state a ≡ 60
unfolding lead_state
state-row_ed a lo hi = ground arith

row_ed_lem : (a b : ℕ) → 0xED ≤ a → a ≤ 0xED → row a b ≡ (if within 0x80 0x9F b then 3 else 0)
unfolding row
row_ed_lem a b lo hi = ground arith

state-row_high : (a : ℕ) → 0xEE ≤ a → a ≤ 0xEF → lead_state a ≡ 36
unfolding lead_state
state-row_high a lo hi = ground arith

row_high_lem : (a b : ℕ) → 0xEE ≤ a → a ≤ 0xEF → row a b ≡ (if within 0x80 0xBF b then 3 else 0)
unfolding row
row_high_lem a b lo hi = ground arith

state-row_f0 : (a : ℕ) → 0xF0 ≤ a → a ≤ 0xF0 → lead_state a ≡ 72
unfolding lead_state
state-row_f0 a lo hi = ground arith

row_f0_lem : (a b : ℕ) → 0xF0 ≤ a → a ≤ 0xF0 → row a b ≡ (if within 0x90 0xBF b then 4 else 0)
unfolding row
row_f0_lem a b lo hi = ground arith

state-row_f1 : (a : ℕ) → 0xF1 ≤ a → a ≤ 0xF3 → lead_state a ≡ 84
unfolding lead_state
state-row_f1 a lo hi = ground arith

row_f1_lem : (a b : ℕ) → 0xF1 ≤ a → a ≤ 0xF3 → row a b ≡ (if within 0x80 0xBF b then 4 else 0)
unfolding row
row_f1_lem a b lo hi = ground arith

state-row_f4 : (a : ℕ) → 0xF4 ≤ a → a ≤ 0xF4 → lead_state a ≡ 96
unfolding lead_state
state-row_f4 a lo hi = ground arith

row_f4_lem : (a b : ℕ) → 0xF4 ≤ a → a ≤ 0xF4 → row a b ≡ (if within 0x80 0x8F b then 4 else 0)
unfolding row
row_f4_lem a b lo hi = ground arith

pub two_steps :
    (a b : ℕ)
    → Lead a
    → b < 256
    → 0x80 ≤ a
    → lead_state a ≢ 12
    → dfa_step (lead_state a) b ≡ row_state (row a b)
unfolding lead_state
two_steps a b (ascii h) hb low ne = absurd (omega arith)
two_steps a b (bad_low h k) hb low ne = absurd (ne (ground arith))
two_steps a b (row_two lo hi) hb low ne =
    rw (state-row_two a lo hi, row_two_lem a b lo hi) (ground (arith, Table.dfa_step-one b hb))
two_steps a b (row_e0 lo hi) hb low ne =
    rw (state-row_e0 a lo hi, row_e0_lem a b lo hi) (ground (arith, Table.dfa_step-e0 b hb))
two_steps a b (row_mid lo hi) hb low ne =
    rw (state-row_mid a lo hi, row_mid_lem a b lo hi) (ground (arith, Table.dfa_step-two b hb))
two_steps a b (row_ed lo hi) hb low ne =
    rw (state-row_ed a lo hi, row_ed_lem a b lo hi) (ground (arith, Table.dfa_step-ed b hb))
two_steps a b (row_high lo hi) hb low ne =
    rw (state-row_high a lo hi, row_high_lem a b lo hi) (ground (arith, Table.dfa_step-two b hb))
two_steps a b (row_f0 lo hi) hb low ne =
    rw (state-row_f0 a lo hi, row_f0_lem a b lo hi) (ground (arith, Table.dfa_step-f0 b hb))
two_steps a b (row_f1 lo hi) hb low ne =
    rw (state-row_f1 a lo hi, row_f1_lem a b lo hi) (ground (arith, Table.dfa_step-three b hb))
two_steps a b (row_f4 lo hi) hb low ne =
    rw (state-row_f4 a lo hi, row_f4_lem a b lo hi) (ground (arith, Table.dfa_step-f4 b hb))
two_steps a b (bad_high h) hb low ne = absurd (ne (ground arith))

pub reject-row : (a b : ℕ) → Lead a → 0x80 ≤ a → lead_state a ≡ 12 → row a b ≡ 0
unfolding lead_state row
reject-row a b (bad_low h k) low e = ground arith
reject-row a b (bad_high h) low e = ground arith
reject-row a b (ascii h) low e = absurd (omega arith)
reject-row a b (row_two lo hi) low e =
    absurd (let s : lead_state a ≡ 24 = state-row_two a lo hi in cc)
reject-row a b (row_e0 lo hi) low e =
    absurd (let s : lead_state a ≡ 48 = state-row_e0 a lo hi in cc)
reject-row a b (row_mid lo hi) low e =
    absurd (let s : lead_state a ≡ 36 = state-row_mid a lo hi in cc)
reject-row a b (row_ed lo hi) low e =
    absurd (let s : lead_state a ≡ 60 = state-row_ed a lo hi in cc)
reject-row a b (row_high lo hi) low e =
    absurd (let s : lead_state a ≡ 36 = state-row_high a lo hi in cc)
reject-row a b (row_f0 lo hi) low e =
    absurd (let s : lead_state a ≡ 72 = state-row_f0 a lo hi in cc)
reject-row a b (row_f1 lo hi) low e =
    absurd (let s : lead_state a ≡ 84 = state-row_f1 a lo hi in cc)
reject-row a b (row_f4 lo hi) low e =
    absurd (let s : lead_state a ≡ 96 = state-row_f4 a lo hi in cc)
