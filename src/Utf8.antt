-- ===== src/Utf8.antt =====
-- grammar/c/wok_utf8.c: the DFA table, one step, the length of a sequence, the offset of the first
-- ill-formed byte and truncation to a boundary.
-- runtime/wok_utf8.c: the same table and `wok_validate_utf8`.
-- A buffer is the list of its bytes; a pointer into it is the rest of the list.
pub mod Spec
pub mod Table
mod Rows
pub mod SeqLen
pub mod Chars
pub mod Find
pub mod Validate
pub mod Truncate
mod Tests
use wokml.Prelude.{
  ℕ, zero, suc, ◌+◌, ◌-◌, Bool, true, false, not, ◌&&◌, ◌||◌, List, [], ◌∷◌, ltb, leb, ◌==◌,
  if◌then◌else◌, length, get_or, drop, bit_and,
}

-- `utf8d`, first 256 entries: byte to character class.
abbrev class_table : List ℕ
class_table =
    0 ∷ 0 ∷ 0 ∷ 0 ∷ 0 ∷ 0 ∷ 0 ∷ 0 ∷ 0 ∷ 0 ∷ 0 ∷ 0 ∷ 0 ∷ 0 ∷ 0 ∷ 0 ∷ 0 ∷ 0 ∷ 0 ∷ 0 ∷ 0 ∷ 0 ∷ 0 ∷ 0
    ∷ 0 ∷ 0 ∷ 0 ∷ 0 ∷ 0 ∷ 0 ∷ 0 ∷ 0 ∷ 0 ∷ 0 ∷ 0 ∷ 0 ∷ 0 ∷ 0 ∷ 0 ∷ 0 ∷ 0 ∷ 0 ∷ 0 ∷ 0 ∷ 0 ∷ 0 ∷ 0 ∷ 0
    ∷ 0 ∷ 0 ∷ 0 ∷ 0 ∷ 0 ∷ 0 ∷ 0 ∷ 0 ∷ 0 ∷ 0 ∷ 0 ∷ 0 ∷ 0 ∷ 0 ∷ 0 ∷ 0 ∷ 0 ∷ 0 ∷ 0 ∷ 0 ∷ 0 ∷ 0 ∷ 0 ∷ 0
    ∷ 0 ∷ 0 ∷ 0 ∷ 0 ∷ 0 ∷ 0 ∷ 0 ∷ 0 ∷ 0 ∷ 0 ∷ 0 ∷ 0 ∷ 0 ∷ 0 ∷ 0 ∷ 0 ∷ 0 ∷ 0 ∷ 0 ∷ 0 ∷ 0 ∷ 0 ∷ 0 ∷ 0
    ∷ 0 ∷ 0 ∷ 0 ∷ 0 ∷ 0 ∷ 0 ∷ 0 ∷ 0 ∷ 0 ∷ 0 ∷ 0 ∷ 0 ∷ 0 ∷ 0 ∷ 0 ∷ 0 ∷ 0 ∷ 0 ∷ 0 ∷ 0 ∷ 0 ∷ 0 ∷ 0 ∷ 0
    ∷ 0 ∷ 0 ∷ 0 ∷ 0 ∷ 0 ∷ 0 ∷ 0 ∷ 0 ∷ 1 ∷ 1 ∷ 1 ∷ 1 ∷ 1 ∷ 1 ∷ 1 ∷ 1 ∷ 1 ∷ 1 ∷ 1 ∷ 1 ∷ 1 ∷ 1 ∷ 1 ∷ 1
    ∷ 9 ∷ 9 ∷ 9 ∷ 9 ∷ 9 ∷ 9 ∷ 9 ∷ 9 ∷ 9 ∷ 9 ∷ 9 ∷ 9 ∷ 9 ∷ 9 ∷ 9 ∷ 9 ∷ 7 ∷ 7 ∷ 7 ∷ 7 ∷ 7 ∷ 7 ∷ 7 ∷ 7
    ∷ 7 ∷ 7 ∷ 7 ∷ 7 ∷ 7 ∷ 7 ∷ 7 ∷ 7 ∷ 7 ∷ 7 ∷ 7 ∷ 7 ∷ 7 ∷ 7 ∷ 7 ∷ 7 ∷ 7 ∷ 7 ∷ 7 ∷ 7 ∷ 7 ∷ 7 ∷ 7 ∷ 7
    ∷ 8 ∷ 8 ∷ 2 ∷ 2 ∷ 2 ∷ 2 ∷ 2 ∷ 2 ∷ 2 ∷ 2 ∷ 2 ∷ 2 ∷ 2 ∷ 2 ∷ 2 ∷ 2 ∷ 2 ∷ 2 ∷ 2 ∷ 2 ∷ 2 ∷ 2 ∷ 2 ∷ 2
    ∷ 2 ∷ 2 ∷ 2 ∷ 2 ∷ 2 ∷ 2 ∷ 2 ∷ 2 ∷ 10 ∷ 3 ∷ 3 ∷ 3 ∷ 3 ∷ 3 ∷ 3 ∷ 3 ∷ 3 ∷ 3 ∷ 3 ∷ 3 ∷ 3 ∷ 4 ∷ 3 ∷ 3
    ∷ 11 ∷ 6 ∷ 6 ∷ 6 ∷ 5 ∷ 8 ∷ 8 ∷ 8 ∷ 8 ∷ 8 ∷ 8 ∷ 8 ∷ 8 ∷ 8 ∷ 8 ∷ 8 ∷ []

-- `utf8d`, last 108 entries: (state + class) to state.
abbrev state_table : List ℕ
state_table =
    0 ∷ 12 ∷ 24 ∷ 36 ∷ 60 ∷ 96 ∷ 84 ∷ 12 ∷ 12 ∷ 12 ∷ 48 ∷ 72 ∷ 12 ∷ 12 ∷ 12 ∷ 12 ∷ 12 ∷ 12 ∷ 12 ∷ 12
    ∷ 12 ∷ 12 ∷ 12 ∷ 12 ∷ 12 ∷ 0 ∷ 12 ∷ 12 ∷ 12 ∷ 12 ∷ 12 ∷ 0 ∷ 12 ∷ 0 ∷ 12 ∷ 12 ∷ 12 ∷ 24 ∷ 12 ∷ 12
    ∷ 12 ∷ 12 ∷ 12 ∷ 24 ∷ 12 ∷ 24 ∷ 12 ∷ 12 ∷ 12 ∷ 12 ∷ 12 ∷ 12 ∷ 12 ∷ 12 ∷ 12 ∷ 24 ∷ 12 ∷ 12 ∷ 12
    ∷ 12 ∷ 12 ∷ 24 ∷ 12 ∷ 12 ∷ 12 ∷ 12 ∷ 12 ∷ 12 ∷ 12 ∷ 24 ∷ 12 ∷ 12 ∷ 12 ∷ 12 ∷ 12 ∷ 12 ∷ 12 ∷ 12
    ∷ 12 ∷ 36 ∷ 12 ∷ 36 ∷ 12 ∷ 12 ∷ 12 ∷ 36 ∷ 12 ∷ 12 ∷ 12 ∷ 12 ∷ 12 ∷ 36 ∷ 12 ∷ 36 ∷ 12 ∷ 12 ∷ 12
    ∷ 36 ∷ 12 ∷ 12 ∷ 12 ∷ 12 ∷ 12 ∷ 12 ∷ 12 ∷ 12 ∷ 12 ∷ 12 ∷ []

abbrev accept_state : ℕ
accept_state = 0

abbrev reject_state : ℕ
reject_state = 12

-- `utf8d[byte]`
pub byte_class : ℕ → ℕ
byte_class b = get_or class_table b 0

-- `utf8d[256u + state + class]`
pub next_state : ℕ → ℕ → ℕ
next_state state class = get_or state_table (state + class) 0

pub dfa_step : ℕ → ℕ → ℕ
unfolding byte_class next_state
dfa_step state byte = next_state state (byte_class byte)

abbrev pub Bytes : Type 0
Bytes = List ℕ

-- The loop of `wok_utf8_seq_len`: `rounds` is `limit - i`, `p` is the buffer from `i` on.
pub seq_loop : (rounds i state : ℕ) → Bytes → ℕ
seq_loop zero i state p = 0
seq_loop (suc k) i state [] = 0
seq_loop (suc k) i state (b ∷ p) =
    let state' = dfa_step state b in
    let rest = seq_loop k (i + 1) state' p in
    if state' == reject_state then 0 else if state' == accept_state then i + 1 else rest

pub seq_len : Bytes → (avail : ℕ) → ℕ
unfolding seq_loop
seq_len p avail = seq_loop (if ltb avail 4 then avail else 4) 0 accept_state p

-- `(w & 0x8080808080808080) != 0` for the word `w` of eight bytes, byte by byte.
pub high_bit : ℕ → Bool
high_bit b = not (bit_and b 0x80 == 0)

abbrev pub word_high : (a b c d e f g h : ℕ) → Bool
word_high a b c d e f g h =
    high_bit a
    || high_bit b
    || high_bit c
    || high_bit d
    || high_bit e
    || high_bit f
    || high_bit g
    || high_bit h

-- The inner loop: eight bytes at a time while none has its high bit set.
pub skip_ascii : (i : ℕ) → Bytes → ℕ × Bytes
skip_ascii i (a ∷ b ∷ c ∷ d ∷ e ∷ f ∷ g ∷ h ∷ p) =
    let rest = skip_ascii (i + 8) p in
    if word_high a b c d e f g h then (i, a ∷ b ∷ c ∷ d ∷ e ∷ f ∷ g ∷ h ∷ p) else rest
skip_ascii i p = (i, p)

-- The outer loop behind the fast path, at offset `j` with the bytes from there on; `rec` is the
-- next round.
pub find_round : (ℕ → Bytes → ℕ) → (j : ℕ) → Bytes → ℕ
find_round rec j [] = j
find_round rec j (c ∷ q) =
    let seq = seq_len (c ∷ q) (length (c ∷ q)) in
    if ltb c 0x80 then rec (j + 1) q else if seq == 0 then j else rec (j + seq) (drop seq (c ∷ q))

-- The outer loop from offset `i`. A round takes at least one byte.
pub find_loop : (fuel i : ℕ) → Bytes → ℕ
find_loop zero i p = i
find_loop (suc fuel) i p = let (j, q) = skip_ascii i p in find_round (find_loop fuel) j q

unfoldable pub find_invalid : Bytes → ℕ
unfolding find_loop find_round skip_ascii high_bit seq_len
find_invalid p = find_loop (suc (length p)) 0 p

-- `if (seq == 0) seq = 1;`
pub step_len : Bytes → ℕ
step_len p = let seq = seq_len p (length p) in if seq == 0 then 1 else seq

pub truncate_loop : (fuel i max : ℕ) → Bytes → ℕ
truncate_loop zero i max p = i
truncate_loop (suc fuel) i max [] = i
truncate_loop (suc fuel) i max (c ∷ q) =
    let rest = truncate_loop fuel (i + step_len (c ∷ q)) max (drop (step_len (c ∷ q)) (c ∷ q)) in
    if ltb max (i + step_len (c ∷ q)) then i else rest

pub truncate : Bytes → (max : ℕ) → ℕ
unfolding truncate_loop step_len
truncate p max = if leb (length p) max then length p else truncate_loop (suc (length p)) 0 max p

-- runtime/wok_utf8.c
pub validate_loop : (state : ℕ) → Bytes → ℕ
validate_loop state [] = if state == accept_state then 1 else 0
validate_loop state (b ∷ p) =
    let rest = validate_loop (dfa_step state b) p in
    if dfa_step state b == reject_state then 0 else rest

pub validate_utf8 : Bytes → ℕ
unfolding validate_loop
validate_utf8 p = validate_loop accept_state p
