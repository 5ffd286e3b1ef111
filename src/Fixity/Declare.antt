-- ===== src/Fixity/Declare.antt =====
-- grammar/c/wok_resolve.c: the first pass keeps the index true to the operators, and has room for all.
use Prim.Native.Nat.{◌^◌}
use native.Mathlib.Nat.{mod-eq_of_lt, one-le-pow}
use wokml.Prelude.{
  ℕ, zero, suc, ◌+◌, ◌-◌, ◌*◌, ◌%◌, ◌≡◌, ◌≢◌, ◌≤◌, ◌<◌, inl, inr, refl, sym, ap, ◌∙◌, none, some,
  List, [], ◌∷◌, ltb, ◌==◌, length, replicate, length-replicate, get_or-replicate, Bool-cases,
  arith, eq_of_==, ne_of_==, ◌>>=◌,
}
use wokml.Ast.{WokSpan}
use wokml.Reorder.{Ro, WokFixOp, find_from}
use wokml.Fixity.{u32_max, NameIdx, index_cap, idx_init, Names, find_entry, append_op, no_name}
use wokml.Fixity.Slots.{count_used}
use wokml.Fixity.Index.{Holds, place, idx_find-find_from}
use wokml.Fixity.Insert.{idx_add-Holds, grown}

-- The names of the table, with an index that has room for `cap` of them.
pub record IsIndexed (ro : Ro) (cap : ℕ) (st : Names) : Type 0 where
  pub holds : Holds ro st.idx st.ops
  pub roomy : 2 * cap ≤ st.idx.mask + 1
  pub tiny : cap < u32_max

find_from_empty :
    (ro : Ro) (name : WokSpan) (ops : List WokFixOp)
    → length ops ≡ 0
    → find_from ro name 0 ops ≡ none
unfolding find_from
find_from_empty ro name [] e = refl
find_from_empty ro name (op ∷ ops) e = absurd (omega arith)

-- While the names fit, a lookup gives the place of the first operator of that name.
pub find_entry-find_from :
    (ro : Ro) (cap : ℕ) (st : Names) (name : WokSpan)
    → IsIndexed ro cap st
    → length st.ops ≤ cap
    → find_entry ro.src st name ≡ some (place (find_from ro name 0 st.ops))
unfolding find_entry
find_entry-find_from ro cap st name h l = elim (Bool-cases (length st.ops == 0)) [
  | inl z ↦ rw (z, find_from_empty ro name st.ops (eq_of_== _ _ z)) refl
  | inr z ↦
      let room = h.roomy in
      let some_op = ne_of_== (length st.ops) 0 z in
      rw z (idx_find-find_from ro st.idx st.ops h.holds name (omega arith))
]

pub append_op-IsIndexed :
    (ro : Ro) (cap : ℕ) (st : Names) (op : WokFixOp)
    → IsIndexed ro cap st
    → length st.ops < cap
    → find_from ro op.name 0 st.ops ≡ none
    → (st' : Names) × (append_op ro.src st op ≡ some st')
      × IsIndexed ro cap st'
      × (st'.ops ≡ grown st.ops op)
unfolding append_op
append_op-IsIndexed ro cap st op h l missing =
    let room = h.roomy in
    let tiny = h.tiny in
    let (ix', e, holds, mask) =
      idx_add-Holds ro st.idx st.ops op h.holds missing (omega arith) (omega arith) in
    (
      record { ops = grown st.ops op; idx = ix' },
      rw e refl,
      record { holds = holds; roomy = omega arith; tiny = h.tiny },
      refl,
    )

index_cap_from :
    (fuel j want : ℕ)
    → j ≤ 31
    → 31 < fuel + j
    → want ≤ 2147483648
    → (m : ℕ) × (index_cap fuel (2 ^ j) want ≡ some (2 ^ m)) × (want ≤ 2 ^ m)
unfolding index_cap
index_cap_from zero j want p q l = absurd (omega arith)
index_cap_from (suc fuel) j want p q l = elim (Bool-cases (ltb (2 ^ j) want)) [
  | inl z ↦
      let below : 2 ^ j < 2147483648 = ground arith in
      let room : j ≢ 31 = λ e. let f = ap (λ v. 2 ^ v) e in omega arith in
      let grown : 2 ^ j * 2 % 4294967296 ≡ 2 ^ suc j = mod-eq_of_lt (omega arith) ∙ omega arith in
      let (m, e, b) = index_cap_from fuel (suc j) want (omega arith) (omega arith) l in
      (m, rw (z, grown) e, b)
  | inr z ↦ (j, rw z refl, ground arith)
]

count_used-replicate : (n : ℕ) → count_used (replicate n u32_max) ≡ 0
unfolding count_used
count_used-replicate zero = refl
count_used-replicate (suc n) = omega (arith, count_used-replicate n)

empty_index : (size : ℕ) → NameIdx
empty_index size = record {
  key = replicate size no_name;
  entry = replicate size u32_max;
  mask = size - 1;
}

empty_index-IsIndexed :
    (ro : Ro) (cap m : ℕ)
    → cap ≤ 1073741824
    → cap * 2 ≤ 2 ^ m
    → IsIndexed ro cap (record { ops = []; idx = empty_index (2 ^ m) })
unfolding empty_index
empty_index-IsIndexed ro cap m l b =
    let positive = one-le-pow m 2 (omega arith) in
    let start : 2 ^ m ≡ 2 ^ m - 1 + 1 = omega arith in
    record {
      holds = record {
        sized = record {
          power = m;
          masked = sym start;
          entries = length-replicate (2 ^ m) u32_max ∙ start;
          keys = length-replicate (2 ^ m) no_name ∙ start;
        };
        used = count_used-replicate (2 ^ m);
        small = omega arith;
        sound = λ k p n. absurd (n (get_or-replicate (2 ^ m) k u32_max));
        found = λ e p. absurd (omega arith);
        distinct = λ i j p q s. absurd (omega arith);
      };
      roomy = omega arith;
      tiny = omega arith;
    }

-- A new index is empty and has room.
pub idx_init-IsIndexed :
    (ro : Ro) (cap : ℕ)
    → cap ≤ 1073741824
    → (ix : NameIdx) × (idx_init cap ≡ some ix) × IsIndexed ro cap (record { ops = []; idx = ix })
unfolding idx_init empty_index
idx_init-IsIndexed ro cap l =
    let want : cap * 2 % 4294967296 ≡ cap * 2 = mod-eq_of_lt (omega arith) in
    let (m, e, b) = index_cap_from 32 3 (cap * 2) (omega arith) (omega arith) (omega arith) in
    (
      empty_index (2 ^ m),
      ap (λ o. o >>= λ c. some (empty_index c)) (ap (λ v. index_cap 32 8 v) want ∙ e),
      empty_index-IsIndexed ro cap m l b,
    )
