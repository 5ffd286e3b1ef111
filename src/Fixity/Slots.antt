-- ===== src/Fixity/Slots.antt =====
-- grammar/c/wok_resolve.c: the slots of the index, and the walk that a probe makes over them.
use Prim.Native.Nat.{◌^◌}
use native.Mathlib.Nat.{mod-eq_of_lt, mod_self}
use wokml.Prelude.{
  ℕ, zero, suc, ◌+◌, ◌-◌, ◌%◌, ◌≡◌, ◌≢◌, ◌<◌, inl, inr, refl, sym, ap, ◌∙◌, true, false, some, List,
  [], ◌∷◌, leb, ◌==◌, if◌then◌else◌, length, get_or, set, Bool-cases, arith, eq_of_==, ne_of_==,
  bit_and,
}
use wokml.Fixity.{u32_max, NameIdx, entry_at, next_slot, claim}
use wokml.Fixity.Bits.{bit_and_ones}

-- An index has as many slots as its mask says, a power of two.
pub record IsSized (ix : NameIdx) : Type 0 where
  pub power : ℕ
  pub masked : ix.mask + 1 ≡ 2 ^ power
  pub entries : length ix.entry ≡ ix.mask + 1
  pub keys : length ix.key ≡ ix.mask + 1

masked_lem : (ix : NameIdx) (x : ℕ) → IsSized ix → bit_and x ix.mask ≡ x % (ix.mask + 1)
masked_lem ix x s =
    let mask : ix.mask ≡ 2 ^ s.power - 1 = let e = s.masked in omega arith in
    ap (λ m. bit_and x m) mask ∙ bit_and_ones s.power x ∙ ap (λ m. x % m) (sym s.masked)

pub masked-lt : (ix : NameIdx) (x : ℕ) → IsSized ix → bit_and x ix.mask < ix.mask + 1
masked-lt ix x s = let e = masked_lem ix x s in omega arith

next_lem :
    (ix : NameIdx) (k : ℕ)
    → IsSized ix
    → k < ix.mask + 1
    → next_slot ix k ≡ (if k == ix.mask then 0 else k + 1)
next_lem ix k s h = elim (Bool-cases (k == ix.mask)) [
  | inl z ↦ rw z (
      masked_lem ix (k + 1) s
      ∙ ap (λ t. t % (ix.mask + 1)) (ap (λ t. t + 1) (eq_of_== k ix.mask z))
      ∙ mod_self (ix.mask + 1))
  | inr z ↦
      let ne = ne_of_== k ix.mask z in rw z (masked_lem ix (k + 1) s ∙ mod-eq_of_lt (omega arith))
]

-- The slots to go from slot `k` to slot `f`, past the last one on to the first.
abbrev pub gap : NameIdx → (k f : ℕ) → ℕ
gap ix k f = if leb k f then f - k else f + (ix.mask + 1) - k

pub gap_next :
    (ix : NameIdx) (k f : ℕ)
    → IsSized ix
    → k < ix.mask + 1
    → f < ix.mask + 1
    → k ≢ f
    → gap ix (next_slot ix k) f + 1 ≡ gap ix k f
gap_next ix k f s p q n = rw (next_lem ix k s p) (ground arith)

pub gap-lt : (ix : NameIdx) (k f : ℕ) → k < ix.mask + 1 → f < ix.mask + 1 → gap ix k f < ix.mask + 1
gap-lt ix k f p q = ground arith

-- A probe that starts at slot `k` comes to slot `s` over taken slots.
pub data Leads (ix : NameIdx) (s : ℕ) : ℕ → Type 0 where
  stop : Leads ix s s
  step : {k : ℕ} → entry_at ix k ≢ u32_max → Leads ix s (next_slot ix k) → Leads ix s k

-- The slots that are taken.
unfoldable pub count_used : List ℕ → ℕ
count_used [] = 0
count_used (e ∷ es) = (if e == u32_max then 0 else 1) + count_used es

free_of_used :
    (es : List ℕ)
    → count_used es < length es
    → (f : ℕ) × (f < length es) × (get_or es f u32_max ≡ u32_max)
unfolding count_used
free_of_used [] h = absurd (omega arith)
free_of_used (e ∷ es) h = elim (Bool-cases (e == u32_max)) [
  | inl z ↦ (0, omega arith, eq_of_== e u32_max z)
  | inr z ↦
      let (f, l, e) = free_of_used es (let g = rw z at h in omega arith) in (suc f, omega arith, e)
]

pub count_used-set :
    (es : List ℕ) (f e : ℕ)
    → f < length es
    → get_or es f u32_max ≡ u32_max
    → e ≢ u32_max
    → count_used (set es f e) ≡ count_used es + 1
unfolding count_used
count_used-set [] f e l h n = absurd (omega arith)
count_used-set (x ∷ es) zero e l h n =
    let t : (x == u32_max) ≡ true = ground arith in
    let u : (e == u32_max) ≡ false = ground arith in rw (t, u) (omega arith)
count_used-set (x ∷ es) (suc f) e l h n = omega (arith, count_used-set es f e (omega arith) h n)

-- While fewer slots are taken than there are, one is free.
pub free_slot :
    (ix : NameIdx)
    → IsSized ix
    → count_used ix.entry < ix.mask + 1
    → (f : ℕ) × (f < ix.mask + 1) × (entry_at ix f ≡ u32_max)
free_slot ix s h =
    let size = s.entries in
    let (f, l, e) = free_of_used ix.entry (omega arith) in (f, omega arith, e)

-- What `idx_add` claims: a free slot, which a probe comes to.
pub claim_from :
    (fuel : ℕ) (ix : NameIdx) (k f : ℕ)
    → IsSized ix
    → k < ix.mask + 1
    → f < ix.mask + 1
    → entry_at ix f ≡ u32_max
    → gap ix k f < fuel
    → (s : ℕ) × (claim fuel ix k ≡ some s)
      × (s < ix.mask + 1)
      × (entry_at ix s ≡ u32_max)
      × Leads ix s k
unfolding claim
claim_from zero ix k f z p q e h = absurd (omega arith)
claim_from (suc fuel) ix k f z p q e h = elim (Bool-cases (entry_at ix k == u32_max)) [
  | inl y ↦ (k, rw y refl, p, eq_of_== _ _ y, stop)
  | inr y ↦
      let taken = ne_of_== (entry_at ix k) u32_max y in
      let ne : k ≢ f = λ c. taken (ap (λ t. entry_at ix t) c ∙ e) in
      let (s, c, l, g, way) =
        claim_from fuel ix (next_slot ix k) f z (masked-lt ix (k + 1) z) q e
          (let g = gap_next ix k f z p q ne in omega arith) in
      (s, rw y c, l, g, step taken way)
]
