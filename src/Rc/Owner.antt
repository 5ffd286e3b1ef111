-- ===== src/Rc/Owner.antt =====
-- Who owns each address: the cells in use, the dead cells of the free lists by class and depth,
-- the part of a slab that is not handed out, and the slabs of the arena scopes.
use wokml.Prelude.{
  ℕ, zero, suc, ◌+◌, ◌*◌, ◌≡◌, ◌≢◌, ◌≤◌, ◌<◌, refl, sym, ◌∙◌, subst, ◌&&◌, some, List, [], ◌∷◌, ltb,
  leb, if◌then◌else◌, Bool-cases, inl, inr, arith, All,
}
use wokml.Rc.{Ptr, Memory, measure}

pub data Owner : Type 0 where
  unowned frontier : Owner
  cell scope : Ptr → Owner
  dead : (cls depth : ℕ) → Ptr → Owner

abbrev pub Owners : Type 0
Owners = Ptr → Owner

-- The `n` bytes from `p` on belong to `o`.
abbrev pub Owns : Owners → Owner → (p n : ℕ) → Type 0
Owns owner o p n = (a : Ptr) → p ≤ a → a < p + n → owner a ≡ o

-- The `n` bytes from `p` on change hands.
pub retag : Owners → (p n : ℕ) → Owner → Owners
retag owner p n o a = if leb p a && ltb a (p + n) then o else owner a

pub retag-inside : (owner : Owners) (p n : ℕ) (o : Owner) → Owns (retag owner p n o) o p n
unfolding retag
retag-inside owner p n o a h k = ground arith

pub retag-outside :
    (owner : Owners) (p n : ℕ) (o old : Owner) (a : Ptr)
    → Owns owner old p n
    → owner a ≢ old
    → retag owner p n o a ≡ owner a
unfolding retag
retag-outside owner p n o old a own ne = elim (Bool-cases (leb p a && ltb a (p + n))) [
  | inl h ↦ absurd (ne (own a (ground arith) (ground arith)))
  | inr h ↦ rw h refl
]

pub retag-behind :
    (owner : Owners) (p n : ℕ) (o : Owner) (a : Ptr) → p + n ≤ a → retag owner p n o a ≡ owner a
unfolding retag
retag-behind owner p n o a h = ground arith

module _ (owner : Owners) (p n : ℕ) (o old : Owner) (own : Owns owner old p n) where
  pub Owns-retag :
      {x : Owner} (q k : ℕ) → x ≢ old → Owns owner x q k → Owns (retag owner p n o) x q k
  Owns-retag q k ne h a l u =
      let e = h a l u in retag-outside owner p n o old a own (λ z. ne (sym e ∙ z)) ∙ e

-- A free list of `n` dead cells of class `cls`, linked by their first words.
abbrev pub Chain : Owners → Memory → (cls n : ℕ) → Ptr → Type 0
Chain owner mem cls zero p = p ≡ 0
Chain owner mem cls (suc n) p =
    (p ≢ 0) × Owns owner (dead cls n p) p (8 * cls + 8) × Chain owner mem cls n (mem p)

-- Other owners and another memory keep a list, when they keep its cells and their first words.
pub Chain-keep :
    {owner owner' : Owners} {mem mem' : Memory} {cls : ℕ} (n : ℕ) (p : Ptr)
    → ((i : ℕ) (q : Ptr)
        → i < n
        → Owns owner (dead cls i q) q (8 * cls + 8)
        → Owns owner' (dead cls i q) q (8 * cls + 8) × (mem' q ≡ mem q))
    → Chain owner mem cls n p
    → Chain owner' mem' cls n p
Chain-keep zero p keep h = h
Chain-keep {owner'} {mem} {mem'} {cls} (suc n) p keep (nz, own, rest) =
    let (own', e) = keep n p (omega arith) own in
    (
      nz,
      own',
      subst (Chain owner' mem' cls n) (sym e)
          (Chain-keep n (mem p) (λ i q lt h. keep i q (omega arith) h) rest),
    )

-- The head of a list that is not empty.
pub Chain-head :
    (owner : Owners) (mem : Memory) (cls n : ℕ) (p : Ptr)
    → p ≢ 0
    → Chain owner mem cls n p
    → (k : ℕ) × (n ≡ suc k)
      × Owns owner (dead cls k p) p (8 * cls + 8)
      × Chain owner mem cls k (mem p)
Chain-head owner mem cls zero p nz h = absurd (nz h)
Chain-head owner mem cls (suc n) p nz (z, own, rest) = (n, refl, own, rest)

-- A cell in use.
pub record Cell : Type 0 where
  pub at : Ptr
  pub bytes : ℕ
  pub cls : ℕ

-- It owns its bytes, its header tells its size and class, and the class tells the size.
pub record IsLive (owner : Owners) (mem : Memory) (c : Cell) : Type 0 where
  pub nonnull : c.at ≢ 0
  pub owns : Owns owner (cell c.at) c.at c.bytes
  pub says : measure mem c.at ≡ some (c.bytes, c.cls)
  pub has_header : 8 ≤ c.bytes
  pub fits : c.cls < 64 → c.bytes ≡ 8 * c.cls + 8

abbrev pub Elsewhere : Ptr → List Cell → Type 0
Elsewhere p = All (λ c. c.at ≢ p)

abbrev pub Distinct : List Cell → Type 0
Distinct [] = Unit
Distinct (c ∷ cs) = Elsewhere c.at cs × Distinct cs

-- The cells without one of them.
pub data Picked (c : Cell) : (cells rest : List Cell) → Type 0 where
  here : {cs : List Cell} → Picked c (c ∷ cs) cs
  there : (d : Cell) {cs rest : List Cell} → Picked c cs rest → Picked c (d ∷ cs) (d ∷ rest)
