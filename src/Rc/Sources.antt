-- ===== src/Rc/Sources.antt =====
-- runtime/wok_rc.c, the slab backend: the ways in which an allocation comes by its bytes.
use wokml.Prelude.{
  ℕ, suc, ◌+◌, ◌*◌, ◌≡◌, ◌≢◌, ◌≤◌, ◌<◌, refl, sym, ◌∙◌, subst, List, ◌==◌, if◌then◌else◌,
  Bool-cases, inl, inr, arith, eq_of_==,
}
use wokml.Rc.{Ptr, Region, Heap, phys_add, bump_off, set_freelist, pop}
use wokml.Rc.Owner.{
  Owner, unowned, frontier, dead, Owners, Owns, retag, retag-outside, retag-behind, Chain, Cell,
}
use wokml.Rc.Space.{Space, IsOutside}

-- The bytes between the two pointers of a region are not handed out.
abbrev pub Room : Owners → Region → Type 0
Room owner r = (a : Ptr) → r.bump_ptr ≤ a → a < r.bump_end → owner a ≡ frontier

-- What `malloc` returned: memory that nothing has.
abbrev pub Fresh : Owners → (m n : ℕ) → Type 0
Fresh owner m n = (m ≢ 0) × Owns owner unowned m n

-- An allocation's `sz` bytes at `p`, which no cell has, in the state `g` that it leaves. The owners
-- change only where nothing was owned.
pub record Grant (owner : Owners) (h g : Heap) (p sz : ℕ) (cells : List Cell) : Type 0 where
  pub owner1 : Owners
  pub depth1 : ℕ → ℕ
  pub old : Owner
  pub own : Owns owner1 old p sz
  pub outside : IsOutside old depth1
  pub space : Space owner1 depth1 h.mem g.freelist cells
  pub room : (x : Owner) → Room (retag owner1 p sz x) g.counted
  pub same : g.mem ≡ h.mem
  pub nonnull : p ≢ 0
  pub calm : (a : Ptr) → owner a ≢ unowned → owner1 a ≡ owner a

pub frontier-IsOutside : (depth : ℕ → ℕ) → IsOutside frontier depth
frontier-IsOutside depth = (λ q e. cc, λ cls i q lt less e. cc, λ s e. cc)

pub unowned-IsOutside : (depth : ℕ → ℕ) → IsOutside unowned depth
unowned-IsOutside depth = (λ q e. cc, λ cls i q lt less e. cc, λ s e. cc)

module _ (owner : Owners) (depth : ℕ → ℕ) (h : Heap) (cells : List Cell)
    (space : Space owner depth h.mem h.freelist cells) where
  -- Off the frontier.
  pub bump_off-Grant :
      (sz : ℕ)
      → h.counted.bump_ptr ≢ 0
      → h.counted.bump_ptr + sz ≤ h.counted.bump_end
      → Room owner h.counted
      → Grant owner h (bump_off h sz).1 (bump_off h sz).0 sz cells
  bump_off-Grant sz nz fits room = record {
    owner1 = owner;
    depth1 = depth;
    old = frontier;
    own = λ a l u. room a l (omega arith);
    outside = frontier-IsOutside depth;
    space = space;
    room = λ x a l u. retag-behind owner h.counted.bump_ptr sz x a l ∙ room a (omega arith) u;
    same = refl;
    nonnull = nz;
    calm = λ a ne. refl;
  }

  -- From `malloc`.
  pub large-Grant :
      (m sz : ℕ)
      → Fresh owner m sz
      → Room owner h.counted
      → Grant owner h (phys_add h sz) m sz cells
  unfolding phys_add
  large-Grant m sz (nz, own) room = record {
    owner1 = owner;
    depth1 = depth;
    old = unowned;
    own = own;
    outside = unowned-IsOutside depth;
    space = space;
    room = λ x a l u.
        retag-outside owner m sz x unowned a own (λ e. let f = room a l u in cc) ∙ room a l u;
    same = refl;
    nonnull = nz;
    calm = λ a ne. refl;
  }

  module _ (cls : ℕ) (lt : cls < 64) (nz : h.freelist cls ≢ 0) (k : ℕ) (one : depth cls ≡ suc k)
      (rest : Chain owner h.mem cls k (h.mem (h.freelist cls))) where
    -- The depths when the list of the class has lost its head.
    popped : (c : ℕ) → ℕ
    popped c = if c == cls then k else depth c

    popped-Chain :
        (c : ℕ)
        → c < 64
        → Chain owner h.mem c (popped c) (set_freelist h.freelist cls (h.mem (h.freelist cls)) c)
    unfolding popped set_freelist
    popped-Chain c less = elim (Bool-cases (c == cls)) [
      | inl i ↦ rw i (
          subst (λ d. Chain owner h.mem d k (h.mem (h.freelist cls))) (sym (eq_of_== c cls i)) rest)
      | inr o ↦ rw o (space.chains c less)
    ]

    popped-IsOutside : IsOutside (dead cls k (h.freelist cls)) popped
    unfolding popped
    popped-IsOutside = (
      λ q e. cc,
      λ c i q small less e. let f : cls ≡ c = cc in let g : k ≡ i = cc in ground arith,
      λ s e. cc,
    )

    pub pop-Grant :
        (sz : ℕ)
        → sz ≡ 8 * cls + 8
        → Owns owner (dead cls k (h.freelist cls)) (h.freelist cls) (8 * cls + 8)
        → Room owner h.counted
        → Grant owner h (pop h cls).1 (pop h cls).0 sz cells
    pop-Grant sz e head room =
        let own : Owns owner (dead cls k (h.freelist cls)) (h.freelist cls) sz =
          subst (Owns owner (dead cls k (h.freelist cls)) (h.freelist cls)) (sym e) head in
        record {
          owner1 = owner;
          depth1 = popped;
          old = dead cls k (h.freelist cls);
          own = own;
          outside = popped-IsOutside;
          space = record { live = space.live; distinct = space.distinct; chains = popped-Chain };
          room = λ x a l u.
              retag-outside owner (h.freelist cls) sz x _ a own (λ z. let f = room a l u in cc)
              ∙ room a l u;
          same = refl;
          nonnull = nz;
          calm = λ a ne. refl;
        }
