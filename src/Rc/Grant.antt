-- ===== src/Rc/Grant.antt =====
-- runtime/wok_rc.c, the slab backend: each way in which an allocation comes by its bytes, a pop, a
-- bump, a new slab and a large cell.
use wokml.Prelude.{
  ℕ, ◌+◌, ◌*◌, ◌≡◌, ◌≢◌, ◌≤◌, ◌<◌, refl, sym, ◌∙◌, subst, false, some, List, ◌∷◌, ltb, ◌==◌,
  if◌then◌else◌, Bool-cases, inl, inr, arith, ne_of_==,
}
use wokml.Rc.{
  Ptr, add64, Heap, granule, arena_size, num_classes, phys_add, grow_slab, no_room, new_slab,
  bump_off, bump, pop, small, large, take_cell,
}
use wokml.Rc.Owner.{unowned, frontier, Owners, retag, retag-inside, retag-outside, Chain-head, Cell}
use wokml.Rc.Space.{Space, Space-claim}
use wokml.Rc.Sources.{bump_off-Grant, large-Grant, pop-Grant, Fresh, Grant, Room, unowned-IsOutside}

-- The state of the memory of the counted cells: their space, and the frontier.
pub record Kept (owner : Owners) (depth : ℕ → ℕ) (h : Heap) (cells : List Cell) : Type 0 where
  pub space : Space owner depth h.mem h.freelist cells
  pub room : Room owner h.counted

-- A new slab, from `malloc`.
abbrev pub with_slab : Ptr → Heap → Heap
with_slab m h = record (phys_add h arena_size) {
  counted = record {
    slabs = m ∷ h.counted.slabs;
    bump_ptr = m + granule;
    bump_end = m + arena_size;
    nslabs = add64 h.counted.nslabs 1;
  };
}

pub new_slab-eq : (m : Ptr) (h : Heap) → m ≢ 0 → new_slab m h ≡ some (with_slab m h)
unfolding new_slab grow_slab
new_slab-eq m h nz = let e : (m == 0) ≡ false = ground arith in rw e refl

with_slab-Kept :
    (owner : Owners) (depth : ℕ → ℕ) (h : Heap) (cells : List Cell) (m : Ptr)
    → Space owner depth h.mem h.freelist cells
    → Fresh owner m arena_size
    → Kept (retag owner m arena_size frontier) depth (with_slab m h) cells
unfolding phys_add
with_slab-Kept owner depth h cells m space (nz, own) = record {
  space =
      Space-claim owner depth h.mem h.freelist cells m arena_size unowned (omega arith) own
        (unowned-IsOutside depth) space h.mem frontier (λ a z. refl);
  room = λ a l u. retag-inside owner m arena_size frontier a (omega arith) u;
}

module _ (owner : Owners) (depth : ℕ → ℕ) (h : Heap) (cells : List Cell) (m sz : ℕ)
    (positive : 0 < sz) (fits : sz ≤ 65528) (fresh : Fresh owner m arena_size) where
  -- Off the frontier of a new slab.
  with_slab-Grant :
      Space owner depth h.mem h.freelist cells
      → Grant owner h (bump_off (with_slab m h) sz).1 (m + granule) sz cells
  unfolding phys_add
  with_slab-Grant space =
      let kept = with_slab-Kept owner depth h cells m space fresh in
      let g =
        bump_off-Grant (retag owner m arena_size frontier) depth (with_slab m h) cells kept.space sz
          (omega arith) (omega (arith, fits)) kept.room in
      record {
        owner1 = g.owner1;
        depth1 = g.depth1;
        old = g.old;
        own = g.own;
        outside = g.outside;
        space = g.space;
        room = g.room;
        same = g.same;
        nonnull = g.nonnull;
        calm = λ a ne.
            let e = retag-outside owner m arena_size frontier unowned a fresh.1 ne in
            g.calm a (λ z. let f : owner a ≡ unowned = sym e ∙ z in ne f) ∙ e;
      }

  bump-Grant :
      Kept owner depth h cells
      → (p : Ptr) × (g : Heap) × (bump m h sz ≡ some (p, g)) × Grant owner h g p sz cells
  unfolding bump
  bump-Grant kept = elim (Bool-cases (no_room h.counted sz)) [
    | inl z ↦ (
      m + granule,
      (bump_off (with_slab m h) sz).1,
      rw (z, new_slab-eq m h fresh.0) refl,
      with_slab-Grant kept.space,
    )
    | inr z ↦
        let nz : h.counted.bump_ptr ≢ 0 = ground arith in
        (
          (bump_off h sz).0,
          (bump_off h sz).1,
          rw z refl,
          bump_off-Grant owner depth h cells kept.space sz nz (ground arith) kept.room,
        )
  ]

  small-Grant :
      (cls : ℕ)
      → cls < 64
      → sz ≡ 8 * cls + 8
      → Kept owner depth h cells
      → (p : Ptr) × (g : Heap) × (small m h sz cls ≡ some (p, g)) × Grant owner h g p sz cells
  unfolding small
  small-Grant cls lt e kept = elim (Bool-cases (h.freelist cls == 0)) [
    | inl z ↦ let (p, g, eq, r) = bump-Grant kept in (p, g, rw z eq, r)
    | inr z ↦
        let nz = ne_of_== (h.freelist cls) 0 z in
        let (k, one, head, rest) =
          Chain-head owner h.mem cls (depth cls) (h.freelist cls) nz (kept.space.chains cls lt) in
        (
          (pop h cls).0,
          (pop h cls).1,
          rw z refl,
          pop-Grant owner depth h cells kept.space cls lt nz k one rest sz e head kept.room,
        )
  ]

pub large-eq : (m : Ptr) (h : Heap) (sz : ℕ) → m ≢ 0 → large m h sz ≡ some (m, phys_add h sz)
unfolding large
large-eq m h sz nz = let e : (m == 0) ≡ false = ground arith in rw e refl

-- The bytes that `malloc` is asked for when it is.
abbrev pub asked : (sz cls : ℕ) → ℕ
asked sz cls = if ltb cls num_classes then arena_size else sz

-- An allocation succeeds, and its bytes belonged to no cell.
pub take_cell-Grant :
    (owner : Owners) (depth : ℕ → ℕ) (h : Heap) (cells : List Cell) (m sz cls : ℕ)
    → Kept owner depth h cells
    → 0 < sz
    → (cls < 64 → sz ≡ 8 * cls + 8)
    → Fresh owner m (asked sz cls)
    → (p : Ptr) × (g : Heap) × (take_cell m h sz cls ≡ some (p, g)) × Grant owner h g p sz cells
unfolding take_cell
take_cell-Grant owner depth h cells m sz cls kept pos size fresh =
    elim (Bool-cases (ltb cls num_classes)) [
      | inl z ↦
          let lt : cls < 64 = ground arith in
          let fresh' : Fresh owner m arena_size =
            subst (λ b. Fresh owner m (if b then arena_size else sz)) z fresh in
          let (p, g, eq, r) =
            small-Grant owner depth h cells m sz pos (omega (arith, size lt)) fresh' cls lt
              (size lt) kept in
          (p, g, rw z eq, r)
      | inr z ↦
          let fresh' : Fresh owner m sz =
            subst (λ b. Fresh owner m (if b then arena_size else sz)) z fresh in
          (
            m,
            phys_add h sz,
            rw z (large-eq m h sz fresh.0),
            large-Grant owner depth h cells kept.space m sz fresh' kept.room,
          )
    ]
