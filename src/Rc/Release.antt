-- ===== src/Rc/Release.antt =====
-- runtime/wok_rc.c, the slab backend: what `wok_free` does to the memory of the counted cells.
use wokml.Prelude.{
  ℕ, suc, ◌≡◌, ◌≢◌, ◌≤◌, ◌<◌, refl, sym, ◌∙◌, subst, true, some, List, ltb, ◌==◌, if◌then◌else◌,
  Bool-cases, inl, inr, arith, eq_of_==,
}
use wokml.Rc.{
  Ptr, Memory, Heap, write, header_rc, num_classes, set_freelist, phys_sub, sub64, give_back,
  count_free, free,
}
use wokml.Rc.Owner.{
  Owner, unowned, cell, dead, scope, Owners, Owns, retag, retag-inside, retag-outside, Chain, Cell,
  IsLive, Elsewhere, Picked,
}
use wokml.Rc.Space.{Space, Within, Space-keep, retag-keeps, Picked-All, Picked-Distinct}
use wokml.Rc.Words.{write-at, write-Within}
use wokml.Rc.Sources.{Room}
use wokml.Rc.Grant.{Kept}

-- The cell is the first of the free list of its class and its first word leads to the list as it was;
-- no byte went back to the system.
pub record Listed (h g : Heap) (c : Cell) : Type 0 where
  pub first : g.freelist c.cls ≡ c.at
  pub link : g.mem c.at ≡ h.freelist c.cls
  pub held : g.cur_physical ≡ h.cur_physical

-- The bytes of the cell belong to nobody, and are no longer counted as taken from the system.
pub record Gone (owner2 : Owners) (h g : Heap) (c : Cell) : Type 0 where
  pub nobody : Owns owner2 unowned c.at c.bytes
  pub returned : g.cur_physical ≡ sub64 h.cur_physical c.bytes
  pub list : g.freelist c.cls ≡ h.freelist c.cls

-- The state `g` that a release leaves: the cell is on the free list of its class or, if large, back
-- with the system, and neither another list nor a word of memory outside of the cell changed.
pub record Released (owner : Owners) (depth : ℕ → ℕ) (h g : Heap) (c : Cell) (rest : List Cell)
    : Type 0 where
  pub owner2 : Owners
  pub depth2 : ℕ → ℕ
  pub kept : Kept owner2 depth2 g rest
  pub content : Within c.at c.bytes h.mem g.mem
  pub scopes : (a s : Ptr) → owner a ≡ scope s → owner2 a ≡ scope s
  pub listed : c.cls < 64 → Listed h g c × (depth2 c.cls ≡ suc (depth c.cls))
  pub gone : 64 ≤ c.cls → Gone owner2 h g c
  pub other_lists : (k : ℕ) → k ≢ c.cls → (g.freelist k ≡ h.freelist k) × (depth2 k ≡ depth k)

module _ (owner : Owners) (depth : ℕ → ℕ) (h : Heap) (c : Cell) (rest : List Cell)
    (live : IsLive owner h.mem c) (apart : Elsewhere c.at rest)
    (space : Space owner depth h.mem h.freelist rest) (room : Room owner h.counted) where
  -- The others do not see that the bytes of the cell have another owner and content.
  others :
      (x : Owner) (mem' : Memory)
      → Within c.at c.bytes h.mem mem'
      → Space (retag owner c.at c.bytes x) depth mem' h.freelist rest
  others x mem' w =
      Space-keep c.at
        (λ a q e ne.
          retag-keeps owner h.mem mem' c.at c.bytes (cell c.at) x a (cell q) live.owns w e
            (λ z. let k : c.at ≡ q = cc in ne (sym k)))
        (λ a cls i q lt less e.
          retag-keeps owner h.mem mem' c.at c.bytes (cell c.at) x a (dead cls i q) live.owns w e
            (λ z. cc))
        apart space

  Room-left : (x : Owner) → Room (retag owner c.at c.bytes x) h.counted
  Room-left x a l u =
      retag-outside owner c.at c.bytes x (cell c.at) a live.owns (λ z. let f = room a l u in cc)
      ∙ room a l u

  scopes-left : (x : Owner) (a s : Ptr) → owner a ≡ scope s → retag owner c.at c.bytes x a ≡ scope s
  scopes-left x a s e =
      retag-outside owner c.at c.bytes x (cell c.at) a live.owns
        (λ z. let k : scope s ≡ cell c.at = sym e ∙ z in cc)
      ∙ e

  -- A large cell goes back to the system.
  large-Released :
      64 ≤ c.cls → Released owner depth h (phys_sub (count_free h c.bytes) c.bytes) c rest
  large-Released big = record {
    owner2 = retag owner c.at c.bytes unowned;
    depth2 = depth;
    kept = record { space = others unowned h.mem (λ a o. refl); room = Room-left unowned };
    content = λ a o. refl;
    scopes = scopes-left unowned;
    listed = λ small. absurd (omega arith);
    gone = λ l. record {
      nobody = retag-inside owner c.at c.bytes unowned;
      returned = refl;
      list = refl;
    };
    other_lists = λ k ne. (refl, refl);
  }

  pushed : (k : ℕ) → ℕ
  pushed k = if k == c.cls then suc (depth c.cls) else depth k

  pushed_mem : Memory
  pushed_mem = write h.mem c.at (h.freelist c.cls)

  pushed-Chain :
      c.cls < 64
      → (k : ℕ) → k < 64
      → Chain
          (retag owner c.at c.bytes (dead c.cls (depth c.cls) c.at))
          pushed_mem
          k
          (pushed k)
          (set_freelist h.freelist c.cls c.at k)
  unfolding pushed pushed_mem set_freelist
  pushed-Chain small k lt =
      let x = dead c.cls (depth c.cls) c.at in
      let s = others x pushed_mem (
        write-Within c.at c.bytes c.at h.mem h.mem (h.freelist c.cls) (omega arith)
          (omega (arith, live.has_header)) (λ a o. refl)) in
      elim (Bool-cases (k == c.cls)) [
        | inl i ↦ rw i (
            subst (λ d. Chain (retag owner c.at c.bytes x) pushed_mem d (suc (depth c.cls)) c.at)
              (sym (eq_of_== k c.cls i))
              (
                live.nonnull,
                subst (Owns (retag owner c.at c.bytes x) x c.at) (live.fits small)
                    (retag-inside owner c.at c.bytes x),
                subst (Chain (retag owner c.at c.bytes x) pushed_mem c.cls (depth c.cls))
                    (sym (write-at h.mem c.at (h.freelist c.cls))) (s.chains c.cls small),
              ))
        | inr o ↦ rw o (s.chains k lt)
      ]

  -- A small cell goes on the free list of its class.
  small-Released :
      c.cls < 64
      → (b : ℕ)
      → Released owner depth h
          (record (count_free h b) {
            mem = write h.mem c.at (h.freelist c.cls);
            freelist = set_freelist h.freelist c.cls c.at;
          })
          c
          rest
  unfolding pushed pushed_mem set_freelist
  small-Released small b =
      let x = dead c.cls (depth c.cls) c.at in
      let w =
        write-Within c.at c.bytes c.at h.mem h.mem (h.freelist c.cls) (omega arith)
          (omega (arith, live.has_header)) (λ a o. refl) in
      let s = others x pushed_mem w in
      record {
        owner2 = retag owner c.at c.bytes x;
        depth2 = pushed;
        kept = record {
          space = record { live = s.live; distinct = s.distinct; chains = pushed-Chain small };
          room = Room-left x;
        };
        content = w;
        scopes = scopes-left x;
        listed = λ l. (
          record {
            first = ground arith;
            link = write-at h.mem c.at (h.freelist c.cls);
            held = refl;
          },
          ground arith,
        );
        gone = λ big. absurd (omega arith);
        other_lists = λ k ne. (ground arith, ground arith);
      }

  free-Released :
      header_rc (h.mem c.at) ≡ 0
      → (g : Heap) × (free h c.at ≡ some g) × Released owner depth h g c rest
  unfolding free give_back
  free-Released zero_rc =
      let t : (header_rc (h.mem c.at) == 0) ≡ true = rw zero_rc refl in
      elim (Bool-cases (ltb c.cls num_classes)) [
        | inl z ↦ (_, rw (t, live.says, z) refl, small-Released (ground arith) c.bytes)
        | inr z ↦ (_, rw (t, live.says, z) refl, large-Released (ground arith))
      ]

-- In a well-formed heap, `free` of a live cell of any kind whose count is 0 returns. The cell is then
-- no longer live. A small one is the first of the free list of its class, in front of the cells that
-- were on it; the bytes of a large one belong to nobody and leave the count of physical bytes. The
-- other free lists stay, the heap stays well formed with the other cells, and no word outside of
-- the cell changes.
pub free_lem :
    (owner : Owners) (depth : ℕ → ℕ) (h : Heap) (c : Cell) (cells rest : List Cell)
    → Kept owner depth h cells
    → Picked c cells rest
    → header_rc (h.mem c.at) ≡ 0
    → (g : Heap) × (free h c.at ≡ some g) × Released owner depth h g c rest
free_lem owner depth h c cells rest kept pick zero_rc =
    let (live, lives) = Picked-All (IsLive owner h.mem) c pick kept.space.live in
    let (apart, distinct) = Picked-Distinct c pick kept.space.distinct in
    free-Released owner depth h c rest live apart
      (record { live = lives; distinct = distinct; chains = kept.space.chains }) kept.room zero_rc
