-- ===== src/Rc/Update.antt =====
-- runtime/wok_rc.c, the slab backend: the counts and the slots of a live cell, and its reuse in place.
use wokml.Prelude.{
  ℕ, ◌+◌, ◌-◌, ◌*◌, ◌%◌, ◌≡◌, ◌≢◌, ◌≤◌, ◌<◌, refl, sym, ap, ◌∙◌, subst, true, false, ◌&&◌, some,
  List, ltb, leb, ◌==◌, Bool-cases, inl, inr, arith, All,
}
use wokml.Rc.{
  Ptr, Memory, Heap, write, set_rc, header, header_rc, header_tag, header_arity, measure,
  measure_words, cell_bytes, array_cell_bytes, array_tag, add64,
}
use wokml.Rc.Cells.{dup, dec, slot_set, array_slot_set, alloc_at, set_word, stamp}
use wokml.Rc.Owner.{Owner, cell, dead, Owners, Cell, IsLive, Picked, here, there}
use wokml.Rc.Space.{Space, Within, Space-keep, Picked-All, Picked-Distinct}
use wokml.Rc.Grant.{Kept}
use wokml.Rc.Words.{
  write-at, write-off, write-Within, ordinary, header_tag-header, header_arity-header,
}

Picked-put :
    (P : Cell → Type 0) (c : Cell) {cells rest : List Cell}
    → Picked c cells rest
    → P c
    → All P rest
    → All P cells
Picked-put P c here p ps = (p, ps)
Picked-put P c (there d k) p (q, ps) = (q, Picked-put P c k p ps)

module _ (owner : Owners) (depth : ℕ → ℕ) (h : Heap) (c : Cell) (cells rest : List Cell)
    (kept : Kept owner depth h cells) (pick : Picked c cells rest) where
  is_live : IsLive owner h.mem c
  is_live = (Picked-All (IsLive owner h.mem) c pick kept.space.live).0

  -- A change of the words of a live cell that leaves its size and class.
  pub set-Kept :
      (mem' : Memory) (reused_inplace : ℕ)
      → Within c.at c.bytes h.mem mem'
      → measure mem' c.at ≡ some (c.bytes, c.cls)
      → Kept owner depth (record h { mem = mem'; reused_inplace = reused_inplace }) cells
  set-Kept mem' n w says =
      let (live, lives) = Picked-All (IsLive owner h.mem) c pick kept.space.live in
      let (apart, distinct) = Picked-Distinct c pick kept.space.distinct in
      let outside : (a : Ptr) (o : Owner) → owner a ≡ o → cell c.at ≢ o → mem' a ≡ h.mem a =
        λ a o e ne. elim (Bool-cases (leb c.at a && ltb a (c.at + c.bytes))) [
          | inl i ↦ absurd (ne (sym (live.owns a (ground arith) (ground arith)) ∙ e))
          | inr f ↦ w a f
        ] in
      let s : Space owner depth mem' h.freelist rest =
        Space-keep c.at
          (λ a q e ne. (e, outside a (cell q) e (λ z. let k : c.at ≡ q = cc in ne (sym k))))
          (λ a cls i q lt less e. (e, outside a (dead cls i q) e (λ z. cc))) apart
          (record { live = lives; distinct = distinct; chains = kept.space.chains }) in
      record {
        space = record {
          live =
              Picked-put (IsLive owner mem') c pick
                (record {
                  nonnull = live.nonnull;
                  owns = live.owns;
                  says = says;
                  has_header = live.has_header;
                  fits = live.fits;
                })
                s.live;
          distinct = kept.space.distinct;
          chains = s.chains;
        };
        room = kept.room;
      }

set_rc-words : (w rc l : ℕ) → rc < 4294967296 → measure_words (set_rc w rc) l ≡ measure_words w l
unfolding measure_words
set_rc-words w rc l lt =
    let t : header_tag (set_rc w rc) ≡ header_tag w = omega arith in
    let a : header_arity (set_rc w rc) ≡ header_arity w = omega arith in rw (t, a) refl

pub header_rc-set_rc : (w rc : ℕ) → rc < 4294967296 → header_rc (set_rc w rc) ≡ rc
header_rc-set_rc w rc lt = omega arith

-- An ordinary cell has as many words as its header's arity says, and an array as its length says.
ordinary-bytes :
    (w l bytes cls : ℕ)
    → header_tag w < 0xFFFA
    → measure_words w l ≡ some (bytes, cls)
    → bytes ≡ cell_bytes (header_arity w)
unfolding measure_words
ordinary-bytes w l bytes cls lt says = ground arith

array-bytes :
    (w l bytes cls : ℕ)
    → header_tag w ≡ array_tag
    → measure_words w l ≡ some (bytes, cls)
    → bytes ≡ 16 + l * 8
unfolding measure_words array_cell_bytes
array-bytes w l bytes cls e says = ground arith

module _ (owner : Owners) (depth : ℕ → ℕ) (h : Heap) (c : Cell) (cells rest : List Cell)
    (kept : Kept owner depth h cells) (pick : Picked c cells rest) where
  size : 8 ≤ c.bytes
  size = (is_live owner depth h c cells rest kept pick).has_header

  says : measure h.mem c.at ≡ some (c.bytes, c.cls)
  says = (is_live owner depth h c cells rest kept pick).says

  -- Another count leaves the cell live.
  set_rc-Kept :
      (rc : ℕ) → rc < 4294967296 → Kept owner depth (set_word h c.at (set_rc (h.mem c.at) rc)) cells
  set_rc-Kept rc lt =
      let w = set_rc (h.mem c.at) rc in
      let mem' = write h.mem c.at w in
      let l : mem' (c.at + 8) ≡ h.mem (c.at + 8) =
        write-off h.mem c.at w (c.at + 8) (λ e. omega arith) in
      set-Kept owner depth h c cells rest kept pick mem' h.reused_inplace
        (write-Within c.at c.bytes c.at h.mem h.mem w (omega arith) (omega (arith, size))
          (λ a o. refl))
        (rw (write-at h.mem c.at w, l) (set_rc-words (h.mem c.at) rc (h.mem (c.at + 8)) lt ∙ says))

  pub dup_lem :
      Kept owner depth (dup h c.at) cells
      × (header_rc ((dup h c.at).mem c.at) ≡ (header_rc (h.mem c.at) + 1) % 4294967296)
  unfolding dup
  dup_lem =
      let rc = (header_rc (h.mem c.at) + 1) % 4294967296 in
      (
        set_rc-Kept rc (omega arith),
        rw (write-at h.mem c.at (set_rc (h.mem c.at) rc))
            (header_rc-set_rc (h.mem c.at) rc (omega arith)),
      )

  -- In a well-formed heap, `dec` of a live cell whose count is not 0 returns the count less
  -- one, which is then the count of the cell, and the heap stays well formed.
  pub dec_lem :
      header_rc (h.mem c.at) ≢ 0
      → (g : Heap) × (dec h c.at ≡ some (header_rc (h.mem c.at) - 1, g))
        × Kept owner depth g cells
        × (header_rc (g.mem c.at) ≡ header_rc (h.mem c.at) - 1)
  unfolding dec
  dec_lem nz =
      let rc = header_rc (h.mem c.at) - 1 in
      let t : (header_rc (h.mem c.at) == 0) ≡ false = ground arith in
      (
        set_word h c.at (set_rc (h.mem c.at) rc),
        rw t refl,
        set_rc-Kept rc (omega arith),
        rw (write-at h.mem c.at (set_rc (h.mem c.at) rc))
            (header_rc-set_rc (h.mem c.at) rc (omega arith)),
      )

  -- In a well-formed heap, `slot_set` of a slot of an ordinary live cell returns. It writes the
  -- word into its slot and changes no other word, and the heap stays well formed.
  pub slot_set_lem :
      (i word : ℕ)
      → header_tag (h.mem c.at) < 0xFFFA
      → i < header_arity (h.mem c.at)
      → (g : Heap) × (slot_set h c.at i word ≡ some g)
        × Kept owner depth g cells
        × (g.mem (c.at + 8 + 8 * i) ≡ word)
        × Within (c.at + 8 + 8 * i) 1 h.mem g.mem
  unfolding slot_set
  slot_set_lem i word tag lt =
      let q = c.at + 8 + 8 * i in
      let mem' = write h.mem q word in
      let b : c.bytes ≡ cell_bytes (header_arity (h.mem c.at)) =
        ordinary-bytes (h.mem c.at) (h.mem (c.at + 8)) c.bytes c.cls tag says in
      let t : ltb i (header_arity (h.mem c.at)) ≡ true = ground arith in
      let first : mem' c.at ≡ h.mem c.at = write-off h.mem q word c.at (λ e. omega arith) in
      (
        set_word h q word,
        rw t refl,
        set-Kept owner depth h c cells rest kept pick mem' h.reused_inplace
            (write-Within c.at c.bytes q h.mem h.mem word (omega arith) (omega arith) (λ a o. refl))
            (rw first (
              ordinary (h.mem c.at) (mem' (c.at + 8)) tag
              ∙ sym (ordinary (h.mem c.at) (h.mem (c.at + 8)) tag)
              ∙ says)),
        write-at h.mem q word,
        λ a o. write-off h.mem q word a (λ e. ground arith),
      )

  -- An element of an array.
  pub array_slot_set_lem :
      (i word : ℕ)
      → header_tag (h.mem c.at) ≡ array_tag
      → i < h.mem (c.at + 8)
      → (g : Heap) × (array_slot_set h c.at i word ≡ some g)
        × Kept owner depth g cells
        × (g.mem (c.at + 16 + 8 * i) ≡ word)
        × Within (c.at + 16 + 8 * i) 1 h.mem g.mem
  unfolding array_slot_set
  array_slot_set_lem i word tag lt =
      let q = c.at + 16 + 8 * i in
      let mem' = write h.mem q word in
      let b : c.bytes ≡ 16 + h.mem (c.at + 8) * 8 =
        array-bytes (h.mem c.at) (h.mem (c.at + 8)) c.bytes c.cls tag says in
      let t : ltb i (h.mem (c.at + 8)) ≡ true = ground arith in
      let first : mem' c.at ≡ h.mem c.at = write-off h.mem q word c.at (λ e. omega arith) in
      let second : mem' (c.at + 8) ≡ h.mem (c.at + 8) =
        write-off h.mem q word (c.at + 8) (λ e. omega arith) in
      (
        set_word h q word,
        rw (tag, t) refl,
        set-Kept owner depth h c cells rest kept pick mem' h.reused_inplace
            (write-Within c.at c.bytes q h.mem h.mem word (omega arith) (omega arith) (λ a o. refl))
            (rw (first, second) says),
        write-at h.mem q word,
        λ a o. write-off h.mem q word a (λ e. ground arith),
      )

  -- In a well-formed heap, `alloc_at` of an ordinary live cell whose count is 0, with its own
  -- arity and the tag of an ordinary cell, returns the cell with the new tag and one reference,
  -- and the heap stays well formed with the same cells.
  pub alloc_at_lem :
      (tag : ℕ)
      → tag < 0xFFFA
      → header_tag (h.mem c.at) < 0xFFFA
      → header_rc (h.mem c.at) ≡ 0
      → (g : Heap) × (alloc_at h tag (header_arity (h.mem c.at)) c.at ≡ some (c.at, g))
        × Kept owner depth g cells
        × (g.mem c.at ≡ header 1 tag (header_arity (h.mem c.at)) 0)
  unfolding alloc_at
  alloc_at_lem tag lt old zero_rc =
      let arity = header_arity (h.mem c.at) in
      let w = header 1 tag arity 0 in
      let mem' = write h.mem c.at w in
      let small : arity < 256 = omega arith in
      let t : (ltb tag 65536 && ltb arity 256) ≡ true = ground arith in
      let e : (arity == arity) ≡ true = ground arith in
      let z : (header_rc (h.mem c.at) == 0) ≡ true = rw zero_rc refl in
      let ht = header_tag-header 1 tag arity (omega arith) (omega arith) small in
      let ha = header_arity-header 1 tag arity (omega arith) (omega arith) small in
      (
        record (stamp h c.at tag arity) { reused_inplace = add64 h.reused_inplace 1 },
        rw (t, e, z) refl,
        set-Kept owner depth h c cells rest kept pick mem' (add64 h.reused_inplace 1)
            (write-Within c.at c.bytes c.at h.mem h.mem w (omega arith) (omega (arith, size))
              (λ a o. refl))
            (rw (write-at h.mem c.at w) (
              ordinary w (mem' (c.at + 8)) (subst (λ x. x < 0xFFFA) (sym ht) lt)
              ∙ ap (λ k. some (cell_bytes k, k)) ha
              ∙ sym (ordinary (h.mem c.at) (h.mem (c.at + 8)) old)
              ∙ says)),
        write-at h.mem c.at w,
      )
