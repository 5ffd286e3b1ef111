-- ===== src/Rc/Allocate.antt =====
-- runtime/wok_rc.c, the slab backend: what the allocators do to the memory of the counted cells.
use wokml.Prelude.{
  ℕ, ◌+◌, ◌-◌, ◌*◌, ◌/◌, ◌≡◌, ◌≤◌, ◌<◌, refl, sym, ap, ◌∙◌, subst, true, false, ◌&&◌, some, List,
  ◌∷◌, ltb, arith,
}
use wokml.Rc.{
  Ptr, Memory, Heap, write, header, cell_bytes, array_cell_bytes, array_class, string_cell_bytes,
  string_class, measure, measure_words, take_cell, count_alloc, logical_mark, array_tag, string_tag,
  string_view_tag, bytes_tag, foreign_bytes_tag, borrow_view_tag,
}
use wokml.Rc.Cells.{
  stamp, set_word, alloc, array_alloc, string_alloc, bytes_alloc, string_view_alloc,
  foreign_bytes_alloc, borrow_view_alloc,
}
use wokml.Rc.Owner.{unowned, cell, scope, Owners, retag, retag-inside, retag-outside, Cell, Chain}
use wokml.Rc.Space.{Within, Space-claim, owned_is_Elsewhere}
use wokml.Rc.Words.{
  header_tag-header, header_arity-header, write-at, write-off, write-Within, ordinary, array_words,
  string_words, bytes_words, array_class-size, string_class-size,
}
use wokml.Rc.Sources.{Room, Fresh, Grant}
use wokml.Rc.Grant.{Kept, asked, take_cell-Grant}

-- The state `g` that an allocation leaves: one more live cell, of `sz` bytes at `p`, and no word of
-- memory changed outside of it. The slabs of the arena scopes stay theirs.
pub record Allocated (owner : Owners) (h g : Heap) (p sz cls : ℕ) (cells : List Cell) : Type 0 where
  pub owner2 : Owners
  pub depth2 : ℕ → ℕ
  pub kept : Kept owner2 depth2 g (record { at = p; bytes = sz; cls = cls } ∷ cells)
  pub content : Within p sz h.mem g.mem
  pub scopes : (a s : Ptr) → owner a ≡ scope s → owner2 a ≡ scope s

-- Granted bytes, with the words of a cell of their size in them, are a cell.
pub Grant-Allocated :
    (owner : Owners) (h g f : Heap) (p sz cls : ℕ) (cells : List Cell)
    → Grant owner h g p sz cells
    → 8 ≤ sz
    → (cls < 64 → sz ≡ 8 * cls + 8)
    → Within p sz g.mem f.mem
    → measure f.mem p ≡ some (sz, cls)
    → f.freelist ≡ g.freelist
    → f.counted ≡ g.counted
    → Allocated owner h f p sz cls cells
Grant-Allocated owner h g f p sz cls cells r size fits within says same_lists same_region =
    let owner2 = retag r.owner1 p sz (cell p) in
    let inside : Within p sz h.mem f.mem = λ a o. within a o ∙ ap (λ m. m a) r.same in
    let space =
      Space-claim r.owner1 r.depth1 h.mem g.freelist cells p sz r.old (omega arith) r.own r.outside
        r.space f.mem (cell p) inside in
    record {
      owner2 = owner2;
      depth2 = r.depth1;
      kept = record {
        space = record {
          live = (
            record {
              nonnull = r.nonnull;
              owns = retag-inside r.owner1 p sz (cell p);
              says = says;
              has_header = size;
              fits = fits;
            },
            space.live,
          );
          distinct = (
            owned_is_Elsewhere r.owner1 r.depth1 h.mem g.freelist cells p sz r.old (omega arith)
                r.own r.outside r.space,
            space.distinct,
          );
          chains = λ c lt.
              subst (λ l. Chain owner2 f.mem c (r.depth1 c) (l c)) (sym same_lists)
                (space.chains c lt);
        };
        room = subst (Room owner2) (sym same_region) (r.room (cell p));
      };
      content = inside;
      scopes = λ a s e.
          let kept = r.calm a (λ z. let k : unowned ≡ scope s = sym z ∙ e in cc) in
          retag-outside r.owner1 p sz (cell p) r.old a r.own (λ z. r.outside.2 s (sym z ∙ kept ∙ e))
          ∙ kept
          ∙ e;
    }

module _ (owner : Owners) (depth : ℕ → ℕ) (h : Heap) (cells : List Cell) (m : Ptr)
    (kept : Kept owner depth h cells) where
  -- In a heap whose live cells lie apart and whose free lists hold dead cells of their classes
  -- (`Kept`), and if `malloc`, where it is asked, returns memory that nothing has, `alloc` of a
  -- tag below the reserved ones and an arity below 256 returns a cell with that header and one
  -- reference. The cell lies apart from all live cells and dead cells, the heap stays well
  -- formed with it, and no word outside of the cell changes.
  pub alloc-Allocated :
      (tag arity : ℕ)
      → tag < 0xFFFA
      → arity < 256
      → Fresh owner m (asked (cell_bytes arity) arity)
      → (p : Ptr) × (g : Heap) × (alloc m h tag arity ≡ some (p, g))
        × (g.mem p ≡ header 1 tag arity 0)
        × Allocated owner h g p (cell_bytes arity) arity cells
  unfolding alloc count_alloc logical_mark
  alloc-Allocated tag arity small_tag small_arity fresh =
      let (p, g, e, r) =
        take_cell-Grant owner depth h cells m (cell_bytes arity) arity kept (omega arith)
          (λ lt. omega arith) fresh in
      let f = count_alloc (stamp g p tag arity) (cell_bytes arity) in
      let t : (ltb tag 65536 && ltb arity 256) ≡ true = ground arith in
      let w : f.mem p ≡ header 1 tag arity 0 = write-at g.mem p _ in
      (
        p,
        f,
        rw (t, e) refl,
        w,
        Grant-Allocated owner h g f p (cell_bytes arity) arity cells r (omega arith)
            (λ lt. omega arith)
            (write-Within p (cell_bytes arity) p g.mem g.mem _ (omega arith) (omega arith)
              (λ a o. refl))
            (rw w (
              ordinary (header 1 tag arity 0) _ (
                subst (λ t. t < 0xFFFA)
                  (sym (header_tag-header 1 tag arity (omega arith) (omega arith) small_arity))
                  small_tag)
              ∙ ap (λ k. some (cell_bytes k, k))
                  (header_arity-header 1 tag arity (omega arith) (omega arith) small_arity)))
            refl refl,
      )

  -- A cell of two words or more, off the header `w` and the word `l` behind it.
  filled :
      (g f : Heap) (p sz cls w l : ℕ)
      → Grant owner h g p sz cells
      → 16 ≤ sz
      → (cls < 64 → sz ≡ 8 * cls + 8)
      → Within p sz g.mem f.mem
      → f.mem p ≡ w
      → f.mem (p + 8) ≡ l
      → measure_words w l ≡ some (sz, cls)
      → f.freelist ≡ g.freelist
      → f.counted ≡ g.counted
      → Allocated owner h f p sz cls cells
  filled g f p sz cls w l r size fits within first second says lists region =
      Grant-Allocated owner h g f p sz cls cells r (omega arith) fits within
        (rw (first, second) says) lists region

  -- The memory behind the stamp and the second word.
  two : (g : Heap) (p w l : ℕ) → Memory
  two g p w l = write (write g.mem p w) (p + 8) l

  two-first : (g : Heap) (p w l : ℕ) → two g p w l p ≡ w
  unfolding two
  two-first g p w l =
      write-off (write g.mem p w) (p + 8) l p (λ e. omega arith) ∙ write-at g.mem p w

  two-second : (g : Heap) (p w l : ℕ) → two g p w l (p + 8) ≡ l
  unfolding two
  two-second g p w l = write-at (write g.mem p w) (p + 8) l

  two-Within : (g : Heap) (p w l sz : ℕ) → 16 ≤ sz → Within p sz g.mem (two g p w l)
  unfolding two
  two-Within g p w l sz size =
      write-Within p sz (p + 8) g.mem (write g.mem p w) l (omega arith) (omega arith)
        (write-Within p sz p g.mem g.mem w (omega arith) (omega arith) (λ a o. refl))

  -- In a heap whose live cells lie apart and whose free lists hold dead cells of their classes
  -- (`Kept`), and if `malloc`, where it is asked, returns memory that nothing has,
  -- `array_alloc` of a length whose size fits in 64 bits returns a cell with the array tag, the
  -- kind of its elements, the length and one reference. The cell lies apart from all others,
  -- the heap stays well formed with it, and no word outside of the cell changes.
  pub array_alloc-Allocated :
      (len elemkind : ℕ)
      → len ≤ (18446744073709551615 - 16) / 8
      → elemkind < 256
      → Fresh owner m (asked (16 + len * 8) (array_class len))
      → (p : Ptr) × (g : Heap) × (array_alloc m h len elemkind ≡ some (p, g))
        × (g.mem p ≡ header 1 array_tag elemkind 0)
        × (g.mem (p + 8) ≡ len)
        × Allocated owner h g p (16 + len * 8) (array_class len) cells
  unfolding array_alloc array_cell_bytes count_alloc logical_mark two
  array_alloc-Allocated len elemkind fits small fresh =
      let sz = 16 + len * 8 in
      let (p, g, e, r) =
        take_cell-Grant owner depth h cells m sz (array_class len) kept (omega arith)
          (array_class-size len) fresh in
      let w = header 1 array_tag elemkind 0 in
      let f = count_alloc (set_word (stamp g p array_tag elemkind) (p + 8) len) sz in
      let t : ltb ((18446744073709551615 - 16) / 8) len ≡ false = ground arith in
      (
        p,
        f,
        rw (t, e) refl,
        two-first g p w len,
        two-second g p w len,
        filled g f p sz (array_class len) w len r (omega arith) (array_class-size len)
            (two-Within g p w len sz (omega arith)) (two-first g p w len) (two-second g p w len)
            (array_words len elemkind fits small) refl refl,
      )

  -- The part that strings and byte arrays share.
  module _ (byte_len : ℕ) (fits : byte_len ≤ 18446744073709551592)
      (fresh : Fresh owner m (asked (16 + 8 * ((byte_len + 7) / 8)) (string_class byte_len))) where
    string_bytes : ℕ
    string_bytes = 16 + 8 * ((byte_len + 7) / 8)

    string_like :
        (tag : ℕ)
        → measure_words (header 1 tag 0 0) byte_len ≡ some (string_bytes, string_class byte_len)
        → (p : Ptr) × (g : Heap) × (take_cell m h string_bytes (string_class byte_len)
            ≡ some (p, g))
          × Allocated owner h
              (count_alloc (set_word (stamp g p tag 0) (p + 8) byte_len) string_bytes)
              p
              string_bytes
              (string_class byte_len)
              cells
    unfolding string_bytes count_alloc logical_mark two
    string_like tag says =
        let (p, g, e, r) =
          take_cell-Grant owner depth h cells m string_bytes (string_class byte_len) kept
            (omega arith) (string_class-size byte_len) fresh in
        let w = header 1 tag 0 0 in
        (
          p,
          g,
          e,
          filled g (count_alloc (set_word (stamp g p tag 0) (p + 8) byte_len) string_bytes) p
              string_bytes (string_class byte_len) w byte_len r (omega arith)
              (string_class-size byte_len) (two-Within g p w byte_len string_bytes (omega arith))
              (two-first g p w byte_len) (two-second g p w byte_len) says refl refl,
        )

    -- In a heap whose live cells lie apart and whose free lists hold dead cells of their
    -- classes (`Kept`), and if `malloc`, where it is asked, returns memory that nothing has,
    -- `string_alloc` of a length whose size fits in 64 bits returns a cell with the string
    -- tag, the length, one reference and room for the bytes rounded up to 8. The cell lies
    -- apart from all others, the heap stays well formed with it, and no word outside of the
    -- cell changes.
    pub string_alloc-Allocated :
        (p : Ptr) × (g : Heap) × (string_alloc m h byte_len ≡ some (p, g))
        × (g.mem p ≡ header 1 string_tag 0 0)
        × (g.mem (p + 8) ≡ byte_len)
        × Allocated owner h g p (16 + 8 * ((byte_len + 7) / 8)) (string_class byte_len) cells
    unfolding string_alloc string_cell_bytes string_bytes count_alloc logical_mark two
    string_alloc-Allocated =
        let (p, g, e, r) = string_like string_tag (string_words byte_len fits) in
        let t : ltb (18446744073709551615 - 16 - 7) byte_len ≡ false = ground arith in
        let w = header 1 string_tag 0 0 in
        (p, _, rw (t, e) refl, two-first g p w byte_len, two-second g p w byte_len, r)

    pub bytes_alloc-Allocated :
        (p : Ptr) × (g : Heap) × (bytes_alloc m h byte_len ≡ some (p, g))
        × (g.mem p ≡ header 1 bytes_tag 0 0)
        × (g.mem (p + 8) ≡ byte_len)
        × Allocated owner h g p (16 + 8 * ((byte_len + 7) / 8)) (string_class byte_len) cells
    unfolding bytes_alloc string_cell_bytes string_bytes count_alloc logical_mark two
    bytes_alloc-Allocated =
        let (p, g, e, r) = string_like bytes_tag (bytes_words byte_len fits) in
        let t : ltb (18446744073709551615 - 16 - 7) byte_len ≡ false = ground arith in
        let w = header 1 bytes_tag 0 0 in
        (p, _, rw (t, e) refl, two-first g p w byte_len, two-second g p w byte_len, r)

  -- The part that the two handles of 24 bytes share.
  handle_like :
      (tag ptr len : ℕ)
      → measure_words (header 1 tag 0 0) ptr ≡ some (24, 2)
      → Fresh owner m (asked 24 2)
      → (p : Ptr) × (g : Heap) × (take_cell m h 24 2 ≡ some (p, g))
        × Allocated owner h
            (count_alloc (set_word (set_word (stamp g p tag 0) (p + 8) ptr) (p + 16) len) 24)
            p
            24
            2
            cells
  unfolding count_alloc logical_mark two
  handle_like tag ptr len says fresh =
      let (p, g, e, r) =
        take_cell-Grant owner depth h cells m 24 2 kept (omega arith) (λ lt. refl) fresh in
      let w = header 1 tag 0 0 in
      let f = count_alloc (set_word (set_word (stamp g p tag 0) (p + 8) ptr) (p + 16) len) 24 in
      let off = write-off (two g p w ptr) (p + 16) len in
      (
        p,
        g,
        e,
        filled g f p 24 2 w ptr r (omega arith) (λ lt. refl)
            (write-Within p 24 (p + 16) g.mem (two g p w ptr) len (omega arith) (omega arith)
              (two-Within g p w ptr 24 (omega arith)))
            (off p (λ z. omega arith) ∙ two-first g p w ptr)
            (off (p + 8) (λ z. omega arith) ∙ two-second g p w ptr) says refl refl,
      )

  pub foreign_bytes_alloc-Allocated :
      (data_ptr byte_len : ℕ)
      → Fresh owner m (asked 24 2)
      → (p : Ptr) × (g : Heap) × (foreign_bytes_alloc m h data_ptr byte_len ≡ some (p, g))
        × Allocated owner h g p 24 2 cells
  unfolding foreign_bytes_alloc measure_words
  foreign_bytes_alloc-Allocated data_ptr byte_len fresh =
      let (p, g, e, r) = handle_like foreign_bytes_tag data_ptr byte_len refl fresh in
      (p, _, rw e refl, r)

  pub borrow_view_alloc-Allocated :
      (ptr byte_len : ℕ)
      → Fresh owner m (asked 24 2)
      → (p : Ptr) × (g : Heap) × (borrow_view_alloc m h ptr byte_len ≡ some (p, g))
        × Allocated owner h g p 24 2 cells
  unfolding borrow_view_alloc measure_words
  borrow_view_alloc-Allocated ptr byte_len fresh =
      let (p, g, e, r) = handle_like borrow_view_tag ptr byte_len refl fresh in (p, _, rw e refl, r)

  pub string_view_alloc-Allocated :
      (parent off len : ℕ)
      → Fresh owner m (asked 32 3)
      → (p : Ptr) × (g : Heap) × (string_view_alloc m h parent off len ≡ some (p, g))
        × Allocated owner h g p 32 3 cells
  unfolding string_view_alloc measure_words count_alloc logical_mark two
  string_view_alloc-Allocated parent off len fresh =
      let (p, g, e, r) =
        take_cell-Grant owner depth h cells m 32 3 kept (omega arith) (λ lt. refl) fresh in
      let w = header 1 string_view_tag 0 0 in
      let m1 = write (two g p w parent) (p + 16) off in
      let f2 = set_word (stamp g p string_view_tag 0) (p + 8) parent in
      let f = count_alloc (set_word (set_word f2 (p + 16) off) (p + 24) len) 32 in
      (
        p,
        f,
        rw e refl,
        filled g f p 32 3 w parent r (omega arith) (λ lt. refl)
            (write-Within p 32 (p + 24) g.mem m1 len (omega arith) (omega arith) (
              write-Within p 32 (p + 16) g.mem (two g p w parent) off (omega arith) (omega arith)
                (two-Within g p w parent 32 (omega arith))))
            (write-off m1 (p + 24) len p (λ z. omega arith)
              ∙ write-off (two g p w parent) (p + 16) off p (λ z. omega arith)
              ∙ two-first g p w parent)
            (write-off m1 (p + 24) len (p + 8) (λ z. omega arith)
              ∙ write-off (two g p w parent) (p + 16) off (p + 8) (λ z. omega arith)
              ∙ two-second g p w parent)
            refl refl refl,
      )
