-- ===== src/Rc/Space.antt =====
-- runtime/wok_rc.c, the slab backend: the state of the memory of the counted cells, and what keeps it.
use wokml.Prelude.{
  ℕ, ◌+◌, ◌≡◌, ◌≢◌, ◌≤◌, ◌<◌, sym, ◌∙◌, subst, false, ◌&&◌, some, List, ltb, leb, Bool-cases, inl,
  inr, arith, All, All-zip, All-map,
}
use wokml.Rc.{Ptr, Memory, measure_words, array_cell_bytes, string_cell_bytes}
use wokml.Rc.Owner.{
  Owner, cell, dead, scope, Owners, Owns, retag, retag-outside, Chain, Chain-keep, Cell, IsLive,
  Elsewhere, Distinct, Picked, here, there,
}

-- The word behind the header counts only in the cells that have one.
pub measure_words-keep :
    (w l l' bytes cls : ℕ)
    → measure_words w l ≡ some (bytes, cls)
    → (16 ≤ bytes → l' ≡ l)
    → measure_words w l' ≡ some (bytes, cls)
unfolding measure_words array_cell_bytes string_cell_bytes
measure_words-keep w l l' bytes cls h keep = ground arith

-- Other owners and another memory that keep the bytes of a cell keep it live.
pub IsLive-keep :
    {owner owner' : Owners} {mem mem' : Memory} (c : Cell)
    → ((a : Ptr) → owner a ≡ cell c.at → (owner' a ≡ cell c.at) × (mem' a ≡ mem a))
    → IsLive owner mem c
    → IsLive owner' mem' c
IsLive-keep {owner} {owner'} {mem} {mem'} c keep h = record {
  nonnull = h.nonnull;
  owns = λ a l u. (keep a (h.owns a l u)).0;
  says =
      let first = (keep c.at (h.owns c.at (omega arith) (omega (arith, h.has_header)))).1 in
      let second : 16 ≤ c.bytes → mem' (c.at + 8) ≡ mem (c.at + 8) =
        λ k. (keep (c.at + 8) (h.owns (c.at + 8) (omega arith) (omega arith))).1 in
      subst (λ w. measure_words w (mem' (c.at + 8)) ≡ some (c.bytes, c.cls)) (sym first)
        (measure_words-keep (mem c.at) (mem (c.at + 8)) (mem' (c.at + 8)) c.bytes c.cls h.says
          second);
  has_header = h.has_header;
  fits = h.fits;
}

-- The cells in use lie apart, and each free list is a chain of `depth` dead cells of its class.
pub record Space (owner : Owners) (depth : ℕ → ℕ) (mem : Memory) (freelist : ℕ → Ptr)
    (cells : List Cell) : Type 0 where
  pub live : All (IsLive owner mem) cells
  pub distinct : Distinct cells
  pub chains : (cls : ℕ) → cls < 64 → Chain owner mem cls (depth cls) (freelist cls)

-- Changes that spare every cell but the one at `p`, and the dead cells.
pub Space-keep :
    {owner owner' : Owners} {depth : ℕ → ℕ} {mem mem' : Memory} {freelist : ℕ → Ptr}
    {cells : List Cell} (p : Ptr)
    → ((a q : Ptr) → owner a ≡ cell q → q ≢ p → (owner' a ≡ cell q) × (mem' a ≡ mem a))
    → ((a : Ptr) (cls i : ℕ) (q : Ptr)
        → cls < 64
        → i < depth cls
        → owner a ≡ dead cls i q
        → (owner' a ≡ dead cls i q) × (mem' a ≡ mem a))
    → Elsewhere p cells
    → Space owner depth mem freelist cells
    → Space owner' depth mem' freelist cells
Space-keep {owner} {owner'} {depth} {mem} {mem'} {freelist} {cells} p spare spare_dead apart h =
    record {
      live =
          All-zip (λ c. c.at ≢ p) (IsLive owner mem) (IsLive owner' mem') cells
            (λ c ne l. IsLive-keep c (λ a e. spare a c.at e ne) l) apart h.live;
      distinct = h.distinct;
      chains = λ cls lt.
          Chain-keep (depth cls) (freelist cls)
            (λ i q less own. (
              λ a l u. (spare_dead a cls i q lt less (own a l u)).0,
              (spare_dead q cls i q lt less (own q (omega arith) (omega arith))).1,
            ))
            (h.chains cls lt);
    }

-- The memory changes inside `n` bytes from `p` on only.
abbrev pub Within : (p n : ℕ) → (mem mem' : Memory) → Type 0
Within p n mem mem' = (a : Ptr) → (leb p a && ltb a (p + n)) ≡ false → mem' a ≡ mem a

-- Where another owner than `old` is, neither the owner nor the memory changes.
pub retag-keeps :
    (owner : Owners) (mem mem' : Memory) (p n : ℕ) (old x : Owner) (a : Ptr) (y : Owner)
    → Owns owner old p n
    → Within p n mem mem'
    → owner a ≡ y
    → old ≢ y
    → (retag owner p n x a ≡ y) × (mem' a ≡ mem a)
retag-keeps owner mem mem' p n old x a y own w e ne = elim (Bool-cases (leb p a && ltb a (p + n))) [
  | inl i ↦ absurd (ne (sym (own a (ground arith) (ground arith)) ∙ e))
  | inr o ↦ (retag-outside owner p n x old a own (λ z. ne (sym z ∙ e)) ∙ e, w a o)
]

-- An owner of no cell in use, of no cell of a free list, and of no slab of the arena scopes.
abbrev pub IsOutside : Owner → (depth : ℕ → ℕ) → Type 0
IsOutside old depth =
    ((q : Ptr) → old ≢ cell q)
    × ((cls i : ℕ) (q : Ptr) → cls < 64 → i < depth cls → old ≢ dead cls i q)
    × ((s : Ptr) → old ≢ scope s)

module _ (owner : Owners) (depth : ℕ → ℕ) (mem : Memory) (freelist : ℕ → Ptr) (cells : List Cell)
    (p n : ℕ) (old : Owner) (positive : 0 < n) (own : Owns owner old p n)
    (outside : IsOutside old depth) (h : Space owner depth mem freelist cells) where
  pub owned_is_Elsewhere : Elsewhere p cells
  owned_is_Elsewhere =
      let far : (c : Cell) → IsLive owner mem c → c.at ≢ p = λ c l e.
        let u = l.owns c.at (omega arith) (omega (arith, l.has_header)) in
        let v = own p (omega arith) (omega arith) in outside.0 c.at (cc) in
      All-map (IsLive owner mem) (λ c. c.at ≢ p) cells far h.live

  -- Bytes from outside change hands, and their content may change.
  pub Space-claim :
      (mem' : Memory) (x : Owner)
      → Within p n mem mem'
      → Space (retag owner p n x) depth mem' freelist cells
  Space-claim mem' x w =
      Space-keep p
        (λ a q e ne. retag-keeps owner mem mem' p n old x a (cell q) own w e (outside.0 q))
        (λ a cls i q lt less e.
          retag-keeps owner mem mem' p n old x a (dead cls i q) own w e (outside.1 cls i q lt less))
        owned_is_Elsewhere h

pub Picked-All :
    (P : Cell → Type 0) (c : Cell) {cells rest : List Cell}
    → Picked c cells rest
    → All P cells
    → P c × All P rest
Picked-All P c here (p, ps) = (p, ps)
Picked-All P c (there d k) (p, ps) = let (q, qs) = Picked-All P c k ps in (q, (p, qs))

-- The other cells lie apart, from one another and from the one.
pub Picked-Distinct :
    (c : Cell) {cells rest : List Cell}
    → Picked c cells rest
    → Distinct cells
    → Elsewhere c.at rest × Distinct rest
Picked-Distinct c here (e, ds) = (e, ds)
Picked-Distinct c (there d k) (e, ds) =
    let (ne, e') = Picked-All (λ x. x.at ≢ d.at) c k e in
    let (apart, ds') = Picked-Distinct c k ds in ((λ z. ne (sym z), apart), (e', ds'))
