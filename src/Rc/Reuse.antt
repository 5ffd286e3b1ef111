-- ===== src/Rc/Reuse.antt =====
-- runtime/wok_rc.c, the slab backend: an allocation after a release, and where the operations abort.
use wokml.Prelude.{
  ℕ, ◌≡◌, ◌≢◌, ◌<◌, refl, sym, ap, ◌∙◌, true, false, some, ltb, ◌==◌, Bool-cases, inl, inr, arith,
  eq_of_==,
}
use wokml.Rc.{
  Ptr, Heap, write, header_rc, measure, num_classes, set_freelist, pop, small, take_cell, give_back,
  count_free, free, add64,
}
use wokml.Rc.Owner.{Cell}
use wokml.Rc.Words.{write-at}

set_freelist-undo :
    (f : ℕ → Ptr) (cls p c : ℕ) → set_freelist (set_freelist f cls p) cls (f cls) c ≡ f c
unfolding set_freelist
set_freelist-undo f cls p c = elim (Bool-cases (c == cls)) [
  | inl i ↦ rw i (ap f (sym (eq_of_== c cls i)))
  | inr o ↦ rw o refl
]

set_freelist-at : (f : ℕ → Ptr) (cls p : ℕ) → set_freelist f cls p cls ≡ p
unfolding set_freelist
set_freelist-at f cls p = ground arith

-- After `free` of a small cell whose count is 0, an allocation of its class takes the same cell,
-- whatever `malloc` does. The free lists, the slabs and the physical bytes are then what they
-- were before, and one more reuse is counted.
pub free-take_cell :
    (h : Heap) (c : Cell) (m : Ptr)
    → c.at ≢ 0
    → c.cls < 64
    → header_rc (h.mem c.at) ≡ 0
    → measure h.mem c.at ≡ some (c.bytes, c.cls)
    → (g : Heap) × (g' : Heap) × (free h c.at ≡ some g)
      × (take_cell m g c.bytes c.cls ≡ some (c.at, g'))
      × ((k : ℕ) → g'.freelist k ≡ h.freelist k)
      × (g'.counted ≡ h.counted)
      × (g'.cur_physical ≡ h.cur_physical)
      × (g'.reused ≡ add64 h.reused 1)
unfolding free give_back take_cell small
free-take_cell h c m nz lt zero_rc says =
    let t : (header_rc (h.mem c.at) == 0) ≡ true = rw zero_rc refl in
    let s : ltb c.cls num_classes ≡ true = ground arith in
    let lists = set_freelist h.freelist c.cls c.at in
    let g : Heap = record (count_free h c.bytes) {
      mem = write h.mem c.at (h.freelist c.cls);
      freelist = lists;
    } in
    let head : lists c.cls ≡ c.at = set_freelist-at h.freelist c.cls c.at in
    let e : (lists c.cls == 0) ≡ false = rw head (ground arith) in
    let next : g.mem (lists c.cls) ≡ h.freelist c.cls =
      ap g.mem head ∙ write-at h.mem c.at (h.freelist c.cls) in
    (
      g,
      (pop g c.cls).1,
      rw (t, says, s) refl,
      rw (s, e) (ap (λ p. some (p, (pop g c.cls).1)) head),
      λ k. ap (λ p. set_freelist lists c.cls p k) next ∙ set_freelist-undo h.freelist c.cls c.at k,
      refl,
      refl,
      refl,
    )
