-- ===== src/Rc/Scopes.antt =====
-- runtime/wok_rc.c, the slab backend: the slabs of the arena scopes through opens, allocations and
-- closes.
use wokml.Prelude.{
  ℕ, ◌+◌, ◌≡◌, ◌≢◌, ◌≤◌, refl, sym, ap, ◌∙◌, subst, true, false, none, some, some-injective, List,
  [], ◌∷◌, ◌++◌, leb, ◌==◌, length, Bool-cases, inl, inr, arith,
}
use wokml.Rc.{Ptr, Heap, arena_max_depth}
use wokml.Rc.Arena.{
  head_slab, frame_of, arena_open, close_frame, arena_alloc, unwind, restore, arena_close,
}
use wokml.Rc.Slabs.{
  InScope, InScope-trans, IsNew, Sound, arena_alloc-InScope, count, count-append, count-push_all,
  push_all, unwind-append,
}

-- The slab in front at an open is none of those that are added later.
head-grown :
    (base grown fs : List Ptr)
    → ((s : Ptr) → count s (grown ++ base) + count s fs ≤ 1)
    → count 0 (grown ++ base) + count 0 fs ≡ 0
    → count (head_slab base) grown ≡ 0
unfolding count
head-grown [] grown fs once no_null = omega (arith, count-append 0 grown [], no_null)
head-grown (b ∷ bs) grown fs once no_null =
    let o = once b in
    let a = count-append b grown (b ∷ bs) in
    let t : (b == b) ≡ true = ground arith in
    let c : count b (b ∷ bs) ≡ 1 + count b bs = rw t refl in omega (arith, o, a, c)

-- The region and the frames are as in `h`, and the words, the counted region and its lists as in `g`.
-- No slab is lost.
pub record Restored (h g f : Heap) : Type 0 where
  pub slabs : f.arena.slabs ≡ h.arena.slabs
  pub bump_ptr : f.arena.bump_ptr ≡ h.arena.bump_ptr
  pub bump_end : f.arena.bump_end ≡ h.arena.bump_end
  pub arena_bytes : f.arena_bytes ≡ h.arena_bytes
  pub frames : f.frames ≡ h.frames
  pub mem : f.mem ≡ g.mem
  pub counted : f.counted ≡ g.counted
  pub freelist : f.freelist ≡ g.freelist
  pub nslabs : f.arena.nslabs ≡ g.arena.nslabs
  pub conserved :
      (s : Ptr)
      → count s f.arena.slabs + count s f.arena_free_slabs
        ≡ count s g.arena.slabs + count s g.arena_free_slabs

abbrev pub opened : Heap → Heap
opened h = record h { frames = frame_of h ∷ h.frames }

close_lem :
    (h g : Heap)
    → InScope (opened h) g
    → (f : Heap) × (arena_close g (length h.frames) ≡ some f) × Restored h g f
unfolding close_frame
close_lem h g a =
    let k : count (head_slab h.arena.slabs) a.grown ≡ 0 =
      head-grown h.arena.slabs a.grown g.arena_free_slabs
        (subst (λ l. (s : Ptr) → count s l + count s g.arena_free_slabs ≤ 1) a.slabs a.sound.once)
        (subst (λ l. count 0 l + count 0 g.arena_free_slabs ≡ 0) a.slabs a.sound.no_null) in
    let u : unwind (head_slab h.arena.slabs) g.arena.slabs g.arena_free_slabs
        ≡ some (h.arena.slabs, push_all a.grown g.arena_free_slabs) =
      subst
        (λ l.
          unwind (head_slab h.arena.slabs) l g.arena_free_slabs
          ≡ some (h.arena.slabs, push_all a.grown g.arena_free_slabs))
        (sym a.slabs) (unwind-append a.grown h.arena.slabs g.arena_free_slabs k) in
    let t : (length h.frames == length h.frames) ≡ true = ground arith in
    (
      restore g (frame_of h) h.frames (h.arena.slabs, push_all a.grown g.arena_free_slabs),
      ap (close_frame g (length h.frames)) a.frames ∙ rw (t, u) refl,
      record {
        slabs = refl;
        bump_ptr = refl;
        bump_end = refl;
        arena_bytes = refl;
        frames = refl;
        mem = refl;
        counted = refl;
        freelist = refl;
        nslabs = refl;
        conserved = λ s.
            let p = count-push_all s a.grown g.arena_free_slabs in
            let q = ap (count s) a.slabs ∙ count-append s a.grown h.arena.slabs in
            omega (arith, p, q);
      },
    )

-- What happens between an open and its close: allocations in the scope, other operations that leave
-- the arena scopes as they are, and inner scopes.
pub data Scoped : Heap → Heap → Type 0 where
  start : {h : Heap} → Scoped h h
  within :
      {h : Heap} (m : Ptr) (g : Heap) (tag arity p : ℕ) (f : Heap)
      → Scoped h g
      → IsNew m g
      → arena_alloc m g tag arity ≡ some (p, f)
      → Scoped h f
  unrelated :
      {h : Heap} (g f : Heap)
      → Scoped h g
      → f.arena ≡ g.arena
      → f.arena_free_slabs ≡ g.arena_free_slabs
      → f.arena_bytes ≡ g.arena_bytes
      → f.frames ≡ g.frames
      → Scoped h f
  inner :
      {h : Heap} (g g1 g2 f : Heap) (handle : ℕ)
      → Scoped h g
      → arena_open g ≡ some (handle, g1)
      → Scoped g1 g2
      → arena_close g2 handle ≡ some f
      → Scoped h f

open_lem :
    (g : Heap) (handle : ℕ) (g1 : Heap)
    → arena_open g ≡ some (handle, g1)
    → (handle ≡ length g.frames) × (g1 ≡ opened g)
unfolding arena_open
open_lem g handle g1 e = elim (Bool-cases (leb arena_max_depth (length g.frames))) [
  | inl z ↦ let e' = rw z at e in cc
  | inr z ↦
      let e' = rw z at e in
      let k = some-injective (length g.frames, opened g) (handle, g1) e' in
      (sym (ap (λ x. x.0) k), sym (ap (λ x. x.1) k))
]

-- A close after a scope that was opened at `g`, whatever happened in it.
close-Restored :
    (g g1 g2 f : Heap) (handle : ℕ)
    → arena_open g ≡ some (handle, g1)
    → InScope g1 g2
    → arena_close g2 handle ≡ some f
    → Restored g g2 f
close-Restored g g1 g2 f handle o a c =
    let (hd, same) = open_lem g handle g1 o in
    let (f', e, r) = close_lem g g2 (subst (λ k. InScope k g2) same a) in
    let c' : arena_close g2 (length g.frames) ≡ some f =
      subst (λ k. arena_close g2 k ≡ some f) hd c in
    subst (Restored g g2) (some-injective f' f (sym e ∙ c')) r

opened-Sound : (g : Heap) → Sound g → Sound (opened g)
opened-Sound g s = record { once = s.once; no_null = s.no_null }

Scoped-InScope : {h g : Heap} → Sound h → Scoped h g → InScope h g
Scoped-InScope sound start = record { grown = []; slabs = refl; frames = refl; sound = sound }
Scoped-InScope {h} sound (within m g tag arity p f s new e) =
    let a = Scoped-InScope sound s in
    InScope-trans h g f a (arena_alloc-InScope m g tag arity p f e new a.sound)
Scoped-InScope {h} sound (unrelated g f s arena free_slabs bytes frames) =
    let a = Scoped-InScope sound s in
    let slabs : f.arena.slabs ≡ g.arena.slabs = ap (λ r. r.slabs) arena in
    record {
      grown = a.grown;
      slabs = slabs ∙ a.slabs;
      frames = frames ∙ a.frames;
      sound = record {
        once = λ x.
            let o = a.sound.once x in
            let p = ap (count x) slabs in let q = ap (count x) free_slabs in omega (arith, o, p, q);
        no_null =
            let p = ap (count 0) slabs in
            let q = ap (count 0) free_slabs in omega (arith, a.sound.no_null, p, q);
      };
    }
Scoped-InScope {h} sound (inner g g1 g2 f handle s o t c) =
    let a = Scoped-InScope sound s in
    let same = (open_lem g handle g1 o).1 in
    let sound1 = subst Sound (sym same) (opened-Sound g a.sound) in
    let b = Scoped-InScope sound1 t in
    let r = close-Restored g g1 g2 f handle o b c in
    record {
      grown = a.grown;
      slabs = r.slabs ∙ a.slabs;
      frames = r.frames ∙ a.frames;
      sound = record {
        once = λ x. let o = b.sound.once x in omega (arith, o, r.conserved x);
        no_null = omega (arith, b.sound.no_null, r.conserved 0);
      };
    }

-- From slabs of the arena scopes that are all different and not NULL, and after an open,
-- allocations in the scope off new slabs, inner scopes and operations that leave the scopes
-- alone, `arena_close` with the handle of the open returns. The slabs, the frontier, the bytes
-- and the frames are then those of before the open, the memory and the counted region are not
-- touched, and no slab is lost or in two places.
pub arena_scope_lem :
    (h h1 g : Heap) (handle : ℕ)
    → Sound h
    → arena_open h ≡ some (handle, h1)
    → Scoped h1 g
    → (f : Heap) × (arena_close g handle ≡ some f) × Restored h g f × Sound f
arena_scope_lem h h1 g handle sound o s =
    let (hd, same) = open_lem h handle h1 o in
    let sound1 = subst Sound (sym same) (opened-Sound h sound) in
    let b = Scoped-InScope sound1 s in
    let (f, e, r) = close_lem h g (subst (λ k. InScope k g) same b) in
    (
      f,
      subst (λ k. arena_close g k ≡ some f) (sym hd) e,
      r,
      record {
        once = λ x. let o = b.sound.once x in omega (arith, o, r.conserved x);
        no_null = omega (arith, b.sound.no_null, r.conserved 0);
      },
    )

-- From slabs of the arena scopes that are all different and not NULL, and after an open,
-- allocations in the scope off new slabs, inner scopes and operations that leave the scopes
-- alone, `arena_close` with any other handle than that of the open aborts.
pub arena_close-none :
    (h h1 g : Heap) (handle other : ℕ)
    → Sound h
    → arena_open h ≡ some (handle, h1)
    → Scoped h1 g
    → other ≢ handle
    → arena_close g other ≡ none
unfolding close_frame
arena_close-none h h1 g handle other sound o s ne =
    let (hd, same) = open_lem h handle h1 o in
    let sound1 = subst Sound (sym same) (opened-Sound h sound) in
    let b = Scoped-InScope sound1 s in
    let frames : g.frames ≡ frame_of h ∷ h.frames = b.frames ∙ ap (λ k. k.frames) same in
    let t : (other == length h.frames) ≡ false = ground arith in
    ap (close_frame g other) frames ∙ rw t refl
