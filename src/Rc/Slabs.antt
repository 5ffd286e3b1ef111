-- ===== src/Rc/Slabs.antt =====
-- runtime/wok_rc.c, the slab backend: the slabs of the arena scopes, within one scope.
use wokml.Prelude.{
  ℕ, ◌+◌, ◌≡◌, ◌≤◌, refl, sym, ap, ◌∙◌, subst, true, false, ◌&&◌, ◌||◌, not, some, some-injective,
  List, [], ◌∷◌, ◌++◌, append_assoc, ltb, ◌==◌, if◌then◌else◌, length, Bool-cases, inl, inr, arith,
  >>=-eq-some, eq_of_==,
}
use wokml.Rc.{Ptr, Heap, cell_bytes, grow_slab, no_room, logical_mark, phys_add}
use wokml.Rc.Arena.{head_slab, recycle, new_arena_slab, arena_take, arena_room, arena_alloc, unwind}

-- How often a slab occurs in a list.
unfoldable pub count : Ptr → List Ptr → ℕ
count s [] = 0
count s (x ∷ xs) = (if x == s then 1 else 0) + count s xs

pub count-append : (s : Ptr) (xs ys : List Ptr) → count s (xs ++ ys) ≡ count s xs + count s ys
unfolding count
count-append s [] ys = omega arith
count-append s (x ∷ xs) ys = omega (arith, count-append s xs ys)

-- The slabs in front of `base` go on the free list, one by one.
pub push_all : (grown free_slabs : List Ptr) → List Ptr
push_all [] fs = fs
push_all (s ∷ ss) fs = push_all ss (s ∷ fs)

pub count-push_all :
    (s : Ptr) (xs fs : List Ptr) → count s (push_all xs fs) ≡ count s xs + count s fs
unfolding count push_all
count-push_all s [] fs = omega arith
count-push_all s (x ∷ xs) fs = omega (arith, count-push_all s xs (x ∷ fs))

-- The loop of a close stops at the slab that was in front at the open.
pub unwind-append :
    (grown base fs : List Ptr)
    → count (head_slab base) grown ≡ 0
    → unwind (head_slab base) (grown ++ base) fs ≡ some (base, push_all grown fs)
unfolding unwind push_all count
unwind-append [] [] fs e = refl
unwind-append [] (b ∷ bs) fs e = let t : (b == b) ≡ true = ground arith in rw t refl
unwind-append (s ∷ ss) base fs e =
    let t : (s == head_slab base) ≡ false = ground arith in
    rw t (unwind-append ss base (s ∷ fs) (ground arith))

-- No slab is in both lists or twice in one, and NULL is in none.
pub record Sound (h : Heap) : Type 0 where
  pub once : (s : Ptr) → count s h.arena.slabs + count s h.arena_free_slabs ≤ 1
  pub no_null : count 0 h.arena.slabs + count 0 h.arena_free_slabs ≡ 0

-- What `malloc` returned is no slab of the arena scopes.
abbrev pub IsNew : Ptr → Heap → Type 0
IsNew m h = count m h.arena.slabs + count m h.arena_free_slabs ≡ 0

-- The state `g` within the scope that was opened before `h`: the slabs of `h` are still there, behind
-- those that have been added, and no scope but the inner ones, which are closed, was opened.
pub record InScope (h g : Heap) : Type 0 where
  pub grown : List Ptr
  pub slabs : g.arena.slabs ≡ grown ++ h.arena.slabs
  pub frames : g.frames ≡ h.frames
  pub sound : Sound g

-- A slab that is added comes off the free list, or is new.
recycle_lem :
    (m : Ptr) (h g : Heap) (fs : List Ptr)
    → h.arena_free_slabs ≡ fs
    → recycle m h fs ≡ some g
    → IsNew m h
    → Sound h
    → InScope h g
unfolding recycle grow_slab phys_add count
recycle_lem m h g [] e r new sound = elim (Bool-cases (m == 0)) [
  | inl z ↦ let r' = rw z at r in cc
  | inr z ↦
      let r' = rw z at r in
      subst (InScope h) (some-injective _ _ r') (record {
        grown = m ∷ [];
        slabs = refl;
        frames = refl;
        sound = record {
          once = λ s. elim (Bool-cases (m == s)) [
            | inl i ↦
                let k =
                  subst (λ t. count t h.arena.slabs + count t h.arena_free_slabs ≡ 0)
                    (eq_of_== m s i) new in
                rw i (omega (arith, k))
            | inr o ↦ rw o (omega (arith, sound.once s))
          ];
          no_null = rw z (omega (arith, sound.no_null));
        };
      })
]
recycle_lem m h g (x ∷ xs) e r new sound = subst (InScope h) (some-injective _ _ r) (record {
  grown = x ∷ [];
  slabs = refl;
  frames = refl;
  sound = record {
    once = λ s.
        let o = subst (λ l. count s h.arena.slabs + count s l ≤ 1) e (sound.once s) in
        omega (arith, o);
    no_null =
        let o = subst (λ l. count 0 h.arena.slabs + count 0 l ≡ 0) e sound.no_null in
        omega (arith, o);
  };
})

pub InScope-trans : (h g f : Heap) → InScope h g → InScope g f → InScope h f
InScope-trans h g f a b = record {
  grown = b.grown ++ a.grown;
  slabs =
      b.slabs ∙ ap (λ l. b.grown ++ l) a.slabs ∙ sym (append_assoc b.grown a.grown h.arena.slabs);
  frames = b.frames ∙ a.frames;
  sound = b.sound;
}

arena_take-InScope : (h : Heap) (tag arity : ℕ) → Sound h → InScope h (arena_take h tag arity).1
unfolding arena_take logical_mark
arena_take-InScope h tag arity sound = record {
  grown = [];
  slabs = refl;
  frames = refl;
  sound = record { once = sound.once; no_null = sound.no_null };
}

pub arena_alloc-InScope :
    (m : Ptr) (h : Heap) (tag arity p : ℕ) (g : Heap)
    → arena_alloc m h tag arity ≡ some (p, g)
    → IsNew m h
    → Sound h
    → InScope h g
unfolding arena_alloc arena_room
arena_alloc-InScope m h tag arity p g e new sound =
    elim (Bool-cases (not (ltb tag 65536 && ltb arity 256) || length h.frames == 0)) [
      | inl z ↦ let e' = rw z at e in cc
      | inr z ↦
          let e1 = rw z at e in
          elim (Bool-cases (no_room h.arena (cell_bytes arity))) [
            | inl w ↦
                let e2 = rw w at e1 in
                let (k, r, s) =
                  >>=-eq-some (new_arena_slab m h) (λ g. some (arena_take g tag arity)) e2 in
                let a = recycle_lem m h k h.arena_free_slabs refl r new sound in
                let b = arena_take-InScope k tag arity a.sound in
                let same = ap (λ x. x.1) (some-injective (arena_take k tag arity) (p, g) s) in
                subst (InScope h) same (InScope-trans h k (arena_take k tag arity).1 a b)
            | inr w ↦
                let e2 = rw w at e1 in
                let same = ap (λ x. x.1) (some-injective (arena_take h tag arity) (p, g) e2) in
                subst (InScope h) same (arena_take-InScope h tag arity sound)
          ]
    ]
