-- ===== src/Utf8/Truncate.antt =====
-- `wok_utf8_truncate`: the largest length within the limit that ends at a character boundary.
use wokml.Prelude.{
  ℕ, zero, suc, ◌+◌, ◌-◌, ◌≡◌, ◌<◌, ◌≤◌, refl, sym, ap, ◌∙◌, [], ◌∷◌, ◌++◌, ltb, leb, ◌==◌,
  if◌then◌else◌, length, drop, inl, inr, arith, append_assoc, append-nil, length-append, Bool-cases,
  ne_of_==, subst, length-drop, All-drop,
}
use wokml.Utf8.Spec.{IsChar, IsText, done, char}
use wokml.Utf8.{Bytes, seq_len, step_len, truncate_loop, truncate}
use wokml.Utf8.SeqLen.{IsBytes, char_len}
use wokml.Utf8.Chars.{char_len-append, seq_len-IsChar, seq_len-Front, length-IsChar}
use wokml.Utf8.Find.{drop-append, All-behind}

-- `p` is cut at `n`: on a boundary, within `room`, and no further character fits.
pub record Cut (p : Bytes) (room n : ℕ) : Type 0 where
  pub text : Bytes
  pub rest : Bytes
  pub splits : p ≡ text ++ rest
  pub size : length text ≡ n
  pub is_text : IsText text
  pub rest_text : IsText rest
  pub fits : n ≤ room
  pub largest : (c r : Bytes) → IsChar c → rest ≡ c ++ r → room < n + length c

-- One round, at a buffer that is not empty.
loop_step :
    (fuel i max : ℕ) (p : Bytes)
    → 0 < length p
    → truncate_loop (suc fuel) i max p ≡ (
        if ltb max (i + step_len p)
        then i
        else truncate_loop fuel (i + step_len p) max (drop (step_len p) p))
unfolding truncate_loop
loop_step fuel i max [] h = absurd (omega arith)
loop_step fuel i max (c ∷ q) h = refl

step_len-IsChar :
    {c : Bytes} → IsChar c → (r : Bytes) → IsBytes (c ++ r) → step_len (c ++ r) ≡ length c
unfolding step_len
step_len-IsChar {c} h r b =
    rw (seq_len-IsChar (c ++ r) b c r h refl) (ground (arith, length-IsChar h))

Cut-done : (room : ℕ) → Cut [] room 0
Cut-done room = record {
  text = [];
  rest = [];
  splits = refl;
  size = refl;
  is_text = done;
  rest_text = done;
  fits = omega arith;
  largest = λ c r h e. absurd (omega (arith, ap length e, length-append c r, (length-IsChar h).0));
}

-- The first character does not fit.
Cut-full : {c q : Bytes} {room : ℕ} → IsChar c → IsText q → room < length c → Cut (c ++ q) room 0
Cut-full {c} {q} {room} h t lt = record {
  text = [];
  rest = c ++ q;
  splits = refl;
  size = refl;
  is_text = done;
  rest_text = char h t;
  fits = omega arith;
  largest =
      λ d r hd e. omega (arith, sym (char_len-append h q) ∙ ap char_len e ∙ char_len-append hd r);
}

Cut-char :
    {c q : Bytes} {room n : ℕ}
    → IsChar c
    → length c ≤ room
    → Cut q (room - length c) n
    → Cut (c ++ q) room (length c + n)
Cut-char {c} {q} h le k = record {
  text = c ++ k.text;
  rest = k.rest;
  splits = ap (◌++◌ c) k.splits ∙ sym (append_assoc c k.text k.rest);
  size = omega (arith, length-append c k.text, k.size);
  is_text = char h k.is_text;
  rest_text = k.rest_text;
  fits = omega (arith, k.fits);
  largest = λ d r hd e. omega (arith, k.largest d r hd e);
}

-- What the loop leaves, from offset `i` with the text `p` ahead.
abbrev Cuts : (fuel i max : ℕ) → Bytes → Type 0
Cuts fuel i max p = (n : ℕ) × (truncate_loop fuel i max p ≡ i + n) × Cut p (max - i) n

loop_nil : (fuel i max : ℕ) → truncate_loop fuel i max [] ≡ i
unfolding truncate_loop
loop_nil zero i max = refl
loop_nil (suc fuel) i max = refl

loop_zero : (i max : ℕ) (p : Bytes) → truncate_loop zero i max p ≡ i
unfolding truncate_loop
loop_zero i max p = refl

-- The first character fits, and the loop goes on behind it.
Cuts-char :
    {c q : Bytes} (fuel i max : ℕ)
    → IsChar c
    → truncate_loop (suc fuel) i max (c ++ q) ≡ truncate_loop fuel (i + length c) max q
    → i + length c ≤ max
    → Cuts fuel (i + length c) max q
    → Cuts (suc fuel) i max (c ++ q)
Cuts-char {c} {q} fuel i max k step le (n, e, cut) = (
  length c + n,
  step ∙ e ∙ omega arith,
  Cut-char k (omega arith) (subst (λ r. Cut q r n) (omega arith) cut),
)

truncate_loop-Cuts :
    {p : Bytes} (fuel i max : ℕ)
    → IsText p
    → IsBytes p
    → length p < fuel
    → i ≤ max
    → Cuts fuel i max p
truncate_loop-Cuts fuel i max done b h le =
    (0, loop_nil fuel i max ∙ omega arith, Cut-done (max - i))
truncate_loop-Cuts zero i max (char {c} {p = q} k t) b h le = absurd (omega arith)
truncate_loop-Cuts (suc fuel) i max (char {c} {p = q} k t) b h le =
    let step =
      loop_step fuel i max (c ++ q) (omega (arith, length-append c q, (length-IsChar k).0)) in
    let len = step_len-IsChar k q b in
    elim (Bool-cases (ltb max (i + length c))) [
      | inl over ↦ (0, step ∙ rw (len, over) (omega arith), Cut-full k t (ground arith))
      | inr room ↦ Cuts-char fuel i max k (step ∙ rw (len, room, drop-append c q)) (ground arith) (
          truncate_loop-Cuts fuel (i + length c) max t (All-behind c q b)
            (omega (arith, length-append c q, (length-IsChar k).0)) (ground arith))
    ]

sub_zero : (n : ℕ) → n - 0 ≡ n
sub_zero n = omega arith

Cut-whole : (p : Bytes) {max : ℕ} → IsText p → length p ≤ max → Cut p max (length p)
Cut-whole p t h = record {
  text = p;
  rest = [];
  splits = sym (append-nil p);
  size = refl;
  is_text = t;
  rest_text = done;
  fits = h;
  largest = λ c r k e. absurd (omega (arith, ap length e, length-append c r, (length-IsChar k).0));
}

-- On well-formed UTF-8 `wok_utf8_truncate` returns the largest length within the limit that ends
-- at a character boundary: what it keeps and what it cuts off are both texts, and the next
-- character would not fit.
pub truncate-Cut : (p : Bytes) (max : ℕ) → IsText p → IsBytes p → Cut p max (truncate p max)
unfolding truncate
truncate-Cut p max t b = elim (Bool-cases (leb (length p) max)) [
  | inl whole ↦ rw whole (Cut-whole p t (ground arith))
  | inr over ↦
      let (n, e, cut) = truncate_loop-Cuts (suc (length p)) 0 max t b (omega arith) (omega arith) in
      let k : truncate_loop (suc (length p)) 0 max p ≡ n = e ∙ omega arith in
      rw (over, k) (subst (λ r. Cut p r n) (sub_zero max) cut)
]

step_len-le : (p : Bytes) → IsBytes p → 0 < length p → step_len p ≤ length p
unfolding step_len
step_len-le p b h = elim (Bool-cases (seq_len p (length p) == 0)) [
  | inl z ↦ rw z h
  | inr z ↦
      let f = seq_len-Front p b (ne_of_== _ _ z) in
      rw z (omega (arith, ap length f.splits, length-append f.lead f.rest, f.size))
]

truncate_loop_bounds :
    (fuel i max : ℕ) (p : Bytes)
    → IsBytes p
    → i ≤ max
    → (truncate_loop fuel i max p ≤ max) × (truncate_loop fuel i max p ≤ i + length p)
truncate_loop_bounds fuel i max [] b h = rw (loop_nil fuel i max) (omega arith)
truncate_loop_bounds zero i max (a ∷ p) b h = rw (loop_zero i max (a ∷ p)) (omega arith)
truncate_loop_bounds (suc fuel) i max (a ∷ p) b h =
    rw (loop_step fuel i max (a ∷ p) (omega arith))
      (elim (Bool-cases (ltb max (i + step_len (a ∷ p)))) [
        | inl over ↦ rw over (omega arith)
        | inr room ↦
            let n = step_len (a ∷ p) in
            let le = step_len-le (a ∷ p) b (omega arith) in
            rw room (
              omega (
                arith,
                length-drop n (a ∷ p),
                le,
                truncate_loop_bounds fuel (i + n) max (drop n (a ∷ p))
                    (All-drop (λ b. b < 256) n (a ∷ p) b) (ground arith),
              ))
      ])

-- On any bytes, well formed or not, the result stays within the limit and within the buffer.
pub truncate_bounds :
    (p : Bytes) (max : ℕ) → IsBytes p → (truncate p max ≤ max) × (truncate p max ≤ length p)
unfolding truncate
truncate_bounds p max b = elim (Bool-cases (leb (length p) max)) [
  | inl whole ↦ rw whole (ground arith)
  | inr over ↦
      rw over (omega (arith, truncate_loop_bounds (suc (length p)) 0 max p b (omega arith)))
]
