-- ===== src/Layout/Exact.antt =====
-- How much the operations of the filter emit on lines that hold one name.
use wokml.Prelude.{
  ℕ, zero, suc, ◌+◌, ◌≡◌, ◌≢◌, ◌≤◌, ◌<◌, refl, true, false, not, Option, none, some, List, [], ◌∷◌,
  All, length, length-append, ltb, leb, ◌==◌, ◌∙◌, ◌>>=◌, if◌then◌else◌, Bool-cases, inl, inr,
  arith,
}
use wokml.Token.{WokKind, WokToken, wt_varid, wt_eof, wt_indent, wt_dedent, ww_none}
use wokml.Layout.{
  Filter, top_col, by_column, deeper, shallower, repair, pop_to, pop_loop, layout_token, put,
  put_token,
}

-- A line that holds one name of one byte, at byte `off` and column `c`.
abbrev pub name_at : (off c : ℕ) → WokToken
name_at off c = record {
  off = off;
  len = 1;
  col = c;
  kind = wt_varid;
  word = ww_none;
  first_on_line = true;
  has_escape = false;
}

abbrev pub eof_at : (off : ℕ) → WokToken
eof_at off = record {
  off = off;
  len = 0;
  col = 1;
  kind = wt_eof;
  word = ww_none;
  first_on_line = true;
  has_escape = false;
}

-- The tokens of `k` repetitions, from byte `base` on, of four lines of one name: the lines have no, one,
-- two and three spaces in front of the name, so each name is one level deeper than the one before.
abbrev pub nests : (base k : ℕ) → List WokToken
nests base zero = eof_at base ∷ []
nests base (suc k) =
    name_at base 1
    ∷ name_at (base + 3) 2
    ∷ name_at (base + 7) 3
    ∷ name_at (base + 12) 4
    ∷ nests (base + 14) k

-- An operation that fails or adds `n` tokens exactly, and leaves the stack `s`.
pub data Exact (n : ℕ) (s : List ℕ) (f : Filter) : Option Filter → Type 0 where
  fails : Exact n s f none
  adds :
      {g : Filter}
      → length g.out ≡ length f.out + n
      → g.stack ≡ s
      → g.cap ≡ f.cap
      → length g.out ≤ g.cap
      → Exact n s f (some g)

pub Exact-bind :
    {s s' : List ℕ} {f : Filter} {r : Option Filter} {op : Filter → Option Filter} (n m : ℕ)
    → Exact n s f r
    → ((g : Filter) → g.stack ≡ s → length g.out ≤ g.cap → Exact m s' g (op g))
    → Exact (n + m) s' f (r >>= op)
Exact-bind n m fails next = fails
Exact-bind {op = op} n m (adds {g} o e c l) next = after n m o c (next g e l)
  where
    after :
        {s : List ℕ} {f g : Filter} {r : Option Filter} (n m : ℕ)
        → length g.out ≡ length f.out + n
        → g.cap ≡ f.cap
        → Exact m s g r
        → Exact (n + m) s f r
    after n m o c fails = fails
    after n m o c (adds o' e' c' l') = adds (omega arith) e' (c' ∙ c) l'

pub put_token-Exact : (f : Filter) (t : WokToken) → Exact 1 f.stack f (put_token f t)
unfolding put_token
put_token-Exact f t = elim (Bool-cases (leb f.cap (length f.out))) [
  | inl e ↦ rw e fails
  | inr e ↦
      rw e (
        adds (length-append f.out (t ∷ [])) refl refl
          (ground (arith, length-append f.out (t ∷ []))))
]

pub put-Exact : (f : Filter) (k : WokKind) (t : WokToken) → Exact 1 f.stack f (put f k t)
unfolding put
put-Exact f k t = put_token-Exact f (layout_token k t)

-- The stack before the operation does not matter.
restack :
    {n : ℕ} {s : List ℕ} {r : Option Filter} (x : List ℕ) (f : Filter)
    → Exact n s (record f { stack = x }) r
    → Exact n s f r
restack x f fails = fails
restack x f (adds o e c l) = adds o e c l

Exact-here : (f : Filter) {s : List ℕ} → f.stack ≡ s → length f.out ≤ f.cap → Exact 0 s f (some f)
Exact-here f e l = adds (omega arith) e refl l

module _ (f : Filter) (t : WokToken) where
  -- A line that starts a deeper level.
  pub by_column-deeper :
      top_col f.stack < t.col
      → length f.stack + 1 < 64
      → Exact 1 (t.col ∷ f.stack) f (by_column f t)
  unfolding by_column deeper
  by_column-deeper lt room =
      let x : ltb (top_col f.stack) t.col ≡ true = ground arith in
      let y : leb 64 (length f.stack + 1) ≡ false = ground arith in
      rw (x, y)
        (restack (t.col ∷ f.stack) f (put-Exact (record f { stack = t.col ∷ f.stack }) wt_indent t))

no_more : (n : ℕ) → n + 0 ≡ n
no_more n = omega arith

one_more : (n : ℕ) → 1 + n ≡ suc n
one_more n = omega arith

pub pop_loop-Exact :
    (s : List ℕ) (f : Filter) (c : ℕ) (t : WokToken)
    → All (λ d. c < d) s
    → length f.out ≤ f.cap
    → Exact (length s) [] f (pop_loop s f c t)
unfolding pop_loop
pop_loop-Exact [] f c t h l = adds (omega arith) refl refl l
pop_loop-Exact (d ∷ s) f c t h l =
    let x : ltb c d ≡ true = ground arith in
    let first = restack s f (put-Exact (record f { stack = s }) wt_dedent t) in
    rw (x, ← one_more (length s))
      (Exact-bind 1 (length s) first (λ g e k. pop_loop-Exact s g c t h.1 k))

top_col-pos : (s : List ℕ) → s ≢ [] → All (λ d. 1 < d) s → 1 < top_col s
top_col-pos [] ne h = absurd (ne refl)
top_col-pos (d ∷ s) ne h = h.0

-- A name at column 1 closes every level.
pub by_column-close :
    (f : Filter) (off : ℕ)
    → f.stack ≢ []
    → All (λ d. 1 < d) f.stack
    → length f.out ≤ f.cap
    → Exact (length f.stack) [] f (by_column f (name_at off 1))
unfolding by_column shallower pop_to
by_column-close f off ne h l =
    let deep = top_col-pos f.stack ne h in
    let x : ltb (top_col f.stack) 1 ≡ false = ground arith in
    let y : ltb 1 (top_col f.stack) ≡ true = ground arith in
    rw (x, y, ← no_more (length f.stack))
      (Exact-bind (length f.stack) 0 (pop_loop-Exact f.stack f 1 (name_at off 1) h l) stays)
  where
    stays :
        (g : Filter)
        → g.stack ≡ []
        → length g.out ≤ g.cap
        → Exact 0 [] g (if not (top_col g.stack == 1) then repair g (name_at off 1) else some g)
    stays g e k = let z : (top_col g.stack == 1) ≡ true = rw e refl in rw z (Exact-here g e k)
