-- ===== src/Layout/Outcome.antt =====
-- One operation of the filter: what it adds to the output, by how much the output and the stack
-- may grow, and when it fails.
use wokml.Prelude.{
  ℕ, ◌+◌, ◌≡◌, ◌≤◌, ◌<◌, refl, sym, ap, ◌∙◌, Option, none, some, List, [], ◌++◌, append_assoc,
  append-nil, length, arith, All, subst, ◌>>=◌,
}
use wokml.Token.{WokToken}
use wokml.Diag.{WokDiagSink}
use wokml.Layout.{Filter, report_in}
use wokml.Layout.Stream.{Stream}

-- The output and the open levels: every DEDENT still to come is counted.
abbrev pub size : Filter → ℕ
size f = length f.out + length f.stack

abbrev pub StackIsPos : List ℕ → Type 0
StackIsPos = All (λ c. 1 ≤ c)

-- Any tokens at all; `NotDedent` is the other condition on what comes next.
abbrev pub Anything : List WokToken → Type 0
Anything ts = Unit

-- `g` follows `f`: the new tokens lead from the stack of `f` to that of `g`, whenever what comes
-- next is `Next`.
pub record Follows (Next : List WokToken → Type 0) (f g : Filter) : Type 0 where
  pub added : List WokToken
  pub out : g.out ≡ f.out ++ added
  pub leads : (ts : List WokToken) → Stream g.stack ts → Next ts → Stream f.stack (added ++ ts)
  pub cap : g.cap ≡ f.cap
  pub pos : StackIsPos f.stack → StackIsPos g.stack

-- An operation that may grow `size` by `k` fails only if the buffer has no room for that.
pub data Outcome (Next : List WokToken → Type 0) (k : ℕ) (f : Filter) : Option Filter → Type 0 where
  full : f.cap < size f + k → Outcome Next k f none
  went : {g : Filter} → Follows Next f g → size g ≤ size f + k → Outcome Next k f (some g)

-- The filter may change its diagnostics.
pub Follows-same :
    (f g : Filter) → g.out ≡ f.out → g.stack ≡ f.stack → g.cap ≡ f.cap → Follows Anything f g
Follows-same f g o s c = record {
  added = [];
  out = o ∙ sym (append-nil f.out);
  leads = λ ts h n. subst (λ x. Stream x ts) s h;
  cap = c;
  pos = λ p. subst StackIsPos (sym s) p;
}

pub Follows-trans :
    {Next : List WokToken → Type 0} {f g h : Filter}
    → Follows Anything f g
    → Follows Next g h
    → Follows Next f h
Follows-trans {Next} {f} {g} {h} a b = record {
  added = a.added ++ b.added;
  out = b.out ∙ ap (λ (x : List WokToken). x ++ b.added) a.out ∙ append_assoc f.out a.added b.added;
  leads = λ ts s n.
      subst (Stream f.stack) (sym (append_assoc a.added b.added ts))
        (a.leads (b.added ++ ts) (b.leads ts s n) tt);
  cap = b.cap ∙ a.cap;
  pos = λ p. b.pos (a.pos p);
}

pub Follows-weaken :
    {Next : List WokToken → Type 0} {f g : Filter} → Follows Anything f g → Follows Next f g
Follows-weaken a = record {
  added = a.added;
  out = a.out;
  leads = λ ts s n. a.leads ts s tt;
  cap = a.cap;
  pos = a.pos;
}

module _ {Next : List WokToken → Type 0} where
  pub Outcome-after :
      {f g : Filter} {r : Option Filter} (i j : ℕ)
      → Follows Anything f g
      → size g ≤ size f + i
      → Outcome Next j g r
      → Outcome Next (i + j) f r
  Outcome-after i j a h (full l) = full (omega (arith, a.cap))
  Outcome-after i j a h (went b l) = went (Follows-trans a b) (omega arith)

  pub Outcome-weaken :
      {k : ℕ} {f : Filter} {r : Option Filter} → Outcome Anything k f r → Outcome Next k f r
  Outcome-weaken (full h) = full h
  Outcome-weaken (went a h) = went (Follows-weaken a) h

  pub Outcome-bind :
      {f : Filter} {r : Option Filter} {op : Filter → Option Filter} (i j : ℕ)
      → Outcome Anything i f r
      → ((g : Filter) → r ≡ some g → Follows Anything f g → Outcome Next j g (op g))
      → Outcome Next (i + j) f (r >>= op)
  Outcome-bind i j (full h) next = full (omega arith)
  Outcome-bind i j (went {g} a h) next = Outcome-after i j a h (next g refl a)

  -- A fault that is reported changes only the diagnostics.
  pub Outcome-report :
      {k : ℕ} {r : Option Filter} (f : Filter) (d : WokDiagSink)
      → Outcome Next k (report_in f d) r
      → Outcome Next k f r
  Outcome-report f d (full h) = full h
  Outcome-report f d (went b l) =
      went (Follows-trans (Follows-same f (report_in f d) refl refl refl) b) l

  pub Outcome-le :
      {k : ℕ} {f : Filter} {r : Option Filter} (i : ℕ)
      → Outcome Next i f r
      → i ≤ k
      → Outcome Next k f r
  Outcome-le i (full h) le = full (omega arith)
  Outcome-le i (went a h) le = went a (omega arith)
