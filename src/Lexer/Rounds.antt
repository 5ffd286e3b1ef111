-- ===== src/Lexer/Rounds.antt =====
-- A round of the scanner: it goes on, and emits at most one token, behind those before.
use wokml.Prelude.{
  ℕ, ◌+◌, ◌-◌, ◌≡◌, ◌≤◌, ◌<◌, refl, sym, subst, Bool, true, Option, some, List, [], ◌∷◌, ◌++◌,
  arith,
}
use wokml.Utf8.{Bytes}
use wokml.Token.{
  WokKind, WokWord, WokToken, kind_is_eof, kind_is_indent, kind_is_dedent, kind_is_newline,
}
use wokml.Token.Words.{word_kind, reserved_sym}
use wokml.Layout.Stream.{is_plain}
use wokml.Lexer.{u32, Scanner, emit}
use wokml.Lexer.Main.{span, single_kind}
use wokml.Lexer.Ahead.{Ahead, Ahead-self, u32-small}

-- Plain tokens that lie one behind the other and end at `e` or before.
pub data Emitted : (e : ℕ) → List WokToken → Type 0 where
  none_yet : {e : ℕ} → Emitted e []
  one_more :
      {e e' : ℕ} {ts : List WokToken} (t : WokToken)
      → Emitted e ts
      → e ≤ t.off
      → 0 < t.len
      → t.off + t.len ≤ e'
      → is_plain t.kind ≡ true
      → 1 ≤ t.col
      → Emitted e' (ts ++ t ∷ [])

pub Emitted-later : {e e' : ℕ} {ts : List WokToken} → Emitted e ts → e ≤ e' → Emitted e' ts
Emitted-later none_yet h = none_yet
Emitted-later (one_more t m a b c d f) h = one_more t m a b (omega arith) d f

-- The scanner between two rounds.
pub record Between (n : ℕ) (s : Scanner) : Type 0 where
  pub ahead : Ahead n 0 s s
  pub emitted : Emitted s.i s.tok

pub data Went (n : ℕ) (s : Scanner) : Option Scanner → Type 0 where
  went : {t : Scanner} → Between n t → s.i < t.i → Went n s (some t)

pub word_kind-plain : (w : WokWord) → is_plain (word_kind w) ≡ true
unfolding word_kind kind_is_eof kind_is_indent kind_is_dedent kind_is_newline
word_kind-plain w = ground arith

pub reserved_sym-plain : (p : Bytes) → is_plain (reserved_sym p) ≡ true
unfolding reserved_sym kind_is_eof kind_is_indent kind_is_dedent kind_is_newline
reserved_sym-plain [] = refl
reserved_sym-plain (a ∷ []) = ground arith
reserved_sym-plain (a ∷ b ∷ []) = ground arith
reserved_sym-plain (a ∷ b ∷ c ∷ p) = refl

pub single_kind-plain : (c : ℕ) → is_plain (single_kind c) ≡ true
unfolding single_kind kind_is_eof kind_is_indent kind_is_dedent kind_is_newline
single_kind-plain c = ground arith

module _ {n : ℕ} (small : n + 1 < 4294967296) where
  pub moved : {s t : Scanner} → Between n s → Ahead n 1 s t → Between n t
  moved b a = record {
    ahead = Ahead-self a;
    emitted = subst (Emitted _) (sym a.keeps) (Emitted-later b.emitted (omega (arith, a.far)));
  }

  pub moved-Went : {s t : Scanner} → Between n s → Ahead n 1 s t → Went n s (some t)
  moved-Went b a = went (moved b a) (omega (arith, a.far))

  pub span-eq : {s t : Scanner} → Ahead n 0 s s → Ahead n 1 s t → span s t ≡ t.i - s.i
  span-eq {s} {t} a b =
      rw (u32-small s.i (omega (arith, a.here)), u32-small t.i (omega (arith, b.here)))
        (omega (arith, b.far, b.here))

  -- A token that starts where the scanner stood and ends where it stands, or before.
  pub emit-Between :
      {s t : Scanner}
      → Between n s
      → Ahead n 1 s t
      → (k : WokKind) (w : WokWord) (len : ℕ) (x : Bool) → is_plain k ≡ true
      → 0 < len
      → s.i + len ≤ t.i
      → Between n (emit t k w (u32 s.i) len s.col x)
  unfolding emit
  emit-Between {s} {t} b a k w len x plain pos le = rw a.keeps (record {
    ahead = record {
      here = a.here;
      col_pos = a.col_pos;
      col_le = a.col_le;
      keeps = refl;
      far = omega arith;
    };
    emitted =
        one_more _ b.emitted (omega (arith, small_i)) pos (omega (arith, small_i)) plain
          b.ahead.col_pos;
  })
    where
      small_i : u32 s.i ≡ s.i
      small_i = u32-small s.i (omega (arith, b.ahead.here))
