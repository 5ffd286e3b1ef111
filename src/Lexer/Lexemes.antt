-- ===== src/Lexer/Lexemes.antt =====
-- Each function of the scanner's loop is a round.
use wokml.Prelude.{
  ℕ, suc, ◌+◌, ◌≡◌, ◌<◌, refl, ap, Bool, true, false, not, ◌&&◌, ◌||◌, Option, some, [], ◌∷◌, leb,
  ◌==◌, length, Bool-cases, inl, inr, arith, ◌>>=◌,
}
use wokml.Utf8.{Bytes}
use wokml.Token.{
  WokKind, WokWord, ww_none, kind_is_eof, kind_is_indent, kind_is_dedent, kind_is_newline,
  wt_underscore, wt_dot, wt_dotdot, wt_semi, wt_int,
}
use wokml.Token.Classes.{is_sym, is_lower, is_upper, is_digit, is_ident_cont}
use wokml.Layout.Stream.{is_plain}
use wokml.Lexer.{
  u32, Scanner, emit, advance, advance_while, add_comment, Literal, scan_literal, end_literal,
  opens_comment, skip_block_comment, literal_kind,
}
use wokml.Lexer.Main.{
  span, text, scan_tab, line_comment, all_dash, scan_sym, scan_ident, scan_underscore, scan_int,
  scan_dot, scan_semi, scan_single, single_kind, scan_mark, scan_lexeme, scan_round, ident_kind,
  starts_with, kind_is_bad,
}
use wokml.Lexer.Ahead.{
  Ahead, Ahead-like, Ahead-weaken, Ahead-self, Ahead-trans, advance-rest, advance-Ahead,
  advance_while-Ahead, advance_while-first, skip_block_comment-Ahead,
}
use wokml.Lexer.Literals.{Looped, looped, literal_loop-Looped}
use wokml.Lexer.Rounds.{
  Between, Went, went, moved-Went, span-eq, emit-Between, word_kind-plain, reserved_sym-plain,
  single_kind-plain,
}

ident_kind-plain : (u : Bool) (w : WokWord) → is_plain (ident_kind u w) ≡ true
unfolding kind_is_eof kind_is_indent kind_is_dedent kind_is_newline
ident_kind-plain u w = ground (arith, word_kind-plain w)

literal_kind-plain : (c : ℕ) → is_plain (literal_kind c) ≡ true
unfolding kind_is_eof kind_is_indent kind_is_dedent kind_is_newline
literal_kind-plain c = ground arith

opens_comment-eq : (c d : ℕ) → (c == 123 && d == 45) ≡ true → opens_comment c d ≡ true
unfolding opens_comment
opens_comment-eq c d h = h

module _ {n : ℕ} (small : n + 1 < 4294967296) where
  -- A token with what may follow it: a diagnostic changes nothing of the place.
  diagnosed :
      {s t u : Scanner}
      → Between n t
      → s.i < t.i
      → u.rest ≡ t.rest
      → u.i ≡ t.i
      → u.col ≡ t.col
      → u.tok ≡ t.tok
      → Went n s (some u)
  diagnosed b lt r i c k =
      went
        (record { ahead = Ahead-self (Ahead-like b.ahead r i c k); emitted = rw (i, k) b.emitted })
        (omega (arith, i))

  -- A token whose length is the one the scanner measures.
  measured :
      {s t : Scanner}
      → Between n s
      → Ahead n 1 s t
      → (k : WokKind) (w : WokWord) (x : Bool) → is_plain k ≡ true
      → Between n (emit t k w (u32 s.i) (span s t) s.col x)
  measured {s} {t} b a k w x plain =
      let e = span-eq small b.ahead a in
      emit-Between small b a k w (span s t) x plain (omega (arith, e, a.far))
        (omega (arith, e, a.far))

  measured-Went :
      {s t : Scanner}
      → Between n s
      → Ahead n 1 s t
      → (k : WokKind) (w : WokWord) (x : Bool) → is_plain k ≡ true
      → Went n s (some (emit t k w (u32 s.i) (span s t) s.col x))
  unfolding emit
  measured-Went {s} {t} b a k w x plain = went (measured b a k w x plain) (omega (arith, a.far))

  fixed-Went :
      {s t : Scanner}
      → Between n s
      → (k : WokKind) (w : WokWord) (len : ℕ) (x : Bool) → Ahead n len s t
      → is_plain k ≡ true
      → 0 < len
      → Went n s (some (emit t k w (u32 s.i) len s.col x))
  unfolding emit
  fixed-Went {s} {t} b k w len x a plain pos =
      went
        (emit-Between small b (Ahead-weaken (omega arith) a) k w len x plain pos
          (omega (arith, a.far)))
        (omega (arith, a.far))

  module _ (s : Scanner) (c : ℕ) (q : Bytes) (e : s.rest ≡ c ∷ q) (b : Between n s) where
    over : Ahead n 1 s (advance s c q)
    over = advance-Ahead small c q e b.ahead

    while_over : (p : ℕ → Bool) → p c ≡ true → Ahead n 1 s (advance_while p s.rest s)
    while_over p h = advance_while-first small p s s.rest e refl h b.ahead

    scan_tab-Went : Went n s (some (scan_tab s c q))
    unfolding scan_tab
    scan_tab-Went = elim (Bool-cases (s.line_pending && not s.tab_reported)) [
      | inl h ↦
          rw h (
            moved-Went small b (advance-Ahead small c q e (Ahead-like b.ahead refl refl refl refl)))
      | inr h ↦ rw h (moved-Went small b over)
    ]

    scan_int-Went : is_digit c ≡ true → Went n s (some (scan_int s))
    unfolding scan_int kind_is_eof kind_is_indent kind_is_dedent kind_is_newline
    scan_int-Went h =
        measured-Went b (while_over (λ b. is_digit b || b == 95) (ground arith)) wt_int ww_none
          false refl

    scan_ident-Went : is_ident_cont c ≡ true → Went n s (some (scan_ident s c))
    unfolding scan_ident
    scan_ident-Went h =
        measured-Went b (while_over is_ident_cont h) _ _ false (ident_kind-plain _ _)

    fixed_one :
        (k : WokKind)
        → is_plain k ≡ true
        → Between n (emit (advance s c q) k ww_none (u32 s.i) 1 s.col false)
    fixed_one k plain =
        emit-Between small b over k ww_none 1 false plain (omega arith) (omega (arith, over.far))

    one-Went :
        (k : WokKind)
        → is_plain k ≡ true
        → Went n s (some (emit (advance s c q) k ww_none (u32 s.i) 1 s.col false))
    one-Went k plain = fixed-Went b k ww_none 1 false over plain (omega arith)

    scan_single-Went : Went n s (some (scan_single s c q))
    unfolding scan_single emit
    scan_single-Went =
        let plain = single_kind-plain c in
        elim (Bool-cases (kind_is_bad (single_kind c))) [
          | inl h ↦ rw h (
              diagnosed (fixed_one (single_kind c) plain) (omega (arith, over.far)) refl refl refl
                refl)
          | inr h ↦ rw h (one-Went (single_kind c) plain)
        ]

    scan_semi-Went : Went n s (some (scan_semi s c q))
    unfolding scan_semi emit kind_is_eof kind_is_indent kind_is_dedent kind_is_newline
    scan_semi-Went =
        diagnosed (fixed_one wt_semi refl) (omega (arith, over.far)) refl refl refl refl

    scan_underscore-Went : is_ident_cont c ≡ true → Went n s (some (scan_underscore s c q))
    unfolding scan_underscore kind_is_eof kind_is_indent kind_is_dedent kind_is_newline
    scan_underscore-Went h = elim (Bool-cases (starts_with is_ident_cont q)) [
      | inl k ↦ rw k (scan_ident-Went h)
      | inr k ↦ rw k (one-Went wt_underscore refl)
    ]

    line_comment-Went : {t : Scanner} → Ahead n 1 s t → Went n s (some (line_comment s t))
    unfolding line_comment add_comment
    line_comment-Went {t} a = moved-Went small b (
        Ahead-like (advance_while-Ahead small (λ b. not (b == 10)) t.rest t refl a) refl refl refl
          refl)

    scan_sym-Went : is_sym c ≡ true → Went n s (some (scan_sym s))
    unfolding scan_sym
    scan_sym-Went h =
        let a = while_over is_sym h in
        let t = advance_while is_sym s.rest s in
        elim (Bool-cases (all_dash (text s t) && leb 2 (span s t))) [
          | inl k ↦ rw k (line_comment-Went a)
          | inr k ↦ rw k (measured-Went b a _ _ false (reserved_sym-plain (text s t)))
        ]

    end_literal-Went :
        (r : Literal) → Ahead n 1 s r.0 → Went n s (some (end_literal c (u32 s.i) s.col r))
    unfolding end_literal
    end_literal-Went (t, x, closed) a = elim (Bool-cases closed) [
      | inl k ↦ rw k (measured-Went b a (literal_kind c) ww_none x (literal_kind-plain c))
      | inr k ↦ rw k (
          measured-Went b (Ahead-like a refl refl refl refl) (literal_kind c) ww_none x
            (literal_kind-plain c))
    ]

    literal-Went :
        {r : Option Literal}
        → Looped n 0 (advance s c q) r
        → Went n s (r >>= λ l. some (end_literal c (u32 s.i) s.col l))
    literal-Went (looped {r} a) = end_literal-Went r (Ahead-trans over a)

    scan_literal-Went : Went n s (scan_literal s c q)
    unfolding scan_literal
    scan_literal-Went = literal-Went (
        literal_loop-Looped small (suc (length q)) c (advance s c q) false
          (omega (arith, ap length (advance-rest s c q))) (Ahead-self over))

  scan_dot-Went :
      (s : Scanner) (c : ℕ) (q : Bytes)
      → s.rest ≡ c ∷ q
      → Between n s
      → Went n s (some (scan_dot s c q))
  unfolding scan_dot kind_is_eof kind_is_indent kind_is_dedent kind_is_newline
  scan_dot-Went s c [] e b = one-Went s c [] e b wt_dot refl
  scan_dot-Went s c (d ∷ q) e b = elim (Bool-cases (d == 46)) [
    | inl h ↦ rw h (
        fixed-Went b wt_dotdot ww_none 2 false
          (advance-Ahead small d q (advance-rest s c (d ∷ q)) (over s c (d ∷ q) e b)) refl
          (omega arith))
    | inr h ↦ rw h (one-Went s c (d ∷ q) e b wt_dot refl)
  ]

  comment-Went :
      (s : Scanner) (c : ℕ) (q : Bytes)
      → s.rest ≡ c ∷ q
      → Between n s
      → (c == 123 && starts_with (λ d. d == 45) q) ≡ true
      → Went n s (some (skip_block_comment s))
  comment-Went s c [] e b h = absurd (ground arith)
  comment-Went s c (d ∷ q) e b h = moved-Went small b (
      Ahead-weaken (omega arith)
        (skip_block_comment-Ahead small s c d q e (opens_comment-eq c d h) b.ahead))

  module _ (s : Scanner) (c : ℕ) (q : Bytes) (e : s.rest ≡ c ∷ q) (b : Between n s) where
    scan_mark-Went : Went n s (scan_mark s c q)
    unfolding scan_mark
    scan_mark-Went = elim (Bool-cases (c == 34 || c == 39)) [
      | inl h1 ↦ rw h1 (scan_literal-Went s c q e b)
      | inr h1 ↦ elim (Bool-cases (c == 46)) [
        | inl h2 ↦ rw (h1, h2) (scan_dot-Went s c q e b)
        | inr h2 ↦ elim (Bool-cases (c == 59)) [
          | inl h3 ↦ rw (h1, h2, h3) (scan_semi-Went s c q e b)
          | inr h3 ↦ rw (h1, h2, h3) (scan_single-Went s c q e b)
        ]
      ]
    ]

    scan_lexeme-Went : Went n s (scan_lexeme s c q)
    unfolding scan_lexeme
    scan_lexeme-Went = elim (Bool-cases (is_sym c)) [
      | inl h1 ↦ rw h1 (scan_sym-Went s c q e b h1)
      | inr h1 ↦ elim (Bool-cases (c == 95)) [
        | inl h2 ↦ rw (h1, h2) (scan_underscore-Went s c q e b (ground arith))
        | inr h2 ↦ elim (Bool-cases (is_lower c || is_upper c)) [
          | inl h3 ↦ rw (h1, h2, h3) (scan_ident-Went s c q e b (ground arith))
          | inr h3 ↦ elim (Bool-cases (is_digit c)) [
            | inl h4 ↦ rw (h1, h2, h3, h4) (scan_int-Went s c q e b h4)
            | inr h4 ↦ rw (h1, h2, h3, h4) (scan_mark-Went)
          ]
        ]
      ]
    ]

    pub scan_round-Went : Went n s (scan_round s c q)
    unfolding scan_round
    scan_round-Went = elim (Bool-cases (c == 32 || c == 10 || c == 13)) [
      | inl h1 ↦ rw h1 (moved-Went small b (over s c q e b))
      | inr h1 ↦ elim (Bool-cases (c == 9)) [
        | inl h2 ↦ rw (h1, h2) (scan_tab-Went s c q e b)
        | inr h2 ↦ elim (Bool-cases (c == 123 && starts_with (λ d. d == 45) q)) [
          | inl h3 ↦ rw (h1, h2, h3) (comment-Went s c q e b h3)
          | inr h3 ↦ rw (h1, h2, h3) scan_lexeme-Went
        ]
      ]
    ]
