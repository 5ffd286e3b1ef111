-- ===== src/Layout/Stream.antt =====
-- What the filter emits: balanced INDENT and DEDENT with increasing columns, no empty region, and
-- the end of the file last.
use wokml.Prelude.{ℕ, ◌+◌, ◌≡◌, ◌≤◌, ◌<◌, false, true, Bool, ◌&&◌, not, List, [], ◌∷◌, length}
use wokml.Token.{
  WokKind, WokToken, wt_newline, wt_indent, wt_dedent, kind_is_eof, kind_is_indent, kind_is_dedent,
  kind_is_newline,
}
use wokml.Layout.{top_col, max_depth}

-- A kind that the scanner emits before the end.
abbrev pub is_plain : WokKind → Bool
is_plain k =
    not (kind_is_eof k)
    && not (kind_is_indent k)
    && not (kind_is_dedent k)
    && not (kind_is_newline k)

-- What `wok_scan` delivers: plain tokens at columns from 1 on, then the end of the file.
abbrev pub IsScanned : List WokToken → Type 0
IsScanned [] = ⊥
IsScanned (t ∷ []) = kind_is_eof t.kind ≡ true
IsScanned (t ∷ u ∷ ts) = (is_plain t.kind ≡ true) × (1 ≤ t.col) × IsScanned (u ∷ ts)

abbrev pub NotDedent : List WokToken → Type 0
NotDedent [] = Unit
NotDedent (t ∷ ts) = kind_is_dedent t.kind ≡ false

-- The tokens from a place where the open columns are `s`, the innermost first, to the end.
pub data Stream : List ℕ → List WokToken → Type 0 where
  finish : {t : WokToken} → kind_is_eof t.kind ≡ true → Stream [] (t ∷ [])
  plain :
      {s : List ℕ} {t : WokToken} {ts : List WokToken}
      → is_plain t.kind ≡ true
      → Stream s ts
      → Stream s (t ∷ ts)
  newline :
      {s : List ℕ} {t : WokToken} {ts : List WokToken}
      → t.kind ≡ wt_newline
      → Stream s ts
      → Stream s (t ∷ ts)
  indent :
      {s : List ℕ} {t : WokToken} {ts : List WokToken}
      → t.kind ≡ wt_indent
      → top_col s < t.col
      → length s + 1 < max_depth
      → NotDedent ts
      → Stream (t.col ∷ s) ts
      → Stream s (t ∷ ts)
  dedent :
      {c : ℕ} {s : List ℕ} {t : WokToken} {ts : List WokToken}
      → t.kind ≡ wt_dedent
      → Stream s ts
      → Stream (c ∷ s) (t ∷ ts)
