-- ===== src/Lexer/Scanned.antt =====
-- The scanner as a whole: it ends, and delivers what the layout filter relies on.
use mathlib.Core.Option.{some-injective}
use wokml.Prelude.{
  ℕ, zero, suc, ◌+◌, ◌*◌, ◌≡◌, ◌≤◌, ◌<◌, refl, sym, ap, ◌∙◌, subst, true, false, Option, none, some,
  List, [], ◌∷◌, ◌++◌, length, append_assoc, arith, ◌>>=◌,
}
use wokml.Utf8.{Bytes}
use wokml.Token.{WokToken, kind_is_eof}
use wokml.Diag.{WokDiagSink}
use wokml.Layout.{Filter, layout}
use wokml.Layout.Stream.{is_plain, IsScanned}
use wokml.Layout.Check.{layout_check}
use wokml.Layout.Check.Passes.{line_count, layout-some}
use wokml.Lexer.{Scanner, emit, validate_source}
use wokml.Lexer.Main.{scan, scan_loop, scan_at, end_scan, initial_scanner}
use wokml.Lexer.Ahead.{u32-small}
use wokml.Lexer.Rounds.{Emitted, none_yet, one_more, Between, Went, went}
use wokml.Lexer.Lexemes.{scan_round-Went}

-- The loop has reached the end of the source.
data Ended (n : ℕ) : Option Scanner → Type 0 where
  at_end : {t : Scanner} → Between n t → t.rest ≡ [] → Ended n (some t)

module _ {n : ℕ} (small : n + 1 < 4294967296) where
  bind-Ended :
      {s : Scanner} {r : Option Scanner} (rec : Scanner → Option Scanner)
      → Went n s r
      → ((t : Scanner) → Between n t → s.i < t.i → Ended n (rec t))
      → Ended n (r >>= rec)
  bind-Ended rec (went {t} b lt) next = next t b lt

  scan_at-Ended :
      (rec : Scanner → Option Scanner) (s : Scanner) (p : Bytes)
      → s.rest ≡ p
      → Between n s
      → ((t : Scanner) → Between n t → s.i < t.i → Ended n (rec t))
      → Ended n (scan_at rec s p)
  unfolding scan_at
  scan_at-Ended rec s [] e b next = at_end b e
  scan_at-Ended rec s (c ∷ q) e b next = bind-Ended rec (scan_round-Went small s c q e b) next

  scan_loop-Ended :
      (fuel : ℕ) (s : Scanner) → length s.rest < fuel → Between n s → Ended n (scan_loop fuel s)
  unfolding scan_loop
  scan_loop-Ended zero s h b = absurd (omega arith)
  scan_loop-Ended (suc fuel) s h b =
      scan_at-Ended (scan_loop fuel) s s.rest refl b
        (λ t d lt. scan_loop-Ended fuel t (omega (arith, b.ahead.here, d.ahead.here)) d)

-- Tokens one behind the other from `lo` to `hi`, none of them empty.
abbrev pub Apart : (lo hi : ℕ) → List WokToken → Type 0
Apart lo hi [] = lo ≤ hi
Apart lo hi (t ∷ ts) = (lo ≤ t.off) × (0 < t.len) × Apart (t.off + t.len) hi ts

Apart-append :
    (lo : ℕ) {e hi : ℕ} (ts : List WokToken) (t : WokToken)
    → Apart lo e ts
    → e ≤ t.off
    → 0 < t.len
    → t.off + t.len ≤ hi
    → Apart lo hi (ts ++ t ∷ [])
Apart-append lo [] t h a b c = (omega arith, b, c)
Apart-append lo (u ∷ ts) t h a b c = (h.0, h.1, Apart-append (u.off + u.len) ts t h.2 a b c)

Emitted-Apart : {e : ℕ} {ts : List WokToken} → Emitted e ts → Apart 0 e ts
Emitted-Apart none_yet = omega arith
Emitted-Apart (one_more {ts = ts} t m a b c d f) = Apart-append 0 ts t (Emitted-Apart m) a b c

-- A plain token in front of scanned ones.
IsScanned-cons :
    (t : WokToken) (ts : List WokToken)
    → is_plain t.kind ≡ true
    → 1 ≤ t.col
    → IsScanned ts
    → IsScanned (t ∷ ts)
IsScanned-cons t [] p c h = absurd h
IsScanned-cons t (u ∷ ts) p c h = (p, c, h)

Emitted-IsScanned :
    {e : ℕ} {ts : List WokToken}
    → Emitted e ts
    → (rest : List WokToken) → IsScanned rest
    → IsScanned (ts ++ rest)
Emitted-IsScanned none_yet rest h = h
Emitted-IsScanned (one_more {ts = ts} t m a b c d f) rest h =
    subst IsScanned (sym (append_assoc ts (t ∷ []) rest))
      (Emitted-IsScanned m (t ∷ rest) (IsScanned-cons t rest d f h))

-- The source of `n` bytes is cut up: tokens one behind the other, and the end of the file at its
-- end.
pub record Scanned (n : ℕ) (ts : List WokToken) : Type 0 where
  pub body : List WokToken
  pub end : WokToken
  pub splits : ts ≡ body ++ end ∷ []
  pub apart : Apart 0 n body
  pub end_off : end.off ≡ n
  pub scanned : IsScanned ts

end_scan-Scanned :
    {n : ℕ} (s : Scanner)
    → n + 1 < 4294967296
    → Between n s
    → s.rest ≡ []
    → Scanned n (end_scan s).tok
unfolding end_scan emit kind_is_eof
end_scan-Scanned {n} s small b e =
    let at_n : s.i ≡ n = omega (arith, b.ahead.here, ap length e) in
    record {
      body = s.tok;
      end = _;
      splits = refl;
      apart = subst (λ h. Apart 0 h s.tok) at_n (Emitted-Apart b.emitted);
      end_off = u32-small s.i (omega arith) ∙ at_n;
      scanned = Emitted-IsScanned b.emitted _ refl;
    }

Ended-Scanned :
    {n : ℕ} {r : Option Scanner}
    → n + 1 < 4294967296
    → Ended n r
    → (s : Scanner) × (r >>= (λ t. some (end_scan t)) ≡ some s) × Scanned n s.tok
Ended-Scanned small (at_end {t} b e) = (end_scan t, refl, end_scan-Scanned t small b e)

-- `wok_scan` ends on every source of less than 4 GiB, whatever its bytes are: its tokens are not
-- empty, lie one behind the other within the source and carry no layout kind, their columns are
-- positive, and the end of the file follows them, at the end of the source.
pub scan-Scanned :
    (src : Bytes) (d : WokDiagSink)
    → length src + 1 < 4294967296
    → (s : Scanner) × (scan src d ≡ some s) × Scanned (length src) s.tok
unfolding scan
scan-Scanned src d small =
    let sink = validate_source (suc (length src)) 0 src d in
    Ended-Scanned small (
      scan_loop-Ended small (suc (length src)) (initial_scanner src sink) (omega arith) (record {
        ahead = record {
          here = omega arith;
          col_pos = omega arith;
          col_le = omega arith;
          keeps = refl;
          far = omega arith;
        };
        emitted = none_yet;
      }))

-- The scanner and the layout filter together: on every source of less than 4 GiB of whose tokens at
-- most two in three, and 23 more, open a line, `wok_layout` delivers a stream for what `wok_scan` delivers, and
-- `wok_layout_check` passes it.
pub scan-layout :
    (src : Bytes) (d : WokDiagSink) {s : Scanner}
    → length src + 1 < 4294967296
    → scan src d ≡ some s
    → 3 * line_count s.tok ≤ 2 * length s.tok + 71
    → (g : Filter) × (layout s.tok s.diag ≡ some g)
      × (layout_check g.out (length s.tok) false ≡ none)
scan-layout src d {s} small e lines =
    let (t, k, z) = scan-Scanned src d small in
    let same : t ≡ s = some-injective _ _ (sym k ∙ e) in
    layout-some s.tok s.diag (subst (λ (u : Scanner). IsScanned u.tok) same z.scanned) lines
