-- ===== src/Fixity/Checks.antt =====
-- grammar/c/wok_resolve.c: the circles of the order, and the chains that no order settles.
-- A message is here without the declared order that `diag_fixity` puts behind it, and a list of names in
-- it is not cut in the middle of a name.
use wokml.Prelude.{
  ℕ, zero, suc, ◌+◌, Bool, true, false, not, ◌&&◌, ◌||◌, Option, none, some, List, [], ◌∷◌, ◌++◌,
  ltb, leb, ◌==◌, if◌then◌else◌, length, get_or, ◌>>=◌,
}
use wokml.Ast.{WokSpan}
use wokml.Diag.{WokDiagSink, diag_add, e_fixity, message}
use wokml.Diag.Position.{position}
use wokml.Reorder.{WokFixOp, WokFixTable}
use wokml.Fixity.{u32_max, Names, find_entry, nobody}
use wokml.Fixity.Table.{fix_bit}

-- Two operators that reach each other.
abbrev pub mutual_bits : WokFixTable → (i j : ℕ) → Bool
mutual_bits t i j = fix_bit t i j && fix_bit t j i

-- The first member of a circle speaks for it: none of the `left` operators before it is in its circle.
unfoldable pub speaks : WokFixTable → (i left : ℕ) → Bool
speaks t i zero = true
speaks t i (suc j) = not (fix_bit t j j && mutual_bits t i j) && speaks t i j

-- The members of the circle of `i` that are listed, from operator `j` on, with `at` bytes of the
-- buffer of 256 used. A name takes its length, its quotes, and a comma if it is not the first.
unfoldable pub ring_from : WokFixTable → (i j at : ℕ) → List WokFixOp → List WokSpan
ring_from t i j at [] = []
ring_from t i j at (op ∷ ops) =
    let skipped = ring_from t i (j + 1) at ops in
    let listed =
      op.name ∷ ring_from t i (j + 1) (at + (if at == 0 then 2 else 4) + op.name.len) ops in
    if not (ltb (at + 2) 256)
    then []
    else if not (j == i) && not (mutual_bits t i j)
    then skipped
    else listed

spans : List WokSpan → List ℕ
spans [] = []
spans (s ∷ ss) = s.len ∷ s.off ∷ spans ss

unfoldable pub report_ring : WokDiagSink → WokSpan → (ring : List WokSpan) → WokDiagSink
unfolding spans
report_ring d name ring =
    if leb (length ring) 1
    then diag_add d e_fixity name.off name.len
        (message "`%.*s` is declared tighter than itself" (name.len ∷ name.off ∷ []))
    else diag_add d e_fixity name.off name.len (
        message "the fixity order is circular through %s, so no operator in it is loosest"
          (spans ring))

-- The operators at which `check_fixity_cycles` reports, `left` operators from operator `i` on.
unfoldable pub spokesmen : WokFixTable → (left i : ℕ) → List ℕ
spokesmen t zero i = []
spokesmen t (suc left) i =
    let rest = spokesmen t left (i + 1) in if fix_bit t i i && speaks t i i then i ∷ rest else rest

unfoldable pub report_rings : WokFixTable → List ℕ → WokDiagSink → WokDiagSink
report_rings t [] d = d
report_rings t (i ∷ is) d =
    report_rings t is (report_ring d (get_or t.ops i nobody).name (ring_from t i 0 0 t.ops))

unfoldable pub check_fixity_cycles : WokFixTable → WokDiagSink → WokDiagSink
check_fixity_cycles t d = report_rings t (spokesmen t (length t.ops) 0) d

-- An occurrence of an operator in a chain, with its place in the table or `UINT32_MAX`.
pub record Occurrence : Type 0 where
  pub name : WokSpan
  pub place : ℕ

-- The lookups of `check_chain`, which change nothing, made once for each occurrence.
unfoldable pub occurrences : (src : List ℕ) → Names → List WokSpan → Option (List Occurrence)
occurrences src st [] = some []
occurrences src st (name ∷ names) = do
  at ← find_entry src st name
  rest ← occurrences src st names
  some ((record { name = name; place = at }) ∷ rest)

-- Whether an occurrence between two others is looser than both, or unknown.
unfoldable pub shielded : WokFixTable → (a b : ℕ) → (between : List Occurrence) → Bool
shielded t a b [] = false
shielded t a b (o ∷ os) =
    (o.place == u32_max || (fix_bit t a o.place && fix_bit t b o.place)) || shielded t a b os

-- Two occurrences that the check lets stand, with what stands between them.
unfoldable pub licensed : WokFixTable → (a b : ℕ) → (between : List Occurrence) → Bool
licensed t a b between =
    b == u32_max || a == b || (fix_bit t a b || fix_bit t b a) || shielded t a b between

-- The inner loop of `check_chain`: the first later occurrence that is not let stand.
unfoldable pub unlicensed_with :
    WokFixTable → (a : ℕ) → (between later : List Occurrence) → Option WokSpan
unlicensed_with t a between [] = none
unlicensed_with t a between (o ∷ os) =
    let rest = unlicensed_with t a (between ++ o ∷ []) os in
    if licensed t a o.place between then rest else some o.name

-- The outer loop of `check_chain`: the two occurrences that it reports.
unfoldable pub unlicensed : WokFixTable → List Occurrence → Option (WokSpan × WokSpan)
unlicensed t [] = none
unlicensed t (o ∷ os) =
    let rest = unlicensed t os in
    if o.place == u32_max
    then rest
    else elim (unlicensed_with t o.place [] os) [ some late ↦ some (o.name, late) | none ↦ rest ]

unfoldable pub report_pair : WokDiagSink → Option (WokSpan × WokSpan) → WokDiagSink
report_pair d none = d
report_pair d (some (fst, late)) =
    let (fl, fc, d1) = position d fst.off in
    let (sl, sc, d2) = position d1 late.off in
    diag_add d2 e_fixity late.off late.len (
      message
        "`%.*s` (%u:%u) and `%.*s` (%u:%u) have no declared order and nothing looser stands between them: bracket the chain, or relate them with `tighter than`"
        (fst.len ∷ fst.off ∷ fl ∷ fc ∷ late.len ∷ late.off ∷ sl ∷ sc ∷ []))

unfoldable pub check_chain :
    (src : List ℕ) → Names → WokFixTable → List WokSpan → WokDiagSink → Option WokDiagSink
check_chain src st t names d =
    if ltb (length names) 2 || length t.ops == 0
    then some d
    else do os ← occurrences src st names; some (report_pair d (unlicensed t os))
