-- ===== src/Fixity/Table.antt =====
-- grammar/c/wok_resolve.c: the bits of the table, their closure, and the table of a file.
use Prim.Native.Nat.{◌^◌, bit_or}
use wokml.Prelude.{
  ℕ, zero, suc, ◌+◌, ◌*◌, ◌/◌, ◌%◌, Bool, true, false, not, ◌&&◌, Option, some, List, [], ◌∷◌, ◌==◌,
  if◌then◌else◌, length, get_or, set, replicate, ◌>>=◌,
}
use wokml.Diag.{WokDiagSink}
use wokml.Reorder.{WokFixOp, WokFixTable}
use wokml.Fixity.{u32_max, idx_init, Names, find_entry, FixRel, FixityDecl, op_at, declare_all}

unfoldable pub fix_bit : WokFixTable → (i j : ℕ) → Bool
fix_bit t i j = not (get_or t.edge (i * t.words + j / 64) 0 / 2 ^ (j % 64) % 2 == 0)

unfoldable pub fix_set : WokFixTable → (i j : ℕ) → WokFixTable
fix_set t i j =
    let w = i * t.words + j / 64 in
    record t { edge = set t.edge w (bit_or (get_or t.edge w 0) (2 ^ (j % 64))) }

-- `fix_is_winner`, with the place of the head.
unfoldable pub fix_is_winner : (src : List ℕ) → Names → FixityDecl → Option (ℕ × Bool)
fix_is_winner src st decl = do
  head ← find_entry src st decl.name
  some (head, not (head == u32_max) && (op_at st head).decl_off == decl.name.off)

abbrev pub fixrel_tighter : ℕ
fixrel_tighter = 0

-- One relation of a winning declaration.
unfoldable pub add_edge : WokFixTable → (head nb sense : ℕ) → WokFixTable
add_edge t head nb sense =
    if nb == u32_max
    then t
    else if sense == fixrel_tighter
    then fix_set t head nb
    else fix_set t nb head

unfoldable pub add_rels :
    (src : List ℕ) → Names → WokFixTable → (head : ℕ) → List FixRel → Option WokFixTable
add_rels src st t head [] = some t
add_rels src st t head (r ∷ rs) = do
  nb ← find_entry src st r.name
  add_rels src st (add_edge t head nb r.sense) head rs

unfoldable pub add_decl :
    (src : List ℕ) → Names → WokFixTable → List FixRel → ℕ × Bool → Option WokFixTable
add_decl src st t rels (head, true) = add_rels src st t head rels
add_decl src st t rels (head, false) = some t

-- The second pass of `build_fixity`.
unfoldable pub add_edges :
    (src : List ℕ) → Names → WokFixTable → List FixityDecl → Option WokFixTable
add_edges src st t [] = some t
add_edges src st t (decl ∷ decls) = do
  winner ← fix_is_winner src st decl
  t1 ← add_decl src st t decl.rels winner
  add_edges src st t1 decls

-- Row `i` takes the bits of row `k`, over `left` words from word `w` on.
unfoldable pub or_row : (left w words i k : ℕ) → List ℕ → List ℕ
or_row zero w words i k edge = edge
or_row (suc left) w words i k edge = or_row left (w + 1) words i k (
    set edge (i * words + w)
      (bit_or (get_or edge (i * words + w) 0) (get_or edge (k * words + w) 0)))

unfoldable pub close_row : WokFixTable → (i k : ℕ) → WokFixTable
close_row t i k =
    if fix_bit t i k then record t { edge = or_row t.words 0 t.words i k t.edge } else t

-- The rows from `i` on, `left` of them, in round `k` of the closure.
unfoldable pub close_rows : (left i k : ℕ) → WokFixTable → WokFixTable
close_rows zero i k t = t
close_rows (suc left) i k t = close_rows left (i + 1) k (close_row t i k)

-- The rounds from `k` on, `left` of them.
unfoldable pub close_rounds : (left k : ℕ) → WokFixTable → WokFixTable
close_rounds zero k t = t
close_rounds (suc left) k t = close_rounds left (k + 1) (close_rows (length t.ops) 0 k t)

unfoldable pub warshall : WokFixTable → WokFixTable
warshall t = close_rounds (length t.ops) 0 t

-- The operators that the declarations name at most.
unfoldable pub count_names : List FixityDecl → ℕ
count_names [] = 0
count_names (decl ∷ decls) = (1 + length decl.rels) + count_names decls

abbrev pub bare_table : List WokFixOp → WokFixTable
bare_table ops =
    let words = (length ops + 63) / 64 in
    record { ops = ops; edge = replicate (length ops * words) 0; words = words }

-- What `build_fixity` leaves: the table, the names with their index, and the sink.
pub record Built : Type 0 where
  pub table : WokFixTable
  pub names : Names
  pub sink : WokDiagSink

abbrev pub no_names : Names
no_names = record { ops = []; idx = record { key = []; entry = []; mask = 0 } }

-- `build_fixity` once it has found a declaration.
unfoldable pub build_declared :
    (src : List ℕ) → List FixityDecl → WokDiagSink → (cap : ℕ) → Option Built
build_declared src decls d cap = do
  idx ← idx_init cap
  (st, d1) ← declare_all src decls (record { ops = []; idx = idx }) d
  t ← add_edges src st (bare_table st.ops) decls
  some (record { table = warshall t; names = st; sink = d1 })

unfoldable pub build_fixity : (src : List ℕ) → List FixityDecl → WokDiagSink → Option Built
build_fixity src decls d =
    if count_names decls == 0
    then some
        (record { table = record { ops = []; edge = []; words = 0 }; names = no_names; sink = d })
    else build_declared src decls d (count_names decls)
