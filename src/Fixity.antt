-- ===== src/Fixity.antt =====
-- grammar/c/wok_resolve.c: the fixity table of a file.
pub mod Bits
pub mod Table
pub mod Checks
pub mod Matrix
pub mod Closure
pub mod Slots
pub mod Index
pub mod Insert
pub mod Declare
pub mod First
pub mod Known
pub mod OneDecl
pub mod FirstPass
pub mod SecondPass
pub mod Built
pub mod Shield
pub mod Settled
pub mod Standing
pub mod Circles
pub mod Resolved
pub mod Tree
pub mod Tags
pub mod Typed
pub mod Agreement
pub mod Clauses
mod Tests
use Prim.Native.Nat.{◌^◌, bit_or}
use wokml.Prelude.{
  ℕ, zero, suc, ◌+◌, ◌-◌, ◌*◌, ◌/◌, ◌%◌, ◌≡◌, Bool, true, false, not, ◌&&◌, ◌||◌, Option, none,
  some, List, [], ◌∷◌, ◌++◌, ltb, leb, ◌==◌, if◌then◌else◌, length, get_or, set, replicate, take,
  drop, ◌>>=◌, bit_and, bit_xor,
}
use wokml.Ast.{WokSpan}
use wokml.Token.Words.{same_bytes}
use wokml.Diag.{WokDiagSink, diag_add, e_duplicate, e_fixity, message}
use wokml.Diag.Position.{position}
use wokml.Reorder.{WokFixOp, WokFixTable}

-- `UINT32_MAX`: a free slot of the index, no place in a table, or no declaration.
abbrev pub u32_max : ℕ
u32_max = 4294967295

abbrev pub source_text : List ℕ → WokSpan → List ℕ
source_text src s = take s.len (drop s.off src)

unfoldable pub name_eq : (src : List ℕ) → (a b : WokSpan) → Bool
name_eq src a b = a.len == b.len && same_bytes (source_text src a) (source_text src b)

-- The loop of `name_hash`.
unfoldable pub name_hash_from : (h : ℕ) → List ℕ → ℕ
name_hash_from h [] = h
name_hash_from h (b ∷ bs) = name_hash_from (bit_xor h b * 16777619 % 4294967296) bs

unfoldable pub name_hash : (src : List ℕ) → WokSpan → ℕ
name_hash src s = name_hash_from 2166136261 (source_text src s)

pub record NameIdx : Type 0 where
  pub key : List WokSpan
  pub entry : List ℕ
  pub mask : ℕ

abbrev pub no_name : WokSpan
no_name = record { off = 0; len = 0 }

-- The loop of `idx_init`.
unfoldable pub index_cap : (fuel cap want : ℕ) → Option ℕ
index_cap zero cap want = none
index_cap (suc fuel) cap want =
    let more = index_cap fuel (cap * 2 % 4294967296) want in if ltb cap want then more else some cap

unfoldable pub idx_init : (max_entries : ℕ) → Option NameIdx
idx_init max_entries = do
  cap ← index_cap 32 8 (max_entries * 2 % 4294967296)
  some (record { key = replicate cap no_name; entry = replicate cap u32_max; mask = cap - 1 })

abbrev pub entry_at : NameIdx → ℕ → ℕ
entry_at ix k = get_or ix.entry k u32_max

abbrev pub key_at : NameIdx → ℕ → WokSpan
key_at ix k = get_or ix.key k no_name

-- The slot that a probe of the index goes to from slot `k`.
abbrev pub next_slot : NameIdx → ℕ → ℕ
next_slot ix k = bit_and (k + 1) ix.mask

-- The loop of `idx_find`, from slot `k` on.
unfoldable pub probe : (fuel : ℕ) → (src : List ℕ) → NameIdx → WokSpan → (k : ℕ) → Option ℕ
probe zero src ix name k = none
probe (suc fuel) src ix name k =
    let rest = probe fuel src ix name (next_slot ix k) in
    if entry_at ix k == u32_max
    then some u32_max
    else if name_eq src (key_at ix k) name
    then some (entry_at ix k)
    else rest

abbrev pub first_slot : (src : List ℕ) → NameIdx → WokSpan → ℕ
first_slot src ix name = bit_and (name_hash src name) ix.mask

unfoldable pub idx_find : (src : List ℕ) → NameIdx → WokSpan → Option ℕ
idx_find src ix name = probe (ix.mask + 1) src ix name (first_slot src ix name)

-- The loop of `idx_add`, from slot `k` on.
unfoldable pub claim : (fuel : ℕ) → NameIdx → (k : ℕ) → Option ℕ
claim zero ix k = none
claim (suc fuel) ix k =
    let rest = claim fuel ix (next_slot ix k) in if entry_at ix k == u32_max then some k else rest

unfoldable pub idx_add : (src : List ℕ) → NameIdx → WokSpan → (entry : ℕ) → Option NameIdx
idx_add src ix name e = do
  k ← claim (ix.mask + 1) ix (first_slot src ix name)
  some (record ix { key = set ix.key k name; entry = set ix.entry k e })

-- The operators that the file names, with their index.
pub record Names : Type 0 where
  pub ops : List WokFixOp
  pub idx : NameIdx

-- `fix_find`.
unfoldable pub find_entry : (src : List ℕ) → Names → WokSpan → Option ℕ
find_entry src st name = if length st.ops == 0 then some u32_max else idx_find src st.idx name

-- `H_FixRel` and `D_Fixity`, as their accessors read them.
pub record FixRel : Type 0 where
  pub name : WokSpan
  pub sense : ℕ

pub record FixityDecl : Type 0 where
  pub name : WokSpan
  pub assoc : ℕ
  pub rels : List FixRel

abbrev pub nobody : WokFixOp
nobody = record { name = no_name; assoc = 0; decl_off = u32_max }

abbrev pub op_at : Names → ℕ → WokFixOp
op_at st i = get_or st.ops i nobody

-- A new operator, behind the others.
unfoldable pub append_op : (src : List ℕ) → Names → WokFixOp → Option Names
append_op src st op = do
  idx ← idx_add src st.idx op.name (length st.ops)
  some (record { ops = st.ops ++ op ∷ []; idx = idx })

abbrev pub neighbour : WokSpan → WokFixOp
neighbour name = record { name = name; assoc = 0; decl_off = u32_max }

abbrev pub head_op : FixityDecl → WokFixOp
head_op decl = record { name = decl.name; assoc = decl.assoc; decl_off = decl.name.off }

-- A name that stands in no table yet is appended.
unfoldable pub ensure_op : (src : List ℕ) → Names → WokFixOp → (at : ℕ) → Option Names
ensure_op src st op at = if at == u32_max then append_op src st op else some st

unfoldable pub declare_neighbours : (src : List ℕ) → Names → List FixRel → Option Names
declare_neighbours src st [] = some st
declare_neighbours src st (r ∷ rs) = do
  at ← find_entry src st r.name
  st1 ← ensure_op src st (neighbour r.name) at
  declare_neighbours src st1 rs

abbrev pub diag_redeclared : WokDiagSink → WokSpan → (off : ℕ) → WokDiagSink
diag_redeclared d name off =
    let (line, col, d1) = position d off in
    diag_add d1 e_duplicate name.off name.len (
      message "operator `%.*s` already has a fixity at %u:%u"
        (name.len ∷ name.off ∷ line ∷ col ∷ []))

-- The associativity and the place of a declaration, for a name that stood as a neighbour.
unfoldable pub promote : Names → (at : ℕ) → FixityDecl → Names
promote st at decl = record st {
  ops =
      set st.ops at
        (record { name = (op_at st at).name; assoc = decl.assoc; decl_off = decl.name.off });
}

unfoldable pub declare_head : (src : List ℕ) → Names → FixityDecl → (at : ℕ) → Option Names
declare_head src st decl at =
    if at == u32_max then append_op src st (head_op decl) else some (promote st at decl)

unfoldable pub redeclared : Names → (at : ℕ) → Bool
redeclared st at = not (at == u32_max) && not ((op_at st at).decl_off == u32_max)

-- One declaration, redeclared or not, and those that follow.
unfoldable pub declare_decl :
    (next : Names → WokDiagSink → Option (Names × WokDiagSink))
    → (src : List ℕ) → Names
    → FixityDecl
    → WokDiagSink
    → (at : ℕ) → Bool
    → Option (Names × WokDiagSink)
declare_decl next src st decl d at true =
    next st (diag_redeclared d decl.name (op_at st at).decl_off)
declare_decl next src st decl d at false = do
  st1 ← declare_head src st decl at
  st2 ← declare_neighbours src st1 decl.rels
  next st2 d

-- The first pass of `build_fixity`.
unfoldable pub declare_all :
    (src : List ℕ) → List FixityDecl → Names → WokDiagSink → Option (Names × WokDiagSink)
declare_all src [] st d = some (st, d)
declare_all src (decl ∷ decls) st d = do
  at ← find_entry src st decl.name
  declare_decl (declare_all src decls) src st decl d at (redeclared st at)
