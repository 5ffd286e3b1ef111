-- ===== src/Fixity/Tests.antt =====
-- Runs of the table on two declarations, with a name that is only a neighbour.
use wokml.Prelude.{
  ℕ, zero, suc, ◌≡◌, ◌≢◌, ◌<◌, ◌↔◌, refl, true, false, none, some, List, [], ◌∷◌, map, All, arith,
}
use wokml.Ast.{WokSpan, WokNode, node, no_slots}
use wokml.Ast.Schema.{e_var}
use wokml.Diag.{diag_new}
use wokml.Token.Words.{same_bytes}
use wokml.Reorder.{WokFixOp, WokFixTable, Tail, span_eq, find_from}
use wokml.Reorder.Compare.{Known}
use wokml.Reorder.Under.{IsOrder}
use wokml.Fixity.{
  u32_max, no_name, NameIdx, entry_at, key_at, first_slot, neighbour, head_op, FixityDecl, name_eq,
  name_hash, name_hash_from, index_cap, idx_init, probe, idx_find, claim, idx_add, find_entry,
  append_op, ensure_op, declare_neighbours, promote, declare_head, redeclared, declare_decl,
  declare_all,
}
use wokml.Fixity.Table.{
  fix_bit, fix_set, fix_is_winner, add_edge, add_rels, add_decl, add_edges, or_row, close_row,
  close_rows, close_rounds, warshall, count_names, Built, build_declared, build_fixity,
}
use wokml.Fixity.Checks.{spokesmen, unlicensed, unlicensed_with, licensed, report_pair, check_chain}
use wokml.Fixity.Closure.{Reaches, warshall-Reaches}
use wokml.Fixity.Slots.{Leads, stop, count_used}
use wokml.Fixity.Index.{Holds, place, name_at, idx_find-find_from}
use wokml.Fixity.Built.{IsBuilt, build_fixity-IsBuilt}
use wokml.Fixity.Circles.{ReportedOnce, circle-ReportedOnce}
use wokml.Fixity.Agreement.{Clause, passed_over, is_first, differs, first_differing, disagreements}
use wokml.Fixity.Clauses.{Agree, disagreements-iff-Agree}
use wokml.Fixity.Resolved.{over, Fits, chain_fault, Settles, shield_rule, build_fixity-IsOrder}

abbrev span_at : (off len : ℕ) → WokSpan
span_at off len = record { off = off; len = len }

-- `+*^+`
abbrev source : List ℕ
source = 43 ∷ 42 ∷ 94 ∷ 43 ∷ []

abbrev plus : FixityDecl
plus = record {
  name = span_at 0 1;
  assoc = 0;
  rels = record { name = span_at 1 1; sense = 1 } ∷ [];
}

abbrev times : FixityDecl
times = record {
  name = span_at 1 1;
  assoc = 0;
  rels = record { name = span_at 2 1; sense = 1 } ∷ [];
}

abbrev decls : List FixityDecl
decls = plus ∷ times ∷ []

abbrev done : List WokFixOp
done = head_op plus ∷ head_op times ∷ neighbour (span_at 2 1) ∷ []

abbrev slots : NameIdx
slots = record {
  key =
      no_name
      ∷ span_at 2 1
      ∷ span_at 0 1
      ∷ no_name
      ∷ no_name
      ∷ span_at 1 1
      ∷ no_name
      ∷ no_name
      ∷ [];
  entry = u32_max ∷ 2 ∷ 0 ∷ u32_max ∷ u32_max ∷ 1 ∷ u32_max ∷ u32_max ∷ [];
  mask = 7;
}

abbrev built : Built
built = record {
  table = record { ops = done; edge = 0 ∷ 1 ∷ 3 ∷ []; words = 1 };
  names = record { ops = done; idx = slots };
  sink = diag_new source;
}

built_run : build_fixity source decls (diag_new source) ≡ some built
unfolding build_fixity build_declared count_names index_cap idx_init name_eq name_hash
    name_hash_from probe idx_find claim idx_add find_entry append_op ensure_op declare_neighbours
    promote declare_head redeclared declare_decl declare_all fix_bit fix_set fix_is_winner add_edge
    add_rels add_decl add_edges or_row close_row close_rows close_rounds warshall same_bytes
built_run = refl

decls-Fits : Fits decls
unfolding count_names
decls-Fits = (omega arith, omega arith)

quiet : spokesmen built.table 3 0 ≡ []
unfolding spokesmen fix_bit
quiet = refl

leaf : ℕ → WokNode
leaf off = node e_var off 1 0 no_slots

-- `+` before `*`.
abbrev chain : List Tail
chain =
    record { name = span_at 0 1; backtick = false; rhs = leaf 0; fix_idx = 0 }
    ∷ record { name = span_at 1 1; backtick = false; rhs = leaf 1; fix_idx = 1 }
    ∷ []

chain-Known : All (Known (over source built)) chain
unfolding find_from span_eq same_bytes
chain-Known = (refl, (refl, tt))

no_fault : chain_fault built chain ≡ none
unfolding unlicensed unlicensed_with licensed fix_bit
no_fault = refl

shield_rule_example :
    (check_chain source built.names built.table (map (λ t. t.name) chain) (diag_new source)
      ≡ some (report_pair (diag_new source) (chain_fault built chain)))
    × ((chain_fault built chain ≡ none) ↔ Settles source built (leaf 2) chain (diag_new source))
shield_rule_example =
    shield_rule source decls (diag_new source) built decls-Fits built_run quiet (leaf 2) chain
      (diag_new source) chain-Known

build_fixity-IsOrder_example : IsOrder (over source built)
build_fixity-IsOrder_example =
    build_fixity-IsOrder source decls (diag_new source) built decls-Fits built_run quiet

build_fixity-IsBuilt_example :
    (b : Built) × (build_fixity source decls (diag_new source) ≡ some b)
    × IsBuilt (over source built) decls b
build_fixity-IsBuilt_example =
    build_fixity-IsBuilt (over source built) decls (diag_new source) decls-Fits.0 decls-Fits.1

-- The edges as they are declared.
abbrev edges : WokFixTable
edges = record { ops = done; edge = 0 ∷ 1 ∷ 2 ∷ []; words = 1 }

warshall-Reaches_example : (fix_bit (warshall edges) 2 0 ≡ true) ↔ Reaches edges 2 0
warshall-Reaches_example =
    warshall-Reaches edges (record { wide = omega arith; filled = omega arith }) 2 0 (omega arith)
      (omega arith)

-- An index of one name.
abbrev one_name : NameIdx
one_name = record {
  key = no_name ∷ no_name ∷ span_at 0 1 ∷ no_name ∷ no_name ∷ no_name ∷ no_name ∷ no_name ∷ [];
  entry = u32_max ∷ u32_max ∷ 0 ∷ u32_max ∷ u32_max ∷ u32_max ∷ u32_max ∷ u32_max ∷ [];
  mask = 7;
}

abbrev one_op : List WokFixOp
one_op = head_op plus ∷ []

one_name_sound :
    (k : ℕ)
    → k < 8
    → entry_at one_name k ≢ u32_max
    → (entry_at one_name k < 1) × (key_at one_name k ≡ name_at one_op (entry_at one_name k))
one_name_sound zero l n = absurd (n refl)
one_name_sound (suc zero) l n = absurd (n refl)
one_name_sound (suc (suc zero)) l n = (omega arith, refl)
one_name_sound (suc (suc (suc zero))) l n = absurd (n refl)
one_name_sound (suc (suc (suc (suc zero)))) l n = absurd (n refl)
one_name_sound (suc (suc (suc (suc (suc zero))))) l n = absurd (n refl)
one_name_sound (suc (suc (suc (suc (suc (suc zero)))))) l n = absurd (n refl)
one_name_sound (suc (suc (suc (suc (suc (suc (suc zero))))))) l n = absurd (n refl)
one_name_sound (suc (suc (suc (suc (suc (suc (suc (suc k)))))))) l n = absurd (omega arith)

one_name_found :
    (e : ℕ)
    → e < 1
    → (s : ℕ) × (s < 8)
      × (entry_at one_name s ≡ e)
      × Leads one_name s (first_slot source one_name (name_at one_op e))
unfolding name_hash name_hash_from
one_name_found zero l = (2, omega arith, refl, stop)
one_name_found (suc e) l = absurd (omega arith)

one_name-Holds : Holds (over source built) one_name one_op
unfolding count_used
one_name-Holds = record {
  sized = record { power = 3; masked = refl; entries = refl; keys = refl };
  used = refl;
  small = omega arith;
  sound = one_name_sound;
  found = one_name_found;
  distinct = λ i j p q s. omega arith;
}

idx_find-find_from_example :
    idx_find source one_name (span_at 3 1)
    ≡ some (place (find_from (over source built) (span_at 3 1) 0 one_op))
idx_find-find_from_example =
    idx_find-find_from (over source built) one_name one_op one_name-Holds (span_at 3 1)
      (omega arith)

-- `+` and `*` each tighter than the other.
abbrev circular : WokFixTable
circular = record { ops = head_op plus ∷ head_op times ∷ []; edge = 3 ∷ 3 ∷ []; words = 1 }

circular_bit : (i j : ℕ) → i < 2 → j < 2 → fix_bit circular i j ≡ true
unfolding fix_bit
circular_bit zero zero p q = refl
circular_bit zero (suc zero) p q = refl
circular_bit (suc zero) zero p q = refl
circular_bit (suc zero) (suc zero) p q = refl
circular_bit zero (suc (suc j)) p q = absurd (omega arith)
circular_bit (suc zero) (suc (suc j)) p q = absurd (omega arith)
circular_bit (suc (suc i)) j p q = absurd (omega arith)

circle-ReportedOnce_example : ReportedOnce circular 1
circle-ReportedOnce_example =
    circle-ReportedOnce circular 1 (λ i j k p q r h g. circular_bit i k p r) (omega arith)
      (circular_bit 1 1 (omega arith) (omega arith))

-- A plain clause and a control clause of `+`, and a plain one of `*`.
abbrev clauses : List Clause
clauses =
    record { name = span_at 0 1; kind = 0 }
    ∷ record { name = span_at 1 1; kind = 0 }
    ∷ record { name = span_at 3 1; kind = 1 }
    ∷ []

disagreements-iff-Agree_example : (disagreements source [] clauses ≡ []) ↔ Agree source clauses
disagreements-iff-Agree_example = disagreements-iff-Agree source clauses

-- The third clause is reported against the first.
disagreement :
    disagreements source [] clauses
    ≡ (record { name = span_at 3 1; kind = 1 }, record { name = span_at 0 1; kind = 0 }) ∷ []
unfolding disagreements passed_over is_first first_differing differs name_eq same_bytes
disagreement = refl
