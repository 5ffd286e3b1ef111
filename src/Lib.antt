-- ===== src/Lib.antt =====
-- The C part of Wok: the front end under grammar/c and the runtime under runtime.
--
-- A source file is bytes, which wok_utf8 validates; the scanner of wok_token makes them tokens, and
-- the layout filter of wok_layout adds NEWLINE, INDENT and DEDENT before the parser reads them.
-- Faults of every stage go to the diagnostic sink of wok_diag. The runtime validates the strings of
-- a running program with a validator of its own.
--
--   Prelude        what the modules share: Boolean tests, Option, lists and lemmas about them.
--   Utf8           grammar/c/wok_utf8.c and runtime/wok_utf8.c: the DFA table, `wok_utf8_seq_len`,
--                  `wok_utf8_find_invalid`, `wok_utf8_truncate` and `wok_validate_utf8`. Utf8.Spec
--                  is table 3-7 of the Unicode standard.
--   Token          grammar/c/wok_token.h: kinds, words, tokens, brackets and continuation leads.
--                  Token.Words and Token.Classes are the word table, the reserved operators and
--                  the character classes of grammar/c/wok_token.c.
--   Lexer          grammar/c/wok_token.c: the state of the scanner, comments and literals;
--                  Lexer.Main is the loop of `wok_scan`, Lexer.IntValue
--                  `wok_token_int_value`.
--   Ast            grammar/c/wok_ast.h: the syntax tree; Ast.Schema is its schema, the kinds of nodes
--                  with their families and fields.
--   Diag           grammar/c/wok_diag.c: the sink, and what it records or drops; Diag.Position is the
--                  line table with `wok_diag_position`.
--   Layout         grammar/c/wok_layout.c: `wok_layout`, each rule a function, with the loop over the
--                  tokens. Layout.Check is `wok_layout_check`. Layout.Stream describes what the
--                  scanner delivers and what the filter emits.
--   Rc             runtime/wok_rc.c: the heap of reference-counted cells with slabs, free lists by size
--                  class and arena scopes. Rc.Cells has the allocators of each kind of cell, the counts
--                  and slots; Rc.Arena the arena scopes and the end of a heap. Rc.Owner and Rc.Space
--                  say who owns each address; Rc.Sources, Rc.Grant, Rc.Allocate, Rc.Release and
--                  Rc.Update are what the operations do to that, Rc.Books and Rc.Teardown the
--                  counters, Rc.Slabs and Rc.Scopes the slabs of the scopes, Rc.Reuse an allocation
--                  after a release.
--   Reorder        grammar/c/wok_reorder.c: the pass that nests a flat chain of operators, over the
--                  fixity table of grammar/c/wok_resolve.h. Reorder.Walk is the walk over the tree;
--                  Reorder.Compare, Reorder.Under, Reorder.Loosest and Reorder.Chain are about
--                  one chain, Reorder.Slots and Reorder.Typed about the schema.
--   Fixity         grammar/c/wok_resolve.c: the fixity table of a file, with the index of its names.
--                  Fixity.Table has the bit matrix, its closure and `build_fixity`, Fixity.Checks
--                  `check_fixity_cycles` and `check_chain`. Fixity.Bits, Fixity.Matrix and
--                  Fixity.Closure are about the bits, Fixity.Slots, Fixity.Index and Fixity.Insert
--                  about the index, Fixity.Declare, Fixity.First, Fixity.OneDecl and Fixity.FirstPass
--                  about the first pass, with Fixity.Known, Fixity.SecondPass and Fixity.Built about the rest,
--                  Fixity.Circles about the circles. Fixity.Shield, Fixity.Settled, Fixity.Standing
--                  and Fixity.Resolved put the check of a chain beside the reorder pass. Fixity.Tree
--                  reads the declarations off the tree of a file, Fixity.Tags and Fixity.Typed are
--                  about that. Fixity.Agreement is `check_kind_agreement`, and Fixity.Clauses says
--                  what it asks of every two clauses.
--   Sexpr          grammar/c/wok_sexpr.c: string literals and numbers of the dump of a tree, written and
--                  read; Sexpr.Text and Sexpr.Numbers are about the two.
--   Write          grammar/c/wok_write.c: the hash of a file, its stamp less the times, and
--                  `wok_write_atomic`, over a file system that is a parameter. Write.Files is what is
--                  assumed of it, Write.Swap what a run leaves; Write.Hash is the hash of a byte
--                  array in the heap.
--
-- A slot of a node carries the member of its union, and a read as another member is `none`; the pass
-- tells a rebuilt node from the old one by a flag instead of by its address. `reorder_split` runs on as
-- much fuel as the chain has operators, and every split takes one away, so the fuel does not run out.
--
-- A probe of the name index runs on as much fuel as the index has slots, and the growth of its capacity
-- on 32 rounds, since each doubles it; `none` is a run without fuel, which does not happen. A table is
-- made for at most 2^30 names, so the capacity fits in 32 bits.
--
-- A string literal of a dump is read on one more fuel than there are bytes left, and each round takes
-- one; the 20 digits that a number is dumped in hold every number below 10^20. A reader holds the rest
-- of its text, and its pool the bytes that it has decoded.
--
-- The memory of the heap is a function from addresses to words of 8 bytes; an operation that may call
-- `malloc` takes what it returns as an argument, NULL as 0, and `abort` and a failed `assert` are
-- `none`. The links of the slab lists are lists. The build without `WOK_RC_MALLOC`, `WOK_RC_POISON`
-- and `WOK_RC_CHECK_PHYSICAL` is modelled.
--
-- A pointer into a buffer is the rest of the list; an array in the arena is a list, so allocation is
-- not modelled, nor is the growth of the arrays. The scanner wraps offsets, lengths and columns at 32
-- bits; the filter only compares and copies them. `WOK_UNREACHABLE` and a read through a null
-- pointer are `none`. Loops that take more than one byte at a time run on fuel: one more than the
-- length of the buffer, and each round takes at least a byte, so the fuel does not run out; in the
-- scanner a run without fuel is `none`. The binary search runs on as much fuel as the table has
-- entries. The formatted text of a diagnostic is its format string with the numbers that go into
-- it; the buffer of 512 bytes is not modelled.
--
-- Other programs change the files at one point of `wok_write_atomic`, before the last check; between this
-- check and the rename nothing else runs. That leaves out the window that the code says it has.
--
-- Not modelled: the names of the kinds, the renderers of diagnostics, the arena, the walk of a dump
-- over the nodes, the effect table and the other checks of `wok_resolve`, the parser, the printer and
-- the other passes over the tree, the bytes of the strings in the heap and its `malloc` build, what
-- reads files, and the compiler in Haskell.
pub mod Prelude
pub mod Utf8
pub mod Token
pub mod Ast
pub mod Diag
pub mod Lexer
pub mod Layout
pub mod Rc
pub mod Reorder
pub mod Fixity
pub mod Sexpr
pub mod Write
