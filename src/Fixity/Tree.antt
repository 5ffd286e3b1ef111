-- ===== src/Fixity/Tree.antt =====
-- grammar/c/wok_resolve.c and grammar/c/wok_ast.h: the fixity declarations of a file, as the accessors
-- of their nodes read them. `none` is a read of a slot as another member of its union.
use wokml.Prelude.{ℕ, Bool, true, false, Option, none, some, List, [], ◌∷◌, ◌>>=◌}
use wokml.Ast.{
  WokNode, node, WokSlots, no_slots, slot, of_seq, of_span, of_num, of_flag, WokSeq, empty, item,
}
use wokml.Ast.Schema.{WokTag, d_fixity}
use wokml.Diag.{WokDiagSink}
use wokml.Fixity.{FixRel, FixityDecl}
use wokml.Fixity.Table.{Built, build_fixity}

-- `H_FixRel_sense` and `H_FixRel_name`
unfoldable pub rel_slots : WokSlots → Option FixRel
rel_slots (slot (of_num sense) (slot (of_span name) (slot (of_flag alpha) no_slots))) =
    some (record { name = name; sense = sense })
rel_slots _ = none

unfoldable pub fix_rel : WokNode → Option FixRel
fix_rel (node tag off len trivia slots) = rel_slots slots

unfoldable pub fix_rels : WokSeq → Option (List FixRel)
fix_rels empty = some []
fix_rels (item n ns) = do r ← fix_rel n; rs ← fix_rels ns; some (r ∷ rs)

-- `D_Fixity_name`, `D_Fixity_assoc` and `D_Fixity_rels`
unfoldable pub decl_slots : WokSlots → Option FixityDecl
decl_slots
      (slot
        (of_span name)
        (slot (of_flag alpha) (slot (of_num assoc) (slot (of_seq rels) no_slots)))) =
    do rs ← fix_rels rels; some (record { name = name; assoc = assoc; rels = rs })
decl_slots _ = none

unfoldable pub is_fixity : WokTag → Bool
is_fixity d_fixity = true
is_fixity _ = false

-- A declaration, and those that follow it; one of another kind is passed over.
unfoldable pub add_fixity :
    Bool → Option FixityDecl → Option (List FixityDecl) → Option (List FixityDecl)
add_fixity false decl later = later
add_fixity true decl later = do d ← decl; ds ← later; some (d ∷ ds)

unfoldable pub fixity_decls : WokSeq → Option (List FixityDecl)
fixity_decls empty = some []
fixity_decls (item (node tag off len trivia slots) ns) =
    add_fixity (is_fixity tag) (decl_slots slots) (fixity_decls ns)

-- `W_File_decls`
unfoldable pub file_decls : WokSlots → Option WokSeq
file_decls (slot (of_seq decls) no_slots) = some decls
file_decls _ = none

-- What `build_fixity` reads of the tree of a file.
unfoldable pub file_fixity : (file : WokNode) → Option (List FixityDecl)
file_fixity (node tag off len trivia slots) = do decls ← file_decls slots; fixity_decls decls

unfoldable pub build_fixity_file : (src : List ℕ) → (file : WokNode) → WokDiagSink → Option Built
build_fixity_file src file d = do decls ← file_fixity file; build_fixity src decls d
