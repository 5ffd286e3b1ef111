-- ===== src/Ast.antt =====
-- grammar/c/wok_ast.h: the syntax tree. A slot carries the member of its union that the class of its
-- field selects; a sequence holds its nodes.
pub mod Schema
use wokml.Prelude.{ℕ, Bool, true, false, ◌≡◌, ◌≢◌, List, [], ◌∷◌}
use wokml.Ast.Schema.{
  WokTag, WokFamily, WokFieldDesc, WokFieldClass, node_field, opt_field, seq_field, name_field,
  text_field, int_field, flag_field, family_of, fields_of, family_accepts, fam_error,
}

pub record WokSpan : Type 0 where
  pub off : ℕ
  pub len : ℕ

mutual
  pub data WokNode : Type 0 where
    node : (tag : WokTag) (off len trivia : ℕ) → WokSlots → WokNode

  pub data WokSlots : Type 0 where
    no_slots : WokSlots
    slot : WokSlot → WokSlots → WokSlots

  pub data WokSlot : Type 0 where
    of_node : WokNode → WokSlot
    null : WokSlot
    of_seq : WokSeq → WokSlot
    of_span : WokSpan → WokSlot
    of_num : ℕ → WokSlot
    of_flag : Bool → WokSlot

  pub data WokSeq : Type 0 where
    empty : WokSeq
    item : WokNode → WokSeq → WokSeq

abbrev pub tag_of : WokNode → WokTag
tag_of (node tag off len trivia slots) = tag

abbrev pub off_of : WokNode → ℕ
off_of (node tag off len trivia slots) = off

abbrev pub len_of : WokNode → ℕ
len_of (node tag off len trivia slots) = len

-- A node of this kind is a child that a field accepts, and no mark of damage.
abbrev pub Child : WokFamily → WokTag → Type 0
Child want tag = (family_accepts want (family_of tag) ≡ true) × (family_of tag ≢ fam_error)

-- What the schema says of a tree without damage, as a clean parse builds it: each slot holds what the
-- class of its field selects, and a child is of a family that its field accepts.
unfoldable mutual
  pub WellTyped : WokNode → Type 0
  WellTyped (node tag off len trivia slots) = SlotsFit (fields_of tag) slots

  pub SlotsFit : List WokFieldDesc → WokSlots → Type 0
  SlotsFit [] no_slots = Unit
  SlotsFit (f ∷ fs) (slot s ss) = SlotFits f.cls f.family s × SlotsFit fs ss
  SlotsFit _ _ = ⊥

  pub SlotFits : WokFieldClass → WokFamily → WokSlot → Type 0
  SlotFits node_field want (of_node n) = Child want (tag_of n) × WellTyped n
  SlotFits opt_field want (of_node n) = Child want (tag_of n) × WellTyped n
  SlotFits opt_field want null = Unit
  SlotFits seq_field want (of_seq q) = SeqFits want q
  SlotFits name_field want (of_span s) = Unit
  SlotFits text_field want (of_span s) = Unit
  SlotFits int_field want (of_num n) = Unit
  SlotFits flag_field want (of_flag b) = Unit
  SlotFits _ _ _ = ⊥

  pub SeqFits : WokFamily → WokSeq → Type 0
  SeqFits want empty = Unit
  SeqFits want (item n q) = (Child want (tag_of n) × WellTyped n) × SeqFits want q
