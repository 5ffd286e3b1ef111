-- ===== src/Fixity/Typed.antt =====
-- grammar/c/wok_resolve.c and grammar/c/wok_ast.h: a tree that fits the schema has what the fixity table
-- is made of.
use wokml.Prelude.{
  ℕ, ◌≡◌, ◌≤◌, ◌<◌, All, refl, ap, ◌∙◌, subst, Bool, some, List, [], ◌∷◌, ◌>>=◌, Bool-cases, inl,
  inr,
}
use wokml.Ast.{
  WokSpan, node, WokSlots, no_slots, slot, WokSlot, of_node, null, of_seq, of_span, of_num, of_flag,
  WokSeq, empty, item, WellTyped, SlotsFit, SlotFits, SeqFits,
}
use wokml.Ast.Schema.{
  d_fixity, h_fix_rel, w_file, WokFieldDesc, int_field, name_field, flag_field, seq_field,
  WokFamily, fam_fixrel, fam_decl, fields_of,
}
use wokml.Diag.{WokDiagSink}
use wokml.Fixity.{FixRel, FixityDecl}
use wokml.Fixity.Table.{Built, build_fixity}
use wokml.Reorder.{Ro}
use wokml.Fixity.{u32_max}
use wokml.Fixity.Table.{count_names}
use wokml.Fixity.Built.{IsBuilt, build_fixity-IsBuilt}
use wokml.Fixity.Tree.{
  rel_slots, fix_rel, fix_rels, decl_slots, is_fixity, add_fixity, fixity_decls, file_decls,
  file_fixity, build_fixity_file,
}
use wokml.Fixity.Tags.{fix_rel_tag, is_fixity-eq}

-- A slot of each class, and the slots of a node, taken apart.
num_slot : (want : WokFamily) (s : WokSlot) → SlotFits int_field want s → (x : ℕ) × (s ≡ of_num x)
unfolding SlotFits
num_slot want (of_node n) h = elim h [ ]
num_slot want null h = elim h [ ]
num_slot want (of_seq q) h = elim h [ ]
num_slot want (of_span x) h = elim h [ ]
num_slot want (of_num n) h = (n, refl)
num_slot want (of_flag b) h = elim h [ ]

span_slot :
    (want : WokFamily) (s : WokSlot) → SlotFits name_field want s → (x : WokSpan) × (s ≡ of_span x)
unfolding SlotFits
span_slot want (of_node n) h = elim h [ ]
span_slot want null h = elim h [ ]
span_slot want (of_seq q) h = elim h [ ]
span_slot want (of_span x) h = (x, refl)
span_slot want (of_num n) h = elim h [ ]
span_slot want (of_flag b) h = elim h [ ]

flag_slot :
    (want : WokFamily) (s : WokSlot) → SlotFits flag_field want s → (x : Bool) × (s ≡ of_flag x)
unfolding SlotFits
flag_slot want (of_node n) h = elim h [ ]
flag_slot want null h = elim h [ ]
flag_slot want (of_seq q) h = elim h [ ]
flag_slot want (of_span x) h = elim h [ ]
flag_slot want (of_num n) h = elim h [ ]
flag_slot want (of_flag b) h = (b, refl)

seq_slot :
    (want : WokFamily) (s : WokSlot)
    → SlotFits seq_field want s
    → (x : WokSeq) × (s ≡ of_seq x) × SeqFits want x
unfolding SlotFits
seq_slot want (of_node n) h = elim h [ ]
seq_slot want null h = elim h [ ]
seq_slot want (of_seq q) h = (q, refl, h)
seq_slot want (of_span x) h = elim h [ ]
seq_slot want (of_num n) h = elim h [ ]
seq_slot want (of_flag b) h = elim h [ ]

SlotsFit-cons :
    (f : WokFieldDesc) (fs : List WokFieldDesc) (slots : WokSlots)
    → SlotsFit (f ∷ fs) slots
    → (s : WokSlot) × (rest : WokSlots) × (slots ≡ slot s rest)
      × SlotFits f.cls f.family s
      × SlotsFit fs rest
unfolding SlotsFit
SlotsFit-cons f fs no_slots h = elim h [ ]
SlotsFit-cons f fs (slot s rest) (h, g) = (s, rest, refl, h, g)

SlotsFit-none : (slots : WokSlots) → SlotsFit [] slots → slots ≡ no_slots
unfolding SlotsFit
SlotsFit-none no_slots h = refl
SlotsFit-none (slot s rest) h = elim h [ ]

rel_slots-Typed :
    (slots : WokSlots)
    → SlotsFit (fields_of h_fix_rel) slots
    → (r : FixRel) × (rel_slots slots ≡ some r)
unfolding fields_of rel_slots
rel_slots-Typed slots h =
    let (s1, r1, e1, f1, g1) = SlotsFit-cons _ _ slots h in
    let (s2, r2, e2, f2, g2) = SlotsFit-cons _ _ r1 g1 in
    let (s3, r3, e3, f3, g3) = SlotsFit-cons _ _ r2 g2 in
    let (sense, d1) = num_slot _ s1 f1 in
    let (name, d2) = span_slot _ s2 f2 in
    let (alpha, d3) = flag_slot _ s3 f3 in
    let d4 = SlotsFit-none r3 g3 in
    (
      record { name = name; sense = sense },
      ap rel_slots (e1 ∙ ap (slot s1) (e2 ∙ ap (slot s2) (e3 ∙ ap (slot s3) d4)))
          ∙ ap (λ s. rel_slots (slot s (slot s2 (slot s3 no_slots)))) d1
          ∙ ap (λ s. rel_slots (slot (of_num sense) (slot s (slot s3 no_slots)))) d2
          ∙ ap (λ s. rel_slots (slot (of_num sense) (slot (of_span name) (slot s no_slots)))) d3,
    )

fix_rels-Typed : (q : WokSeq) → SeqFits fam_fixrel q → (rs : List FixRel) × (fix_rels q ≡ some rs)
unfolding fix_rels fix_rel SeqFits WellTyped
fix_rels-Typed empty h = ([], refl)
fix_rels-Typed (item (node tag off len trivia slots) q) ((child, typed), hs) =
    let is_rel = fix_rel_tag tag child in
    let (r, e) = rel_slots-Typed slots (subst (λ t. SlotsFit (fields_of t) slots) is_rel typed) in
    let (rs, es) = fix_rels-Typed q hs in (r ∷ rs, rw (e, es) refl)

decl_slots-Typed :
    (slots : WokSlots)
    → SlotsFit (fields_of d_fixity) slots
    → (decl : FixityDecl) × (decl_slots slots ≡ some decl)
unfolding fields_of decl_slots
decl_slots-Typed slots h =
    let (s1, r1, e1, f1, g1) = SlotsFit-cons _ _ slots h in
    let (s2, r2, e2, f2, g2) = SlotsFit-cons _ _ r1 g1 in
    let (s3, r3, e3, f3, g3) = SlotsFit-cons _ _ r2 g2 in
    let (s4, r4, e4, f4, g4) = SlotsFit-cons _ _ r3 g3 in
    let (name, d1) = span_slot _ s1 f1 in
    let (alpha, d2) = flag_slot _ s2 f2 in
    let (assoc, d3) = num_slot _ s3 f3 in
    let (rels, d4, fits) = seq_slot _ s4 f4 in
    let (rs, e) = fix_rels-Typed rels fits in
    let d5 = SlotsFit-none r4 g4 in
    (
      record { name = name; assoc = assoc; rels = rs },
      ap decl_slots
            (e1 ∙ ap (slot s1) (e2 ∙ ap (slot s2) (e3 ∙ ap (slot s3) (e4 ∙ ap (slot s4) d5))))
          ∙ ap (λ s. decl_slots (slot s (slot s2 (slot s3 (slot s4 no_slots))))) d1
          ∙ ap (λ s. decl_slots (slot (of_span name) (slot s (slot s3 (slot s4 no_slots))))) d2
          ∙ ap
              (λ s.
                decl_slots (slot (of_span name) (slot (of_flag alpha) (slot s (slot s4 no_slots)))))
              d3
          ∙ ap
              (λ s. decl_slots (
                slot (of_span name) (slot (of_flag alpha) (slot (of_num assoc) (slot s no_slots)))))
              d4
          ∙ ap (λ o. o >>= λ rs. some (record { name = name; assoc = assoc; rels = rs })) e,
    )

fixity_decls-Typed :
    (q : WokSeq) → SeqFits fam_decl q → (ds : List FixityDecl) × (fixity_decls q ≡ some ds)
unfolding fixity_decls add_fixity SeqFits WellTyped
fixity_decls-Typed empty h = ([], refl)
fixity_decls-Typed (item (node tag off len trivia slots) q) ((child, typed), hs) =
    let (ds, es) = fixity_decls-Typed q hs in
    elim (Bool-cases (is_fixity tag)) [
      | inr z ↦ (ds, rw z es)
      | inl z ↦
          let is_decl = is_fixity-eq tag z in
          let (decl, e) =
            decl_slots-Typed slots (subst (λ t. SlotsFit (fields_of t) slots) is_decl typed) in
          (decl ∷ ds, rw z (rw (e, es) refl))
    ]

-- On the tree of a file that fits the schema, all that `build_fixity` reads is there.
pub file_fixity-Typed :
    (off len trivia : ℕ) (slots : WokSlots)
    → WellTyped (node w_file off len trivia slots)
    → (decls : List FixityDecl) × (file_fixity (node w_file off len trivia slots) ≡ some decls)
unfolding WellTyped fields_of file_fixity file_decls
file_fixity-Typed off len trivia slots h =
    let (s, r, e, f, g) = SlotsFit-cons _ _ slots h in
    let (q, e', fits) = seq_slot _ s f in
    let (decls, es) = fixity_decls-Typed q fits in
    let read : file_decls slots ≡ some q =
      ap file_decls (e ∙ ap (slot s) (SlotsFit-none r g))
      ∙ ap (λ s. file_decls (slot s no_slots)) e' in
    (decls, ap (λ o. o >>= fixity_decls) read ∙ es)

-- So the table of such a file is made, and is what its declarations say.
pub build_fixity_file-IsBuilt :
    (ro : Ro) (off len trivia : ℕ) (slots : WokSlots) (d : WokDiagSink) (decls : List FixityDecl)
    → file_fixity (node w_file off len trivia slots) ≡ some decls
    → All (λ decl. decl.name.off < u32_max) decls
    → count_names decls ≤ 1073741824
    → (b : Built) × (build_fixity_file ro.src (node w_file off len trivia slots) d ≡ some b)
      × IsBuilt ro decls b
unfolding build_fixity_file
build_fixity_file-IsBuilt ro off len trivia slots d decls read o l =
    let (b, e, k) = build_fixity-IsBuilt ro decls d o l in
    (b, ap (λ ds. ds >>= λ ds. build_fixity ro.src ds d) read ∙ e, k)
