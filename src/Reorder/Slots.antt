-- ===== src/Reorder/Slots.antt =====
-- grammar/c/wok_reorder.c and wok_ast.h: what the schema says of chains and of their operators.
use wokml.Prelude.{ℕ, ◌≡◌, ◌≢◌, refl, sym, subst, Bool, true, some}
use wokml.Ast.{
  WokSpan, WokNode, node, WokSlots, no_slots, slot, of_node, null, of_seq, of_span, of_num, of_flag,
  WokSeq, tag_of, Child, WellTyped, SlotsFit, SeqFits,
}
use wokml.Ast.Schema.{
  n_name, n_mod_path, d_module, d_import, d_type, d_alias, d_effect, d_class, d_instance, d_foreign,
  d_extern_type, d_sig, d_fixity, d_equation, d_error, h_ty_param, h_con_def, h_field_type,
  h_op_sig, h_foreign_member, h_sig_name, h_fix_rel, l_prefix, l_infix, t_var, t_con, t_app, t_fun,
  t_qual, t_with, t_list, t_tuple, t_unit, t_row_arg, t_transfer, h_row_entry, p_var, p_wild, p_int,
  p_str, p_char, p_con, p_cons, p_tuple, p_list, p_unit, p_as, p_record, h_field_pat, e_var, e_con,
  e_int, e_str, e_char, e_unit, e_op_ref, e_app, e_dot, e_neg, e_list, e_tuple, e_lambda, e_let_in,
  e_handle_in, e_use_in, e_if, e_case, e_handler, e_assign, e_record, e_block, e_error, s_let,
  s_handle, s_use, s_discard, h_bind, h_use_bind, h_alt, h_clause, h_field, w_file, WokTag,
  WokFamily, family_of, fields_of, family_index, family_accepts, e_chain, h_chain_op, fam_none,
  fam_error, fam_file, fam_decl, fam_type, fam_pat, fam_expr, fam_stmt, fam_name, fam_path, fam_lhs,
  fam_bindlhs, fam_signame, fam_typaram, fam_condef, fam_fieldtype, fam_opsig, fam_foreignmem,
  fam_rowentry, fam_fieldpat, fam_chainop, fam_bind, fam_usebind, fam_alt, fam_clause, fam_field,
  fam_fixrel,
}
use wokml.Reorder.Walk.{is_chain, chain_slots, chain_op}

-- An operand: a well-typed expression.
abbrev pub IsExpr : WokNode → Type 0
IsExpr n = Child fam_expr (tag_of n) × WellTyped n

pub child_expr : (g : WokFamily) → family_accepts fam_expr g ≡ true → g ≢ fam_error → g ≡ fam_expr
unfolding family_accepts family_index
child_expr fam_none h ne = cc
child_expr fam_error h ne = absurd (ne refl)
child_expr fam_file h ne = cc
child_expr fam_decl h ne = cc
child_expr fam_type h ne = cc
child_expr fam_pat h ne = cc
child_expr fam_expr h ne = refl
child_expr fam_stmt h ne = cc
child_expr fam_name h ne = cc
child_expr fam_path h ne = cc
child_expr fam_lhs h ne = cc
child_expr fam_bindlhs h ne = cc
child_expr fam_signame h ne = cc
child_expr fam_typaram h ne = cc
child_expr fam_condef h ne = cc
child_expr fam_fieldtype h ne = cc
child_expr fam_opsig h ne = cc
child_expr fam_foreignmem h ne = cc
child_expr fam_rowentry h ne = cc
child_expr fam_fieldpat h ne = cc
child_expr fam_chainop h ne = cc
child_expr fam_bind h ne = cc
child_expr fam_usebind h ne = cc
child_expr fam_alt h ne = cc
child_expr fam_clause h ne = cc
child_expr fam_field h ne = cc
child_expr fam_fixrel h ne = cc

-- Only one kind of node is an occurrence of an operator, and only one a chain.
pub chain_op_tag : (t : WokTag) → Child fam_chainop t → t ≡ h_chain_op
unfolding family_accepts family_index family_of
chain_op_tag n_name (h, ne) = cc
chain_op_tag n_mod_path (h, ne) = cc
chain_op_tag d_module (h, ne) = cc
chain_op_tag d_import (h, ne) = cc
chain_op_tag d_type (h, ne) = cc
chain_op_tag d_alias (h, ne) = cc
chain_op_tag d_effect (h, ne) = cc
chain_op_tag d_class (h, ne) = cc
chain_op_tag d_instance (h, ne) = cc
chain_op_tag d_foreign (h, ne) = cc
chain_op_tag d_extern_type (h, ne) = cc
chain_op_tag d_sig (h, ne) = cc
chain_op_tag d_fixity (h, ne) = cc
chain_op_tag d_equation (h, ne) = cc
chain_op_tag d_error (h, ne) = absurd (ne refl)
chain_op_tag h_ty_param (h, ne) = cc
chain_op_tag h_con_def (h, ne) = cc
chain_op_tag h_field_type (h, ne) = cc
chain_op_tag h_op_sig (h, ne) = cc
chain_op_tag h_foreign_member (h, ne) = cc
chain_op_tag h_sig_name (h, ne) = cc
chain_op_tag h_fix_rel (h, ne) = cc
chain_op_tag l_prefix (h, ne) = cc
chain_op_tag l_infix (h, ne) = cc
chain_op_tag t_var (h, ne) = cc
chain_op_tag t_con (h, ne) = cc
chain_op_tag t_app (h, ne) = cc
chain_op_tag t_fun (h, ne) = cc
chain_op_tag t_qual (h, ne) = cc
chain_op_tag t_with (h, ne) = cc
chain_op_tag t_list (h, ne) = cc
chain_op_tag t_tuple (h, ne) = cc
chain_op_tag t_unit (h, ne) = cc
chain_op_tag t_row_arg (h, ne) = cc
chain_op_tag t_transfer (h, ne) = cc
chain_op_tag h_row_entry (h, ne) = cc
chain_op_tag p_var (h, ne) = cc
chain_op_tag p_wild (h, ne) = cc
chain_op_tag p_int (h, ne) = cc
chain_op_tag p_str (h, ne) = cc
chain_op_tag p_char (h, ne) = cc
chain_op_tag p_con (h, ne) = cc
chain_op_tag p_cons (h, ne) = cc
chain_op_tag p_tuple (h, ne) = cc
chain_op_tag p_list (h, ne) = cc
chain_op_tag p_unit (h, ne) = cc
chain_op_tag p_as (h, ne) = cc
chain_op_tag p_record (h, ne) = cc
chain_op_tag h_field_pat (h, ne) = cc
chain_op_tag e_var (h, ne) = cc
chain_op_tag e_con (h, ne) = cc
chain_op_tag e_int (h, ne) = cc
chain_op_tag e_str (h, ne) = cc
chain_op_tag e_char (h, ne) = cc
chain_op_tag e_unit (h, ne) = cc
chain_op_tag e_op_ref (h, ne) = cc
chain_op_tag e_app (h, ne) = cc
chain_op_tag e_chain (h, ne) = cc
chain_op_tag e_dot (h, ne) = cc
chain_op_tag e_neg (h, ne) = cc
chain_op_tag e_list (h, ne) = cc
chain_op_tag e_tuple (h, ne) = cc
chain_op_tag e_lambda (h, ne) = cc
chain_op_tag e_let_in (h, ne) = cc
chain_op_tag e_handle_in (h, ne) = cc
chain_op_tag e_use_in (h, ne) = cc
chain_op_tag e_if (h, ne) = cc
chain_op_tag e_case (h, ne) = cc
chain_op_tag e_handler (h, ne) = cc
chain_op_tag e_assign (h, ne) = cc
chain_op_tag e_record (h, ne) = cc
chain_op_tag e_block (h, ne) = cc
chain_op_tag e_error (h, ne) = absurd (ne refl)
chain_op_tag s_let (h, ne) = cc
chain_op_tag s_handle (h, ne) = cc
chain_op_tag s_use (h, ne) = cc
chain_op_tag s_discard (h, ne) = cc
chain_op_tag h_chain_op (h, ne) = refl
chain_op_tag h_bind (h, ne) = cc
chain_op_tag h_use_bind (h, ne) = cc
chain_op_tag h_alt (h, ne) = cc
chain_op_tag h_clause (h, ne) = cc
chain_op_tag h_field (h, ne) = cc
chain_op_tag w_file (h, ne) = cc

pub is_chain-eq : (t : WokTag) → is_chain t ≡ true → t ≡ e_chain
unfolding is_chain
is_chain-eq n_name h = cc
is_chain-eq n_mod_path h = cc
is_chain-eq d_module h = cc
is_chain-eq d_import h = cc
is_chain-eq d_type h = cc
is_chain-eq d_alias h = cc
is_chain-eq d_effect h = cc
is_chain-eq d_class h = cc
is_chain-eq d_instance h = cc
is_chain-eq d_foreign h = cc
is_chain-eq d_extern_type h = cc
is_chain-eq d_sig h = cc
is_chain-eq d_fixity h = cc
is_chain-eq d_equation h = cc
is_chain-eq d_error h = cc
is_chain-eq h_ty_param h = cc
is_chain-eq h_con_def h = cc
is_chain-eq h_field_type h = cc
is_chain-eq h_op_sig h = cc
is_chain-eq h_foreign_member h = cc
is_chain-eq h_sig_name h = cc
is_chain-eq h_fix_rel h = cc
is_chain-eq l_prefix h = cc
is_chain-eq l_infix h = cc
is_chain-eq t_var h = cc
is_chain-eq t_con h = cc
is_chain-eq t_app h = cc
is_chain-eq t_fun h = cc
is_chain-eq t_qual h = cc
is_chain-eq t_with h = cc
is_chain-eq t_list h = cc
is_chain-eq t_tuple h = cc
is_chain-eq t_unit h = cc
is_chain-eq t_row_arg h = cc
is_chain-eq t_transfer h = cc
is_chain-eq h_row_entry h = cc
is_chain-eq p_var h = cc
is_chain-eq p_wild h = cc
is_chain-eq p_int h = cc
is_chain-eq p_str h = cc
is_chain-eq p_char h = cc
is_chain-eq p_con h = cc
is_chain-eq p_cons h = cc
is_chain-eq p_tuple h = cc
is_chain-eq p_list h = cc
is_chain-eq p_unit h = cc
is_chain-eq p_as h = cc
is_chain-eq p_record h = cc
is_chain-eq h_field_pat h = cc
is_chain-eq e_var h = cc
is_chain-eq e_con h = cc
is_chain-eq e_int h = cc
is_chain-eq e_str h = cc
is_chain-eq e_char h = cc
is_chain-eq e_unit h = cc
is_chain-eq e_op_ref h = cc
is_chain-eq e_app h = cc
is_chain-eq e_chain h = refl
is_chain-eq e_dot h = cc
is_chain-eq e_neg h = cc
is_chain-eq e_list h = cc
is_chain-eq e_tuple h = cc
is_chain-eq e_lambda h = cc
is_chain-eq e_let_in h = cc
is_chain-eq e_handle_in h = cc
is_chain-eq e_use_in h = cc
is_chain-eq e_if h = cc
is_chain-eq e_case h = cc
is_chain-eq e_handler h = cc
is_chain-eq e_assign h = cc
is_chain-eq e_record h = cc
is_chain-eq e_block h = cc
is_chain-eq e_error h = cc
is_chain-eq s_let h = cc
is_chain-eq s_handle h = cc
is_chain-eq s_use h = cc
is_chain-eq s_discard h = cc
is_chain-eq h_chain_op h = cc
is_chain-eq h_bind h = cc
is_chain-eq h_use_bind h = cc
is_chain-eq h_alt h = cc
is_chain-eq h_clause h = cc
is_chain-eq h_field h = cc
is_chain-eq w_file h = cc

-- The slots of an occurrence of an operator, and of a chain.
op_slots :
    (off len tr : ℕ) (slots : WokSlots)
    → SlotsFit (fields_of h_chain_op) slots
    → (name : WokSpan) × (backtick : Bool) × (rhs : WokNode) × (chain_op
          (node h_chain_op off len tr slots)
        ≡ some (name, backtick, rhs))
      × IsExpr rhs
unfolding chain_op WellTyped fields_of
op_slots off len tr no_slots h = absurd h
op_slots off len tr (slot (of_node n) ss) (h, _) = absurd h
op_slots off len tr (slot null ss) (h, _) = absurd h
op_slots off len tr (slot (of_seq q) ss) (h, _) = absurd h
op_slots off len tr (slot (of_span name) no_slots) (_, h) = absurd h
op_slots off len tr (slot (of_span name) (slot (of_node n) ss)) (_, (h, _)) = absurd h
op_slots off len tr (slot (of_span name) (slot null ss)) (_, (h, _)) = absurd h
op_slots off len tr (slot (of_span name) (slot (of_seq q) ss)) (_, (h, _)) = absurd h
op_slots off len tr (slot (of_span name) (slot (of_span s) ss)) (_, (h, _)) = absurd h
op_slots off len tr (slot (of_span name) (slot (of_num k) ss)) (_, (h, _)) = absurd h
op_slots off len tr (slot (of_span name) (slot (of_flag backtick) no_slots)) (_, (_, h)) = absurd h
op_slots off len tr (slot (of_span name) (slot (of_flag backtick) (slot (of_node rhs) no_slots)))
      (_, (_, (e, _))) =
    (name, backtick, rhs, refl, e)
op_slots off len tr (slot (of_span name) (slot (of_flag backtick) (slot (of_node rhs) (slot s ss))))
      (_, (_, (_, h))) =
    absurd h
op_slots off len tr (slot (of_span name) (slot (of_flag backtick) (slot null ss)))
      (_, (_, (h, _))) =
    absurd h
op_slots off len tr (slot (of_span name) (slot (of_flag backtick) (slot (of_seq q) ss)))
      (_, (_, (h, _))) =
    absurd h
op_slots off len tr (slot (of_span name) (slot (of_flag backtick) (slot (of_span s) ss)))
      (_, (_, (h, _))) =
    absurd h
op_slots off len tr (slot (of_span name) (slot (of_flag backtick) (slot (of_num k) ss)))
      (_, (_, (h, _))) =
    absurd h
op_slots off len tr (slot (of_span name) (slot (of_flag backtick) (slot (of_flag b) ss)))
      (_, (_, (h, _))) =
    absurd h
op_slots off len tr (slot (of_num k) ss) (h, _) = absurd h
op_slots off len tr (slot (of_flag b) ss) (h, _) = absurd h

pub head_slots :
    (slots : WokSlots)
    → SlotsFit (fields_of e_chain) slots
    → (h : WokNode) × (ops : WokSeq) × (chain_slots slots ≡ some (h, ops))
      × IsExpr h
      × SeqFits fam_chainop ops
unfolding chain_slots WellTyped fields_of
head_slots no_slots h = absurd h
head_slots (slot (of_node hd) no_slots) (_, h) = absurd h
head_slots (slot (of_node hd) (slot (of_node n) ss)) (_, (h, _)) = absurd h
head_slots (slot (of_node hd) (slot null ss)) (_, (h, _)) = absurd h
head_slots (slot (of_node hd) (slot (of_seq ops) no_slots)) (e, (f, _)) = (hd, ops, refl, e, f)
head_slots (slot (of_node hd) (slot (of_seq ops) (slot s ss))) (_, (_, h)) = absurd h
head_slots (slot (of_node hd) (slot (of_span s) ss)) (_, (h, _)) = absurd h
head_slots (slot (of_node hd) (slot (of_num k) ss)) (_, (h, _)) = absurd h
head_slots (slot (of_node hd) (slot (of_flag b) ss)) (_, (h, _)) = absurd h
head_slots (slot null ss) (h, _) = absurd h
head_slots (slot (of_seq q) ss) (h, _) = absurd h
head_slots (slot (of_span s) ss) (h, _) = absurd h
head_slots (slot (of_num k) ss) (h, _) = absurd h
head_slots (slot (of_flag b) ss) (h, _) = absurd h

pub chain_op-Typed :
    (op : WokNode)
    → Child fam_chainop (tag_of op)
    → WellTyped op
    → (name : WokSpan) × (backtick : Bool) × (rhs : WokNode) × (chain_op op
        ≡ some (name, backtick, rhs))
      × IsExpr rhs
unfolding WellTyped
chain_op-Typed (node tag off len tr slots) child typed =
    let e = chain_op_tag tag child in
    let (name, backtick, rhs, f, x) =
      op_slots off len tr slots (subst (λ t. SlotsFit (fields_of t) slots) e typed) in
    (
      name,
      backtick,
      rhs,
      subst (λ t. chain_op (node t off len tr slots) ≡ some (name, backtick, rhs)) (sym e) f,
      x,
    )
