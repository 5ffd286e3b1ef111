-- ===== src/Fixity/Tags.antt =====
-- grammar/c/wok_ast.h: the kinds of nodes that the fixity table is made of.
use wokml.Prelude.{◌≡◌, refl, true}
use wokml.Ast.{Child}
use wokml.Ast.Schema.{
  WokTag, n_name, n_mod_path, d_module, d_import, d_type, d_alias, d_effect, d_class, d_instance,
  d_foreign, d_extern_type, d_sig, d_fixity, d_equation, d_error, h_ty_param, h_con_def,
  h_field_type, h_op_sig, h_foreign_member, h_sig_name, h_fix_rel, l_prefix, l_infix, t_var, t_con,
  t_app, t_fun, t_qual, t_with, t_list, t_tuple, t_unit, t_row_arg, t_transfer, h_row_entry, p_var,
  p_wild, p_int, p_str, p_char, p_con, p_cons, p_tuple, p_list, p_unit, p_as, p_record, h_field_pat,
  e_var, e_con, e_int, e_str, e_char, e_unit, e_op_ref, e_app, e_chain, e_dot, e_neg, e_list,
  e_tuple, e_lambda, e_let_in, e_handle_in, e_use_in, e_if, e_case, e_handler, e_assign, e_record,
  e_block, e_error, s_let, s_handle, s_use, s_discard, h_chain_op, h_bind, h_use_bind, h_alt,
  h_clause, h_field, w_file, fam_fixrel, family_of, family_accepts, family_index,
}
use wokml.Fixity.Tree.{is_fixity}

-- Only one kind of node is a relation, and only one a fixity declaration.
pub fix_rel_tag : (t : WokTag) → Child fam_fixrel t → t ≡ h_fix_rel
unfolding family_accepts family_index family_of
fix_rel_tag n_name (h, ne) = cc
fix_rel_tag n_mod_path (h, ne) = cc
fix_rel_tag d_module (h, ne) = cc
fix_rel_tag d_import (h, ne) = cc
fix_rel_tag d_type (h, ne) = cc
fix_rel_tag d_alias (h, ne) = cc
fix_rel_tag d_effect (h, ne) = cc
fix_rel_tag d_class (h, ne) = cc
fix_rel_tag d_instance (h, ne) = cc
fix_rel_tag d_foreign (h, ne) = cc
fix_rel_tag d_extern_type (h, ne) = cc
fix_rel_tag d_sig (h, ne) = cc
fix_rel_tag d_fixity (h, ne) = cc
fix_rel_tag d_equation (h, ne) = cc
fix_rel_tag d_error (h, ne) = absurd (ne refl)
fix_rel_tag h_ty_param (h, ne) = cc
fix_rel_tag h_con_def (h, ne) = cc
fix_rel_tag h_field_type (h, ne) = cc
fix_rel_tag h_op_sig (h, ne) = cc
fix_rel_tag h_foreign_member (h, ne) = cc
fix_rel_tag h_sig_name (h, ne) = cc
fix_rel_tag h_fix_rel (h, ne) = refl
fix_rel_tag l_prefix (h, ne) = cc
fix_rel_tag l_infix (h, ne) = cc
fix_rel_tag t_var (h, ne) = cc
fix_rel_tag t_con (h, ne) = cc
fix_rel_tag t_app (h, ne) = cc
fix_rel_tag t_fun (h, ne) = cc
fix_rel_tag t_qual (h, ne) = cc
fix_rel_tag t_with (h, ne) = cc
fix_rel_tag t_list (h, ne) = cc
fix_rel_tag t_tuple (h, ne) = cc
fix_rel_tag t_unit (h, ne) = cc
fix_rel_tag t_row_arg (h, ne) = cc
fix_rel_tag t_transfer (h, ne) = cc
fix_rel_tag h_row_entry (h, ne) = cc
fix_rel_tag p_var (h, ne) = cc
fix_rel_tag p_wild (h, ne) = cc
fix_rel_tag p_int (h, ne) = cc
fix_rel_tag p_str (h, ne) = cc
fix_rel_tag p_char (h, ne) = cc
fix_rel_tag p_con (h, ne) = cc
fix_rel_tag p_cons (h, ne) = cc
fix_rel_tag p_tuple (h, ne) = cc
fix_rel_tag p_list (h, ne) = cc
fix_rel_tag p_unit (h, ne) = cc
fix_rel_tag p_as (h, ne) = cc
fix_rel_tag p_record (h, ne) = cc
fix_rel_tag h_field_pat (h, ne) = cc
fix_rel_tag e_var (h, ne) = cc
fix_rel_tag e_con (h, ne) = cc
fix_rel_tag e_int (h, ne) = cc
fix_rel_tag e_str (h, ne) = cc
fix_rel_tag e_char (h, ne) = cc
fix_rel_tag e_unit (h, ne) = cc
fix_rel_tag e_op_ref (h, ne) = cc
fix_rel_tag e_app (h, ne) = cc
fix_rel_tag e_chain (h, ne) = cc
fix_rel_tag e_dot (h, ne) = cc
fix_rel_tag e_neg (h, ne) = cc
fix_rel_tag e_list (h, ne) = cc
fix_rel_tag e_tuple (h, ne) = cc
fix_rel_tag e_lambda (h, ne) = cc
fix_rel_tag e_let_in (h, ne) = cc
fix_rel_tag e_handle_in (h, ne) = cc
fix_rel_tag e_use_in (h, ne) = cc
fix_rel_tag e_if (h, ne) = cc
fix_rel_tag e_case (h, ne) = cc
fix_rel_tag e_handler (h, ne) = cc
fix_rel_tag e_assign (h, ne) = cc
fix_rel_tag e_record (h, ne) = cc
fix_rel_tag e_block (h, ne) = cc
fix_rel_tag e_error (h, ne) = absurd (ne refl)
fix_rel_tag s_let (h, ne) = cc
fix_rel_tag s_handle (h, ne) = cc
fix_rel_tag s_use (h, ne) = cc
fix_rel_tag s_discard (h, ne) = cc
fix_rel_tag h_chain_op (h, ne) = cc
fix_rel_tag h_bind (h, ne) = cc
fix_rel_tag h_use_bind (h, ne) = cc
fix_rel_tag h_alt (h, ne) = cc
fix_rel_tag h_clause (h, ne) = cc
fix_rel_tag h_field (h, ne) = cc
fix_rel_tag w_file (h, ne) = cc

pub is_fixity-eq : (t : WokTag) → is_fixity t ≡ true → t ≡ d_fixity
unfolding is_fixity
is_fixity-eq n_name h = cc
is_fixity-eq n_mod_path h = cc
is_fixity-eq d_module h = cc
is_fixity-eq d_import h = cc
is_fixity-eq d_type h = cc
is_fixity-eq d_alias h = cc
is_fixity-eq d_effect h = cc
is_fixity-eq d_class h = cc
is_fixity-eq d_instance h = cc
is_fixity-eq d_foreign h = cc
is_fixity-eq d_extern_type h = cc
is_fixity-eq d_sig h = cc
is_fixity-eq d_fixity h = refl
is_fixity-eq d_equation h = cc
is_fixity-eq d_error h = cc
is_fixity-eq h_ty_param h = cc
is_fixity-eq h_con_def h = cc
is_fixity-eq h_field_type h = cc
is_fixity-eq h_op_sig h = cc
is_fixity-eq h_foreign_member h = cc
is_fixity-eq h_sig_name h = cc
is_fixity-eq h_fix_rel h = cc
is_fixity-eq l_prefix h = cc
is_fixity-eq l_infix h = cc
is_fixity-eq t_var h = cc
is_fixity-eq t_con h = cc
is_fixity-eq t_app h = cc
is_fixity-eq t_fun h = cc
is_fixity-eq t_qual h = cc
is_fixity-eq t_with h = cc
is_fixity-eq t_list h = cc
is_fixity-eq t_tuple h = cc
is_fixity-eq t_unit h = cc
is_fixity-eq t_row_arg h = cc
is_fixity-eq t_transfer h = cc
is_fixity-eq h_row_entry h = cc
is_fixity-eq p_var h = cc
is_fixity-eq p_wild h = cc
is_fixity-eq p_int h = cc
is_fixity-eq p_str h = cc
is_fixity-eq p_char h = cc
is_fixity-eq p_con h = cc
is_fixity-eq p_cons h = cc
is_fixity-eq p_tuple h = cc
is_fixity-eq p_list h = cc
is_fixity-eq p_unit h = cc
is_fixity-eq p_as h = cc
is_fixity-eq p_record h = cc
is_fixity-eq h_field_pat h = cc
is_fixity-eq e_var h = cc
is_fixity-eq e_con h = cc
is_fixity-eq e_int h = cc
is_fixity-eq e_str h = cc
is_fixity-eq e_char h = cc
is_fixity-eq e_unit h = cc
is_fixity-eq e_op_ref h = cc
is_fixity-eq e_app h = cc
is_fixity-eq e_chain h = cc
is_fixity-eq e_dot h = cc
is_fixity-eq e_neg h = cc
is_fixity-eq e_list h = cc
is_fixity-eq e_tuple h = cc
is_fixity-eq e_lambda h = cc
is_fixity-eq e_let_in h = cc
is_fixity-eq e_handle_in h = cc
is_fixity-eq e_use_in h = cc
is_fixity-eq e_if h = cc
is_fixity-eq e_case h = cc
is_fixity-eq e_handler h = cc
is_fixity-eq e_assign h = cc
is_fixity-eq e_record h = cc
is_fixity-eq e_block h = cc
is_fixity-eq e_error h = cc
is_fixity-eq s_let h = cc
is_fixity-eq s_handle h = cc
is_fixity-eq s_use h = cc
is_fixity-eq s_discard h = cc
is_fixity-eq h_chain_op h = cc
is_fixity-eq h_bind h = cc
is_fixity-eq h_use_bind h = cc
is_fixity-eq h_alt h = cc
is_fixity-eq h_clause h = cc
is_fixity-eq h_field h = cc
is_fixity-eq w_file h = cc
