-- ===== src/Ast/Schema.antt =====
-- grammar/c/wok_ast.h and wok_ast.c: the schema of the syntax tree, the kinds of nodes with the family
-- each belongs to and the fields of each. The names of the fields are left out.
use wokml.Prelude.{ℕ, Bool, ◌&&◌, ◌||◌, ◌==◌, List, [], ◌∷◌}

-- WOK_FIELD_CLASSES
pub data WokFieldClass : Type 0 where
  node_field opt_field seq_field name_field text_field int_field flag_field : WokFieldClass

-- WOK_FAMILIES
pub data WokFamily : Type 0 where
  fam_none fam_error fam_file fam_decl fam_type fam_pat fam_expr fam_stmt fam_name : WokFamily
  fam_path fam_lhs fam_bindlhs fam_signame fam_typaram fam_condef fam_fieldtype : WokFamily
  fam_opsig fam_foreignmem fam_rowentry fam_fieldpat fam_chainop fam_bind : WokFamily
  fam_usebind fam_alt fam_clause fam_field fam_fixrel : WokFamily

-- WOK_NODES
pub data WokTag : Type 0 where
  n_name n_mod_path d_module d_import d_type d_alias d_effect d_class d_instance : WokTag
  d_foreign d_extern_type d_sig d_fixity d_equation d_error h_ty_param h_con_def : WokTag
  h_field_type h_op_sig h_foreign_member h_sig_name h_fix_rel l_prefix l_infix : WokTag
  t_var t_con t_app t_fun t_qual t_with t_list t_tuple t_unit t_row_arg t_transfer : WokTag
  h_row_entry p_var p_wild p_int p_str p_char p_con p_cons p_tuple p_list p_unit : WokTag
  p_as p_record h_field_pat e_var e_con e_int e_str e_char e_unit e_op_ref e_app : WokTag
  e_chain e_dot e_neg e_list e_tuple e_lambda e_let_in e_handle_in e_use_in e_if : WokTag
  e_case e_handler e_assign e_record e_block e_error s_let s_handle s_use : WokTag
  s_discard h_chain_op h_bind h_use_bind h_alt h_clause h_field w_file : WokTag

pub record WokFieldDesc : Type 0 where
  pub cls : WokFieldClass
  pub family : WokFamily

abbrev pub field : WokFieldClass → WokFamily → WokFieldDesc
field c f = record { cls = c; family = f }

-- The family a node belongs to.
unfoldable pub family_of : WokTag → WokFamily
family_of n_name = fam_name
family_of n_mod_path = fam_path
family_of d_module = fam_decl
family_of d_import = fam_decl
family_of d_type = fam_decl
family_of d_alias = fam_decl
family_of d_effect = fam_decl
family_of d_class = fam_decl
family_of d_instance = fam_decl
family_of d_foreign = fam_decl
family_of d_extern_type = fam_decl
family_of d_sig = fam_decl
family_of d_fixity = fam_decl
family_of d_equation = fam_decl
family_of d_error = fam_error
family_of h_ty_param = fam_typaram
family_of h_con_def = fam_condef
family_of h_field_type = fam_fieldtype
family_of h_op_sig = fam_opsig
family_of h_foreign_member = fam_foreignmem
family_of h_sig_name = fam_signame
family_of h_fix_rel = fam_fixrel
family_of l_prefix = fam_lhs
family_of l_infix = fam_lhs
family_of t_var = fam_type
family_of t_con = fam_type
family_of t_app = fam_type
family_of t_fun = fam_type
family_of t_qual = fam_type
family_of t_with = fam_type
family_of t_list = fam_type
family_of t_tuple = fam_type
family_of t_unit = fam_type
family_of t_row_arg = fam_type
family_of t_transfer = fam_type
family_of h_row_entry = fam_rowentry
family_of p_var = fam_pat
family_of p_wild = fam_pat
family_of p_int = fam_pat
family_of p_str = fam_pat
family_of p_char = fam_pat
family_of p_con = fam_pat
family_of p_cons = fam_pat
family_of p_tuple = fam_pat
family_of p_list = fam_pat
family_of p_unit = fam_pat
family_of p_as = fam_pat
family_of p_record = fam_pat
family_of h_field_pat = fam_fieldpat
family_of e_var = fam_expr
family_of e_con = fam_expr
family_of e_int = fam_expr
family_of e_str = fam_expr
family_of e_char = fam_expr
family_of e_unit = fam_expr
family_of e_op_ref = fam_expr
family_of e_app = fam_expr
family_of e_chain = fam_expr
family_of e_dot = fam_expr
family_of e_neg = fam_expr
family_of e_list = fam_expr
family_of e_tuple = fam_expr
family_of e_lambda = fam_expr
family_of e_let_in = fam_expr
family_of e_handle_in = fam_expr
family_of e_use_in = fam_expr
family_of e_if = fam_expr
family_of e_case = fam_expr
family_of e_handler = fam_expr
family_of e_assign = fam_expr
family_of e_record = fam_expr
family_of e_block = fam_expr
family_of e_error = fam_error
family_of s_let = fam_stmt
family_of s_handle = fam_stmt
family_of s_use = fam_stmt
family_of s_discard = fam_stmt
family_of h_chain_op = fam_chainop
family_of h_bind = fam_bind
family_of h_use_bind = fam_usebind
family_of h_alt = fam_alt
family_of h_clause = fam_clause
family_of h_field = fam_field
family_of w_file = fam_file

-- The fields of a node, in the order of its slots.
unfoldable pub fields_of : WokTag → List WokFieldDesc
fields_of n_name = field name_field fam_none ∷ field flag_field fam_none ∷ []
fields_of n_mod_path = field seq_field fam_name ∷ []
fields_of d_module = field node_field fam_path ∷ []
fields_of d_import =
    field node_field fam_path ∷ field seq_field fam_name ∷ field opt_field fam_name ∷ []
fields_of d_type =
    field name_field fam_none ∷ field seq_field fam_typaram ∷ field seq_field fam_condef ∷ []
fields_of d_alias =
    field name_field fam_none ∷ field seq_field fam_typaram ∷ field node_field fam_type ∷ []
fields_of d_effect =
    field name_field fam_none ∷ field seq_field fam_typaram ∷ field seq_field fam_opsig ∷ []
fields_of d_class =
    field name_field fam_none ∷ field seq_field fam_typaram ∷ field seq_field fam_decl ∷ []
fields_of d_instance =
    field opt_field fam_type
    ∷ field name_field fam_none
    ∷ field seq_field fam_type
    ∷ field seq_field fam_decl
    ∷ []
fields_of d_foreign =
    field name_field fam_none ∷ field text_field fam_none ∷ field seq_field fam_foreignmem ∷ []
fields_of d_extern_type = field name_field fam_none ∷ field seq_field fam_typaram ∷ []
fields_of d_sig =
    field seq_field fam_signame ∷ field node_field fam_type ∷ field flag_field fam_none ∷ []
fields_of d_fixity =
    field name_field fam_none
    ∷ field flag_field fam_none
    ∷ field int_field fam_none
    ∷ field seq_field fam_fixrel
    ∷ []
fields_of d_equation =
    field node_field fam_lhs ∷ field node_field fam_expr ∷ field seq_field fam_decl ∷ []
fields_of d_error = field text_field fam_none ∷ []
fields_of h_ty_param = field name_field fam_none ∷ field flag_field fam_none ∷ []
fields_of h_con_def =
    field name_field fam_none
    ∷ field seq_field fam_type
    ∷ field seq_field fam_fieldtype
    ∷ field flag_field fam_none
    ∷ []
fields_of h_field_type = field name_field fam_none ∷ field node_field fam_type ∷ []
fields_of h_op_sig = field name_field fam_none ∷ field node_field fam_type ∷ []
fields_of h_foreign_member =
    field name_field fam_none ∷ field text_field fam_none ∷ field node_field fam_type ∷ []
fields_of h_sig_name = field name_field fam_none ∷ field flag_field fam_none ∷ []
fields_of h_fix_rel =
    field int_field fam_none ∷ field name_field fam_none ∷ field flag_field fam_none ∷ []
fields_of l_prefix =
    field name_field fam_none ∷ field flag_field fam_none ∷ field seq_field fam_pat ∷ []
fields_of l_infix =
    field node_field fam_pat
    ∷ field name_field fam_none
    ∷ field flag_field fam_none
    ∷ field node_field fam_pat
    ∷ []
fields_of t_var = field name_field fam_none ∷ []
fields_of t_con = field node_field fam_path ∷ []
fields_of t_app = field node_field fam_type ∷ field node_field fam_type ∷ []
fields_of t_fun = field node_field fam_type ∷ field node_field fam_type ∷ []
fields_of t_qual = field node_field fam_type ∷ field node_field fam_type ∷ []
fields_of t_with = field node_field fam_type ∷ field seq_field fam_rowentry ∷ []
fields_of t_list = field node_field fam_type ∷ []
fields_of t_tuple = field seq_field fam_type ∷ []
fields_of t_unit = []
fields_of t_row_arg = field name_field fam_none ∷ []
fields_of t_transfer = field int_field fam_none ∷ field node_field fam_type ∷ []
fields_of h_row_entry =
    field int_field fam_none ∷ field name_field fam_none ∷ field opt_field fam_type ∷ []
fields_of p_var = field name_field fam_none ∷ []
fields_of p_wild = []
fields_of p_int = field int_field fam_none ∷ field flag_field fam_none ∷ []
fields_of p_str = field text_field fam_none ∷ []
fields_of p_char = field text_field fam_none ∷ []
fields_of p_con = field node_field fam_path ∷ field seq_field fam_pat ∷ []
fields_of p_cons = field node_field fam_pat ∷ field node_field fam_pat ∷ []
fields_of p_tuple = field seq_field fam_pat ∷ []
fields_of p_list = field seq_field fam_pat ∷ []
fields_of p_unit = []
fields_of p_as = field node_field fam_pat ∷ field name_field fam_none ∷ []
fields_of p_record =
    field node_field fam_path
    ∷ field seq_field fam_fieldpat
    ∷ field flag_field fam_none
    ∷ field name_field fam_none
    ∷ []
fields_of h_field_pat = field name_field fam_none ∷ field node_field fam_pat ∷ []
fields_of e_var = field name_field fam_none ∷ []
fields_of e_con = field name_field fam_none ∷ []
fields_of e_int = field int_field fam_none ∷ []
fields_of e_str = field text_field fam_none ∷ []
fields_of e_char = field text_field fam_none ∷ []
fields_of e_unit = []
fields_of e_op_ref = field name_field fam_none ∷ []
fields_of e_app = field node_field fam_expr ∷ field node_field fam_expr ∷ []
fields_of e_chain = field node_field fam_expr ∷ field seq_field fam_chainop ∷ []
fields_of e_dot =
    field node_field fam_expr ∷ field name_field fam_none ∷ field flag_field fam_none ∷ []
fields_of e_neg = field node_field fam_expr ∷ []
fields_of e_list = field seq_field fam_expr ∷ []
fields_of e_tuple = field seq_field fam_expr ∷ []
fields_of e_lambda = field seq_field fam_pat ∷ field node_field fam_expr ∷ []
fields_of e_let_in = field node_field fam_bind ∷ field node_field fam_expr ∷ []
fields_of e_handle_in =
    field name_field fam_none ∷ field node_field fam_expr ∷ field node_field fam_expr ∷ []
fields_of e_use_in = field seq_field fam_usebind ∷ field node_field fam_expr ∷ []
fields_of e_if =
    field node_field fam_expr ∷ field node_field fam_expr ∷ field node_field fam_expr ∷ []
fields_of e_case = field node_field fam_expr ∷ field seq_field fam_alt ∷ []
fields_of e_handler = field name_field fam_none ∷ field seq_field fam_clause ∷ []
fields_of e_assign = field node_field fam_expr ∷ field node_field fam_expr ∷ []
fields_of e_record =
    field node_field fam_expr ∷ field opt_field fam_expr ∷ field seq_field fam_field ∷ []
fields_of e_block = field seq_field fam_stmt ∷ []
fields_of e_error = field text_field fam_none ∷ []
fields_of s_let = field node_field fam_bind ∷ []
fields_of s_handle = field name_field fam_none ∷ field node_field fam_expr ∷ []
fields_of s_use = field seq_field fam_usebind ∷ []
fields_of s_discard = field node_field fam_expr ∷ []
fields_of h_chain_op =
    field name_field fam_none ∷ field flag_field fam_none ∷ field node_field fam_expr ∷ []
fields_of h_bind = field node_field fam_bindlhs ∷ field node_field fam_expr ∷ []
fields_of h_use_bind = field name_field fam_none ∷ field name_field fam_none ∷ []
fields_of h_alt =
    field node_field fam_pat ∷ field node_field fam_expr ∷ field seq_field fam_decl ∷ []
fields_of h_clause =
    field int_field fam_none
    ∷ field name_field fam_none
    ∷ field seq_field fam_pat
    ∷ field name_field fam_none
    ∷ field node_field fam_expr
    ∷ []
fields_of h_field = field name_field fam_none ∷ field node_field fam_expr ∷ []
fields_of w_file = field seq_field fam_decl ∷ []

-- The place of a family in the enumeration.
unfoldable pub family_index : WokFamily → ℕ
family_index fam_none = 0
family_index fam_error = 1
family_index fam_file = 2
family_index fam_decl = 3
family_index fam_type = 4
family_index fam_pat = 5
family_index fam_expr = 6
family_index fam_stmt = 7
family_index fam_name = 8
family_index fam_path = 9
family_index fam_lhs = 10
family_index fam_bindlhs = 11
family_index fam_signame = 12
family_index fam_typaram = 13
family_index fam_condef = 14
family_index fam_fieldtype = 15
family_index fam_opsig = 16
family_index fam_foreignmem = 17
family_index fam_rowentry = 18
family_index fam_fieldpat = 19
family_index fam_chainop = 20
family_index fam_bind = 21
family_index fam_usebind = 22
family_index fam_alt = 23
family_index fam_clause = 24
family_index fam_field = 25
family_index fam_fixrel = 26

unfoldable pub family_accepts : (want got : WokFamily) → Bool
family_accepts want got =
    family_index want == family_index got
    || family_index got == family_index fam_error
    || (family_index want == family_index fam_stmt && family_index got == family_index fam_expr)
    || (family_index want == family_index fam_bindlhs
        && (family_index got == family_index fam_lhs || family_index got == family_index fam_pat))
