-- ===== src/Token/Words.antt =====
-- grammar/c/wok_token.h and wok_token.c: the roster of words, the words of identifiers and the reserved
-- operators. A spelling is the list of its bytes.
use wokml.Prelude.{ℕ, Bool, true, false, List, [], ◌∷◌, ◌==◌, ◌&&◌, length, if◌then◌else◌}
use wokml.Token.{
  WokKind, WokWord, wt_bad, wt_varid, wt_varsym, wt_keyword, wt_equals, wt_colon, wt_bar, wt_arrow,
  wt_fatarrow, wt_coloncolon, wt_assign, ww_abort, ww_alias, ww_as, ww_case, ww_class, ww_copy,
  ww_eff, ww_effect, ww_else, ww_extern, ww_fixity, ww_foreign, ww_handle, ww_handler, ww_if,
  ww_import, ww_in, ww_instance, ww_left, ww_lend, ww_let, ww_looser, ww_module, ww_none, ww_of,
  ww_once, ww_own, ww_plus, ww_return, ww_right, ww_row, ww_than, ww_then, ww_tighter, ww_type,
  ww_use, ww_var, ww_where, ww_with,
}

-- `word_tab[w].text`
unfoldable pub word_text : WokWord → List ℕ
word_text ww_none = []
word_text ww_module = 109 ∷ 111 ∷ 100 ∷ 117 ∷ 108 ∷ 101 ∷ []
word_text ww_import = 105 ∷ 109 ∷ 112 ∷ 111 ∷ 114 ∷ 116 ∷ []
word_text ww_as = 97 ∷ 115 ∷ []
word_text ww_type = 116 ∷ 121 ∷ 112 ∷ 101 ∷ []
word_text ww_alias = 97 ∷ 108 ∷ 105 ∷ 97 ∷ 115 ∷ []
word_text ww_class = 99 ∷ 108 ∷ 97 ∷ 115 ∷ 115 ∷ []
word_text ww_instance = 105 ∷ 110 ∷ 115 ∷ 116 ∷ 97 ∷ 110 ∷ 99 ∷ 101 ∷ []
word_text ww_let = 108 ∷ 101 ∷ 116 ∷ []
word_text ww_in = 105 ∷ 110 ∷ []
word_text ww_case = 99 ∷ 97 ∷ 115 ∷ 101 ∷ []
word_text ww_of = 111 ∷ 102 ∷ []
word_text ww_if = 105 ∷ 102 ∷ []
word_text ww_then = 116 ∷ 104 ∷ 101 ∷ 110 ∷ []
word_text ww_else = 101 ∷ 108 ∷ 115 ∷ 101 ∷ []
word_text ww_where = 119 ∷ 104 ∷ 101 ∷ 114 ∷ 101 ∷ []
word_text ww_effect = 101 ∷ 102 ∷ 102 ∷ 101 ∷ 99 ∷ 116 ∷ []
word_text ww_handler = 104 ∷ 97 ∷ 110 ∷ 100 ∷ 108 ∷ 101 ∷ 114 ∷ []
word_text ww_handle = 104 ∷ 97 ∷ 110 ∷ 100 ∷ 108 ∷ 101 ∷ []
word_text ww_use = 117 ∷ 115 ∷ 101 ∷ []
word_text ww_abort = 97 ∷ 98 ∷ 111 ∷ 114 ∷ 116 ∷ []
word_text ww_return = 114 ∷ 101 ∷ 116 ∷ 117 ∷ 114 ∷ 110 ∷ []
word_text ww_var = 118 ∷ 97 ∷ 114 ∷ []
word_text ww_with = 119 ∷ 105 ∷ 116 ∷ 104 ∷ []
word_text ww_foreign = 102 ∷ 111 ∷ 114 ∷ 101 ∷ 105 ∷ 103 ∷ 110 ∷ []
word_text ww_extern = 101 ∷ 120 ∷ 116 ∷ 101 ∷ 114 ∷ 110 ∷ []
word_text ww_fixity = 102 ∷ 105 ∷ 120 ∷ 105 ∷ 116 ∷ 121 ∷ []
word_text ww_once = 111 ∷ 110 ∷ 99 ∷ 101 ∷ []
word_text ww_own = 111 ∷ 119 ∷ 110 ∷ []
word_text ww_lend = 108 ∷ 101 ∷ 110 ∷ 100 ∷ []
word_text ww_copy = 99 ∷ 111 ∷ 112 ∷ 121 ∷ []
word_text ww_left = 108 ∷ 101 ∷ 102 ∷ 116 ∷ []
word_text ww_right = 114 ∷ 105 ∷ 103 ∷ 104 ∷ 116 ∷ []
word_text ww_tighter = 116 ∷ 105 ∷ 103 ∷ 104 ∷ 116 ∷ 101 ∷ 114 ∷ []
word_text ww_looser = 108 ∷ 111 ∷ 111 ∷ 115 ∷ 101 ∷ 114 ∷ []
word_text ww_than = 116 ∷ 104 ∷ 97 ∷ 110 ∷ []
word_text ww_row = 114 ∷ 111 ∷ 119 ∷ []
word_text ww_eff = 101 ∷ 102 ∷ 102 ∷ []
word_text ww_plus = 43 ∷ []

-- `word_tab[w].kind`
unfoldable pub word_kind : WokWord → WokKind
word_kind ww_none = wt_bad
word_kind ww_once = wt_varid
word_kind ww_own = wt_varid
word_kind ww_lend = wt_varid
word_kind ww_copy = wt_varid
word_kind ww_left = wt_varid
word_kind ww_right = wt_varid
word_kind ww_tighter = wt_varid
word_kind ww_looser = wt_varid
word_kind ww_than = wt_varid
word_kind ww_row = wt_varid
word_kind ww_eff = wt_varid
word_kind ww_plus = wt_varsym
word_kind _ = wt_keyword

-- `memcmp(s, lit, sizeof lit - 1) == 0` for an identifier of that length.
unfoldable pub same_bytes : List ℕ → List ℕ → Bool
same_bytes [] [] = true
same_bytes (a ∷ s) (b ∷ t) = a == b && same_bytes s t
same_bytes s t = false

-- The words of one length, in the order of the tests.

abbrev pub words_2 : List (List ℕ × WokWord)
words_2 =
    (97 ∷ 115 ∷ [], ww_as)
    ∷ (105 ∷ 110 ∷ [], ww_in)
    ∷ (105 ∷ 102 ∷ [], ww_if)
    ∷ (111 ∷ 102 ∷ [], ww_of)
    ∷ []

abbrev pub words_3 : List (List ℕ × WokWord)
words_3 =
    (108 ∷ 101 ∷ 116 ∷ [], ww_let)
    ∷ (118 ∷ 97 ∷ 114 ∷ [], ww_var)
    ∷ (117 ∷ 115 ∷ 101 ∷ [], ww_use)
    ∷ (111 ∷ 119 ∷ 110 ∷ [], ww_own)
    ∷ (101 ∷ 102 ∷ 102 ∷ [], ww_eff)
    ∷ (114 ∷ 111 ∷ 119 ∷ [], ww_row)
    ∷ []

abbrev pub words_4 : List (List ℕ × WokWord)
words_4 =
    (116 ∷ 121 ∷ 112 ∷ 101 ∷ [], ww_type)
    ∷ (99 ∷ 97 ∷ 115 ∷ 101 ∷ [], ww_case)
    ∷ (116 ∷ 104 ∷ 101 ∷ 110 ∷ [], ww_then)
    ∷ (101 ∷ 108 ∷ 115 ∷ 101 ∷ [], ww_else)
    ∷ (119 ∷ 105 ∷ 116 ∷ 104 ∷ [], ww_with)
    ∷ (111 ∷ 110 ∷ 99 ∷ 101 ∷ [], ww_once)
    ∷ (99 ∷ 111 ∷ 112 ∷ 121 ∷ [], ww_copy)
    ∷ (108 ∷ 101 ∷ 110 ∷ 100 ∷ [], ww_lend)
    ∷ (108 ∷ 101 ∷ 102 ∷ 116 ∷ [], ww_left)
    ∷ (116 ∷ 104 ∷ 97 ∷ 110 ∷ [], ww_than)
    ∷ []

abbrev pub words_5 : List (List ℕ × WokWord)
words_5 =
    (97 ∷ 98 ∷ 111 ∷ 114 ∷ 116 ∷ [], ww_abort)
    ∷ (97 ∷ 108 ∷ 105 ∷ 97 ∷ 115 ∷ [], ww_alias)
    ∷ (99 ∷ 108 ∷ 97 ∷ 115 ∷ 115 ∷ [], ww_class)
    ∷ (119 ∷ 104 ∷ 101 ∷ 114 ∷ 101 ∷ [], ww_where)
    ∷ (114 ∷ 105 ∷ 103 ∷ 104 ∷ 116 ∷ [], ww_right)
    ∷ []

abbrev pub words_6 : List (List ℕ × WokWord)
words_6 =
    (109 ∷ 111 ∷ 100 ∷ 117 ∷ 108 ∷ 101 ∷ [], ww_module)
    ∷ (105 ∷ 109 ∷ 112 ∷ 111 ∷ 114 ∷ 116 ∷ [], ww_import)
    ∷ (101 ∷ 102 ∷ 102 ∷ 101 ∷ 99 ∷ 116 ∷ [], ww_effect)
    ∷ (104 ∷ 97 ∷ 110 ∷ 100 ∷ 108 ∷ 101 ∷ [], ww_handle)
    ∷ (114 ∷ 101 ∷ 116 ∷ 117 ∷ 114 ∷ 110 ∷ [], ww_return)
    ∷ (101 ∷ 120 ∷ 116 ∷ 101 ∷ 114 ∷ 110 ∷ [], ww_extern)
    ∷ (102 ∷ 105 ∷ 120 ∷ 105 ∷ 116 ∷ 121 ∷ [], ww_fixity)
    ∷ (108 ∷ 111 ∷ 111 ∷ 115 ∷ 101 ∷ 114 ∷ [], ww_looser)
    ∷ []

abbrev pub words_7 : List (List ℕ × WokWord)
words_7 =
    (102 ∷ 111 ∷ 114 ∷ 101 ∷ 105 ∷ 103 ∷ 110 ∷ [], ww_foreign)
    ∷ (104 ∷ 97 ∷ 110 ∷ 100 ∷ 108 ∷ 101 ∷ 114 ∷ [], ww_handler)
    ∷ (116 ∷ 105 ∷ 103 ∷ 104 ∷ 116 ∷ 101 ∷ 114 ∷ [], ww_tighter)
    ∷ []

abbrev pub words_8 : List (List ℕ × WokWord)
words_8 = (105 ∷ 110 ∷ 115 ∷ 116 ∷ 97 ∷ 110 ∷ 99 ∷ 101 ∷ [], ww_instance) ∷ []

abbrev pub words_of_length : ℕ → List (List ℕ × WokWord)
words_of_length n =
    if n == 2
    then words_2
    else if n == 3
    then words_3
    else if n == 4
    then words_4
    else if n == 5
    then words_5
    else if n == 6
    then words_6
    else if n == 7
    then words_7
    else if n == 8
    then words_8
    else []

unfoldable pub first_word : List (List ℕ × WokWord) → List ℕ → WokWord
first_word [] s = ww_none
first_word ((t, w) ∷ ws) s = let rest = first_word ws s in if same_bytes s t then w else rest

unfoldable pub word_of_ident : List ℕ → WokWord
unfolding first_word
word_of_ident s = first_word (words_of_length (length s)) s

-- `reserved_sym`, by the length of the run.
unfoldable pub reserved_sym : List ℕ → WokKind
reserved_sym (a ∷ []) =
    if a == 61
    then wt_equals
    else if a == 58
    then wt_colon
    else if a == 124
    then wt_bar
    else wt_varsym
reserved_sym (a ∷ b ∷ []) =
    if a == 45 && b == 62
    then wt_arrow
    else if a == 61 && b == 62
    then wt_fatarrow
    else if a == 58 && b == 58
    then wt_coloncolon
    else if a == 58 && b == 61
    then wt_assign
    else wt_varsym
reserved_sym s = wt_varsym
