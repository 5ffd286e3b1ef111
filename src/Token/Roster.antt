-- ===== src/Token/Roster.antt =====
-- The roster of words against `word_of_ident`, and the symbol bitmap against its characters.
use wokml.Prelude.{
  ℕ, ◌≡◌, ◌≢◌, ◌∙◌, refl, sym, ap, Bool, true, false, List, [], ◌∷◌, ◌==◌, if◌then◌else◌, length,
  All, Bool-cases, inl, inr, arith, eq_of_==,
}
use wokml.Token.{
  WokWord, ww_none, ww_module, ww_import, ww_as, ww_type, ww_alias, ww_class, ww_instance, ww_let,
  ww_in, ww_case, ww_of, ww_if, ww_then, ww_else, ww_where, ww_effect, ww_handler, ww_handle,
  ww_use, ww_abort, ww_return, ww_var, ww_with, ww_foreign, ww_extern, ww_fixity, ww_once, ww_own,
  ww_lend, ww_copy, ww_left, ww_right, ww_tighter, ww_looser, ww_than, ww_row, ww_eff, ww_plus,
}
use wokml.Token.Words.{
  word_text, same_bytes, first_word, word_of_ident, words_of_length, words_2, words_3, words_4,
  words_5, words_6, words_7, words_8,
}

abbrev pub is_identifier : WokWord → Bool
is_identifier ww_none = false
is_identifier ww_plus = false
is_identifier w = true

pub same_bytes-eq : (s t : List ℕ) → same_bytes s t ≡ true → s ≡ t
unfolding same_bytes
same_bytes-eq [] [] h = refl
same_bytes-eq [] (b ∷ t) h = cc
same_bytes-eq (a ∷ s) [] h = cc
same_bytes-eq (a ∷ s) (b ∷ t) h = elim (Bool-cases (a == b)) [
  | inl k ↦
      ap (λ x. x ∷ s) (eq_of_== a b k) ∙ ap (λ (r : List ℕ). b ∷ r) (same_bytes-eq s t (rw k at h))
  | inr k ↦ absurd (ground arith)
]

-- Each pair of a list is a word with its spelling.
abbrev Spelled : List (List ℕ × WokWord) → Type 0
Spelled = All (λ p. word_text p.1 ≡ p.0)

first_word-text :
    (ws : List (List ℕ × WokWord)) (s : List ℕ)
    → Spelled ws
    → first_word ws s ≢ ww_none
    → word_text (first_word ws s) ≡ s
unfolding first_word
first_word-text [] s h ne = absurd (ne refl)
first_word-text ((t, w) ∷ ws) s h ne = elim (Bool-cases (same_bytes s t)) [
  | inl k ↦ rw k (h.0 ∙ sym (same_bytes-eq s t k))
  | inr k ↦ rw k (first_word-text ws s h.1 (rw k at ne))
]

Spelled-if :
    (b : Bool) (xs ys : List (List ℕ × WokWord))
    → Spelled xs
    → Spelled ys
    → Spelled (if b then xs else ys)
Spelled-if true xs ys h k = h
Spelled-if false xs ys h k = k

words-Spelled : (n : ℕ) → Spelled (words_of_length n)
unfolding word_text
words-Spelled n =
    Spelled-if (n == 2) words_2 _ (refl, (refl, (refl, (refl, tt))))
      (Spelled-if (n == 3) words_3 _ (refl, (refl, (refl, (refl, (refl, (refl, tt))))))
        (Spelled-if (n == 4) words_4 _
          (refl, (refl, (refl, (refl, (refl, (refl, (refl, (refl, (refl, (refl, tt))))))))))
          (Spelled-if (n == 5) words_5 _ (refl, (refl, (refl, (refl, (refl, tt)))))
            (Spelled-if (n == 6) words_6 _
              (refl, (refl, (refl, (refl, (refl, (refl, (refl, (refl, tt))))))))
              (Spelled-if (n == 7) words_7 _ (refl, (refl, (refl, tt)))
                (Spelled-if (n == 8) words_8 _ (refl, tt) (tt)))))))

-- An identifier that `word_of_ident` takes for a word is the spelling of that word in the roster.
pub word_of_ident-text : (s : List ℕ) → word_of_ident s ≢ ww_none → word_text (word_of_ident s) ≡ s
unfolding word_of_ident
word_of_ident-text s ne =
    first_word-text (words_of_length (length s)) s (words-Spelled (length s)) ne

-- `word_of_ident` finds every word of the roster by its spelling, but for the operator.
pub text-word_of_ident : (w : WokWord) → is_identifier w ≡ true → word_of_ident (word_text w) ≡ w
unfolding word_of_ident first_word same_bytes word_text
text-word_of_ident ww_none h = cc
text-word_of_ident ww_module h = refl
text-word_of_ident ww_import h = refl
text-word_of_ident ww_as h = refl
text-word_of_ident ww_type h = refl
text-word_of_ident ww_alias h = refl
text-word_of_ident ww_class h = refl
text-word_of_ident ww_instance h = refl
text-word_of_ident ww_let h = refl
text-word_of_ident ww_in h = refl
text-word_of_ident ww_case h = refl
text-word_of_ident ww_of h = refl
text-word_of_ident ww_if h = refl
text-word_of_ident ww_then h = refl
text-word_of_ident ww_else h = refl
text-word_of_ident ww_where h = refl
text-word_of_ident ww_effect h = refl
text-word_of_ident ww_handler h = refl
text-word_of_ident ww_handle h = refl
text-word_of_ident ww_use h = refl
text-word_of_ident ww_abort h = refl
text-word_of_ident ww_return h = refl
text-word_of_ident ww_var h = refl
text-word_of_ident ww_with h = refl
text-word_of_ident ww_foreign h = refl
text-word_of_ident ww_extern h = refl
text-word_of_ident ww_fixity h = refl
text-word_of_ident ww_once h = refl
text-word_of_ident ww_own h = refl
text-word_of_ident ww_lend h = refl
text-word_of_ident ww_copy h = refl
text-word_of_ident ww_left h = refl
text-word_of_ident ww_right h = refl
text-word_of_ident ww_tighter h = refl
text-word_of_ident ww_looser h = refl
text-word_of_ident ww_than h = refl
text-word_of_ident ww_row h = refl
text-word_of_ident ww_eff h = refl
text-word_of_ident ww_plus h = cc
