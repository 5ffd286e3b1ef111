-- ===== src/Reorder/Loosest.antt =====
-- grammar/c/wok_reorder.c: what `find_loosest` finds.
use wokml.Prelude.{
  ℕ, ◌+◌, ◌≡◌, ◌⊎◌, refl, ap, ◌∙◌, subst, none, some, some-injective, List, [], ◌∷◌, ◌++◌,
  append_assoc, append-nil, ◌==◌, length, length-append, All, All-append, Bool-cases, inl, inr,
  arith, eq_of_==, ne_of_==,
}
use wokml.Diag.{WokDiagSink}
use wokml.Reorder.{
  Ro, Tail, Order, ord_tighter, ord_looser, ord_equal, ord_incomparable, compare_ops, assoc_at,
  assoc_left, find_loop, find_loosest,
}
use wokml.Reorder.Compare.{Known}
use wokml.Reorder.Under.{
  After, Before, IsOrder, moved-looser, Before-weak, After-weak, moved-equal, under-looser,
  under-equal, same_place, compare_self,
}

-- What the loop has found: an occurrence of the chain with those before and behind it.
pub record Split (ro : Ro) (whole : List Tail) (k : ℕ) : Type 0 where
  pub before : List Tail
  pub at : Tail
  pub after : List Tail
  pub same : whole ≡ before ++ (at ∷ after)
  pub place : length before ≡ k
  pub loosest_before : All (Before ro at) before
  pub loosest_after : All (After ro at) after

pub Order-cases :
    (o : Order)
    → (o ≡ ord_tighter) ⊎ ((o ≡ ord_looser) ⊎ ((o ≡ ord_equal) ⊎ (o ≡ ord_incomparable)))
Order-cases ord_tighter = inl refl
Order-cases ord_looser = inr (inl refl)
Order-cases ord_equal = inr (inr (inl refl))
Order-cases ord_incomparable = inr (inr (inr refl))

module _ (ro : Ro) (order : IsOrder ro) where
  find_loop-Split :
      (pre : List Tail) (b : Tail) (mid ts : List Tail) (best i : ℕ) (d : WokDiagSink)
      → All (Known ro) pre
      → Known ro b
      → All (Known ro) mid
      → All (Known ro) ts
      → All (Before ro b) pre
      → All (After ro b) mid
      → length pre ≡ best
      → i ≡ best + 1 + length mid
      → (k : ℕ) (d' : WokDiagSink) → find_loop ro best b i ts d ≡ (some k, d')
      → Split ro (pre ++ (b ∷ (mid ++ ts))) k
  unfolding find_loop
  find_loop-Split pre b mid [] best i d kp kb km kt bp am at_pre at_i k d' e = record {
    before = pre;
    at = b;
    after = mid;
    same = ap (λ l. pre ++ b ∷ l) (append-nil mid);
    place = at_pre ∙ some-injective best k (ap (λ r. r.0) e);
    loosest_before = bp;
    loosest_after = am;
  }
  find_loop-Split pre b mid (t ∷ ts) best i d kp kb km (kt, kts) bp am at_pre at_i k d' e =
      let stands : After ro b t
          → find_loop ro best b (i + 1) ts d ≡ (some k, d')
          → Split ro (pre ++ (b ∷ (mid ++ (t ∷ ts)))) k =
        λ aft f.
          subst (λ l. Split ro (pre ++ b ∷ l) k) (append_assoc mid (t ∷ []) ts)
            (find_loop-Split pre b (mid ++ t ∷ []) ts best (i + 1) d kp kb
              (All-append (Known ro) mid (t ∷ []) km (kt, tt)) kts bp
              (All-append (After ro b) mid (t ∷ []) am (aft, tt)) at_pre
              (omega (arith, length-append mid (t ∷ []), at_i)) k d' f) in
      let moves : All (Before ro t) (pre ++ b ∷ mid)
          → find_loop ro i t (i + 1) ts d ≡ (some k, d')
          → Split ro (pre ++ (b ∷ (mid ++ (t ∷ ts)))) k =
        λ h f.
          subst (λ l. Split ro l k) (append_assoc pre (b ∷ mid) (t ∷ ts))
            (find_loop-Split (pre ++ b ∷ mid) t [] ts i (i + 1) d
              (All-append (Known ro) pre (b ∷ mid) kp (kb, km)) kt tt kts h tt
              (omega (arith, length-append pre (b ∷ mid), at_pre, at_i)) (omega arith) k d' f) in
      elim (Order-cases (compare_ops ro t b)) [
        | inl c ↦ stands (inl c) (rw (find_loop, c) at e)
        | inr (inl c) ↦
            moves
              (All-append (Before ro t) pre (b ∷ mid)
                (moved-looser ro order b t kb kt c (Before ro b) (Before-weak ro order b) pre kp bp)
                (
                  inl (under-looser ro order b t kb kt b kb c (inr (compare_self ro order b kb))),
                  moved-looser ro order b t kb kt c (After ro b) (After-weak ro order b) mid km am,
                ))
              (rw (find_loop, c) at e)
        | inr (inr (inl c)) ↦ elim (Bool-cases (assoc_at ro b.fix_idx == assoc_left)) [
          | inl z ↦
              let left = eq_of_== _ _ z in
              let left' : assoc_at ro t.fix_idx ≡ assoc_left =
                ap (assoc_at ro) (same_place ro order b t kb kt c) ∙ left in
              moves
                (All-append (Before ro t) pre (b ∷ mid)
                  (moved-equal ro order b t kb kt c left (Before ro b) (Before-weak ro order b) pre
                    kp bp)
                  (
                    inr (under-equal ro order b t kb kt b kb c ∙ compare_self ro order b kb, left'),
                    moved-equal ro order b t kb kt c left (After ro b) (After-weak ro order b) mid
                        km am,
                  ))
                (rw (find_loop, c, z) at e)
          | inr z ↦ stands (inr (c, ne_of_== _ _ z)) (rw (find_loop, c, z) at e)
        ]
        | inr (inr (inr c)) ↦ let e' = rw (find_loop, c) at e in cc
      ]

  -- For a fixity table that is a strict order and a chain whose operators all stand in it:
  -- where `find_loosest` returns a place, the occurrence there has only tighter operators
  -- before and behind it, but for its own, which stand before it if they associate to the left
  -- and behind it otherwise.
  pub find_loosest-Split :
      (t : Tail) (ts : List Tail) (d : WokDiagSink)
      → All (Known ro) (t ∷ ts)
      → (k : ℕ) (d' : WokDiagSink) → find_loosest ro (t ∷ ts) d ≡ (some k, d')
      → Split ro (t ∷ ts) k
  unfolding find_loosest
  find_loosest-Split t ts d (kt, kts) k d' e =
      find_loop-Split [] t [] ts 0 1 d tt kt tt kts tt tt refl refl k d' e

-- An occurrence of a chain.
pub data Occurs (t : Tail) : List Tail → Type 0 where
  first : {ts : List Tail} → Occurs t (t ∷ ts)
  later : (u : Tail) {ts : List Tail} → Occurs t ts → Occurs t (u ∷ ts)

-- Two occurrences of a chain that the table does not relate.
pub record Clash (ro : Ro) (ts : List Tail) : Type 0 where
  pub one : Tail
  pub two : Tail
  pub one_occurs : Occurs one ts
  pub two_occurs : Occurs two ts
  pub unrelated : compare_ops ro one two ≡ ord_incomparable

find_loop-Clash :
    (ro : Ro) (whole : List Tail) (best : ℕ) (b : Tail) (i : ℕ) (ts : List Tail)
    (d d' : WokDiagSink)
    → Occurs b whole
    → ((x : Tail) → Occurs x ts → Occurs x whole)
    → find_loop ro best b i ts d ≡ (none, d')
    → Clash ro whole
unfolding find_loop
find_loop-Clash ro whole best b i [] d d' ob ots e =
    let f : some best ≡ none = ap (λ r. r.0) e in cc
find_loop-Clash ro whole best b i (t ∷ ts) d d' ob ots e =
    let rest : (x : Tail) → Occurs x ts → Occurs x whole = λ x o. ots x (later t o) in
    elim (Order-cases (compare_ops ro t b)) [
      | inl c ↦ find_loop-Clash ro whole best b (i + 1) ts d d' ob rest (rw (find_loop, c) at e)
      | inr (inl c) ↦
          find_loop-Clash ro whole i t (i + 1) ts d d' (ots t first) rest (rw (find_loop, c) at e)
      | inr (inr (inl c)) ↦ elim (Bool-cases (assoc_at ro b.fix_idx == assoc_left)) [
        | inl z ↦
            find_loop-Clash ro whole i t (i + 1) ts d d' (ots t first) rest
              (rw (find_loop, c, z) at e)
        | inr z ↦
            find_loop-Clash ro whole best b (i + 1) ts d d' ob rest (rw (find_loop, c, z) at e)
      ]
      | inr (inr (inr c)) ↦ record {
        one = t;
        two = b;
        one_occurs = ots t first;
        two_occurs = ob;
        unrelated = c;
      }
    ]

pub find_loosest-Clash :
    (ro : Ro) (t : Tail) (ts : List Tail) (d d' : WokDiagSink)
    → find_loosest ro (t ∷ ts) d ≡ (none, d')
    → Clash ro (t ∷ ts)
unfolding find_loosest
find_loosest-Clash ro t ts d d' e =
    find_loop-Clash ro (t ∷ ts) 0 t 1 ts d d' first (λ x o. later t o) e
