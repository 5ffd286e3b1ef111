-- ===== src/Diag/Cap.antt =====
-- grammar/c/wok_diag.c: the cap on what the sink records.
use wokml.Prelude.{
  ℕ, ◌≡◌, ◌≢◌, ◌≤◌, refl, sym, subst, ◌∙◌, true, false, ◌&&◌, List, [], ◌∷◌, ◌++◌, All, length,
  length-append, leb, ltb, ◌==◌, Bool-cases, inl, inr, arith,
}
use wokml.Diag.{
  WokDiagCode, WokDiag, WokDiagSink, Message, message, e_too_many, diag_cap, diag_count, diag_new,
  diag_grow, diag_append, diag_add,
}

abbrev pub IsFault : WokDiag → Type 0
IsFault d = d.code ≢ e_too_many

-- At most 20 faults, or 20 faults and E-TOO-MANY behind them.
pub data Recorded (s : WokDiagSink) : Type 0 where
  listening :
      s.too_many_emitted ≡ false → length s.diags ≤ diag_cap → All IsFault s.diags → Recorded s
  closed :
      (faults : List WokDiag) (last : WokDiag)
      → s.too_many_emitted ≡ true
      → s.diags ≡ faults ++ last ∷ []
      → length faults ≡ diag_cap
      → All IsFault faults
      → last.code ≡ e_too_many
      → Recorded s

-- One call of `wok_diag_add`.
pub record Fault : Type 0 where
  pub code : WokDiagCode
  pub off : ℕ
  pub len : ℕ
  pub msg : Message

abbrev pub add_fault : WokDiagSink → Fault → WokDiagSink
add_fault s f = diag_add s f.code f.off f.len f.msg

abbrev pub add_faults : WokDiagSink → List Fault → WokDiagSink
add_faults s [] = s
add_faults s (f ∷ fs) = add_faults (add_fault s f) fs

All-snoc :
    (ds : List WokDiag) (d : WokDiag) → All IsFault ds → IsFault d → All IsFault (ds ++ d ∷ [])
All-snoc [] d h k = (k, tt)
All-snoc (x ∷ ds) d h k = (h.0, All-snoc ds d h.1 k)

abbrev entry : WokDiagCode → (off len : ℕ) → Message → WokDiag
entry code off len msg = record { code = code; off = off; len = len; msg = msg }

-- What `wok_diag_append` does to the list, and to the flag.
append-diags :
    (s : WokDiagSink) (code : WokDiagCode) (off len : ℕ) (msg : Message)
    → (diag_append s code off len msg).diags ≡ s.diags ++ entry code off len msg ∷ []
unfolding diag_append diag_grow
append-diags s code off len msg = elim (Bool-cases (ltb (diag_count s) s.capacity)) [
  | inl h ↦ rw h refl
  | inr h ↦ rw h refl
]

append-flag :
    (s : WokDiagSink) (code : WokDiagCode) (off len : ℕ) (msg : Message)
    → (diag_append s code off len msg).too_many_emitted ≡ s.too_many_emitted
unfolding diag_append diag_grow
append-flag s code off len msg = elim (Bool-cases (ltb (diag_count s) s.capacity)) [
  | inl h ↦ rw h refl
  | inr h ↦ rw h refl
]

module _ (s : WokDiagSink) (code : WokDiagCode) (off len : ℕ) (msg : Message) where
  add_room :
      s.too_many_emitted ≡ false
      → length s.diags ≤ 19
      → All IsFault s.diags
      → code ≢ e_too_many
      → Recorded (diag_append s code off len msg)
  add_room e le all ne =
      let d = append-diags s code off len msg in
      listening (append-flag s code off len msg ∙ e)
        (rw d (omega (arith, length-append s.diags (entry code off len msg ∷ []))))
        (rw d (All-snoc s.diags (entry code off len msg) all ne))

  add_last :
      s.too_many_emitted ≡ true
      → length s.diags ≡ 20
      → All IsFault s.diags
      → code ≡ e_too_many
      → Recorded (diag_append s code off len msg)
  add_last e le all ne =
      closed s.diags (entry code off len msg) (append-flag s code off len msg ∙ e)
        (append-diags s code off len msg) le all ne

  add-dropped :
      s.too_many_emitted ≡ false
      → leb diag_cap (diag_count s) ≡ false
      → (s.has_last_off && off == s.last_off) ≡ true
      → diag_add s code off len msg ≡ s
  unfolding diag_add
  add-dropped e room same = rw (e, room, same) refl

  add-recorded :
      s.too_many_emitted ≡ false
      → leb diag_cap (diag_count s) ≡ false
      → (s.has_last_off && off == s.last_off) ≡ false
      → diag_add s code off len msg ≡ diag_append s code off len msg
  unfolding diag_add
  add-recorded e room new = rw (e, room, new) refl

  add-last :
      s.too_many_emitted ≡ false
      → leb diag_cap (diag_count s) ≡ true
      → diag_add s code off len msg
        ≡ diag_append
            (record s { too_many_emitted = true })
            e_too_many
            off
            0
            (message "too many errors; stopping here" [])
  unfolding diag_add
  add-last e full = rw (e, full) refl

  add-ignored : s.too_many_emitted ≡ true → diag_add s code off len msg ≡ s
  unfolding diag_add
  add-ignored e = rw e refl

diag_add-Recorded :
    (s : WokDiagSink) (code : WokDiagCode) (off len : ℕ) (msg : Message)
    → code ≢ e_too_many
    → Recorded s
    → Recorded (diag_add s code off len msg)
diag_add-Recorded s code off len msg ne (closed faults last e d n all k) =
    subst Recorded (sym (add-ignored s code off len msg e)) (closed faults last e d n all k)
diag_add-Recorded s code off len msg ne (listening e n all) =
    elim (Bool-cases (leb diag_cap (diag_count s))) [
      | inl full ↦ subst Recorded (sym (add-last s code off len msg e full)) (
          add_last (record s { too_many_emitted = true }) e_too_many off 0
            (message "too many errors; stopping here" []) refl (ground arith) all refl)
      | inr room ↦ elim (Bool-cases (s.has_last_off && off == s.last_off)) [
        | inl same ↦
            subst Recorded (sym (add-dropped s code off len msg e room same)) (listening e n all)
        | inr new ↦
            subst Recorded (sym (add-recorded s code off len msg e room new))
              (add_room s code off len msg e (ground arith) all ne)
      ]
    ]

-- No fault of the list is reported under the code that the sink keeps for itself.
abbrev pub IsReported : Fault → Type 0
IsReported f = f.code ≢ e_too_many

faults-Recorded :
    (fs : List Fault) (s : WokDiagSink)
    → All IsReported fs
    → Recorded s
    → Recorded (add_faults s fs)
faults-Recorded [] s h r = r
faults-Recorded (f ∷ fs) s h r =
    faults-Recorded fs (add_fault s f) h.1 (diag_add-Recorded s f.code f.off f.len f.msg h.0 r)

-- After any calls of `wok_diag_add` from a new sink, none with the code E-TOO-MANY, the sink holds
-- at most 20 faults and listens, or holds 20 faults with E-TOO-MANY behind them, once, and is
-- closed.
pub add_faults-Recorded :
    (src : List ℕ) (fs : List Fault) → All IsReported fs → Recorded (add_faults (diag_new src) fs)
add_faults-Recorded src fs h = faults-Recorded fs (diag_new src) h (listening refl (omega arith) tt)
