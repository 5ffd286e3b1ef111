-- ===== src/Diag/Tests.antt =====
-- The theorems about the sink at concrete sources and faults.
use wokml.Prelude.{◌≡◌, refl, [], ◌∷◌, arith}
use wokml.Diag.{WokDiagSink, diag_new, message, e_parse}
use wokml.Diag.Position.{position, position-newlines}
use wokml.Diag.Cap.{Fault, Recorded, add_faults, add_faults-Recorded}

-- Two lines: ab and c.
abbrev two_lines : WokDiagSink
two_lines = diag_new (97 ∷ 98 ∷ 10 ∷ 99 ∷ 10 ∷ [])

position-newlines_example : (position two_lines 3).0 ≡ 2
position-newlines_example = position-newlines two_lines 3 refl (omega arith)

abbrev fault_at_3 : Fault
fault_at_3 = record { code = e_parse; off = 3; len = 1; msg = message "expected an item" [] }

add_faults-Recorded_example :
    Recorded (add_faults (diag_new (97 ∷ [])) (fault_at_3 ∷ fault_at_3 ∷ []))
add_faults-Recorded_example =
    add_faults-Recorded (97 ∷ []) (fault_at_3 ∷ fault_at_3 ∷ []) ((λ e. cc), ((λ e. cc), tt))
