-- ===== src/Tests/Signals.antt =====
-- The signals of main/app_state.c in a frame.
use meb_commander.Base.{ℕ, ◌≡◌, List, [], ◌∷◌, refl}
use meb_commander.Signals.{decode_heating_status}

abbrev frame : List ℕ
frame = 0x11 ∷ 0x80 ∷ 0x02 ∷ 0x21 ∷ 0x43 ∷ 0x6c ∷ 0x88 ∷ 0x12 ∷ []

status : (decode_heating_status frame).cooling_request ≡ 3
unfolding decode_heating_status
status = refl
