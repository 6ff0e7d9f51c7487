-- ===== src/Telemetry/Size.antt =====
-- The telemetry line of main/control.c fits its buffer.
use meb_commander.Base.{ℕ, ◌/◌, ◌^◌, ◌≡◌, ◌<◌, ◌≤◌, refl, List, codes, length, arith, All}
use meb_commander.Base.Decimal.{decimal}
use meb_commander.State.{Snapshot, AppState, get_snapshot, invalidate_stale_can_signals}
use meb_commander.Config.{Safety}
use meb_commander.Rpc.{format_number_or_null, format_double_or_null, serial_printf, output_buf_size}
use meb_commander.Rpc.Size.{
  ◌◂◌, length-decimal, length-snprintf, length-json_bool, length-texts, lt→leb_false,
}
use meb_commander.Telemetry.{
  telemetry_parts, telemetry_line, telemetry_print, format_signed_or_null,
}

telemetry_line-fits :
    (s : Snapshot) (now_us : ℕ)
    → now_us < 2 ^ 63
    → s.auto_off_timer_minutes < 2 ^ 32
    → length (telemetry_line s now_us) < output_buf_size
unfolding telemetry_line telemetry_parts format_number_or_null format_double_or_null
    format_signed_or_null codes
telemetry_line-fits s now_us h k =
    let time : length (decimal (now_us / 1000)) ≤ 48 =
      omega (arith, length-decimal 19 (now_us / 1000) (omega (arith, h))) in
    let minutes : length (decimal s.auto_off_timer_minutes) ≤ 48 =
      omega (arith, length-decimal 9 s.auto_off_timer_minutes (omega (arith, k))) in
    let short : All (λ (t : List ℕ). length t ≤ 48) (telemetry_parts s now_us) =
      omega arith
      ◂ time
      ◂ omega arith
      ◂ length-snprintf _
      ◂ omega arith
      ◂ length-snprintf _
      ◂ omega arith
      ◂ length-snprintf _
      ◂ omega arith
      ◂ length-snprintf _
      ◂ omega arith
      ◂ length-snprintf _
      ◂ omega arith
      ◂ length-snprintf _
      ◂ omega arith
      ◂ length-snprintf _
      ◂ omega arith
      ◂ length-snprintf _
      ◂ omega arith
      ◂ length-snprintf _
      ◂ omega arith
      ◂ length-snprintf _
      ◂ omega arith
      ◂ length-snprintf _
      ◂ omega arith
      ◂ length-json_bool s.heating_enabled
      ◂ omega arith
      ◂ minutes
      ◂ omega arith
      ◂ length-snprintf _
      ◂ omega arith
      ◂ tt in
    omega (arith, length-texts (telemetry_parts s now_us) short)

-- A round prints the whole telemetry line: it is never cut at the size of the output buffer.
pub telemetry_print-whole :
    (cfg : Safety) (t t' : ℕ) (s : AppState)
    → t' < 2 ^ 63
    → s.state.auto_off_timer_minutes < 2 ^ 32
    → telemetry_print cfg t t' s ≡ telemetry_line (get_snapshot cfg t s) t'
unfolding telemetry_print serial_printf get_snapshot invalidate_stale_can_signals
telemetry_print-whole cfg t t' s h k =
    let shown = get_snapshot cfg t s in
    rw
      (lt→leb_false (length (telemetry_line shown t')) output_buf_size
        (telemetry_line-fits shown t' h k))
      refl
