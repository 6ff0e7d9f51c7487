-- ===== src/Led.antt =====
-- main/status_led.c: the colour of the status LED and the rounds of its task. The LED strip is the
-- parameter `Strip`.
use meb_commander.Base.{
  ℕ, ◌≡◌, ◌↔◌, Bool, true, ◌&&◌, not, Option, none, some, ltb, ◌==◌, if◌then◌else◌, arith,
}
use meb_commander.Config.{led_brightness}
use meb_commander.Esp.{EspErr, is_ok}
use meb_commander.State.{Snapshot}

-- rgb_t
pub record Rgb : Type 0 where
  pub red : ℕ
  pub green : ℕ
  pub blue : ℕ

unfoldable pub status_color : Snapshot → Rgb
status_color state =
    let requested = state.heating_enabled in
    let active = state.heating_status.valid && not (state.heating_status.active == 0) in
    if requested && active
    then record { red = led_brightness; green = 0; blue = 0 }
    else if requested && not active
    then record { red = led_brightness; green = led_brightness; blue = 0 }
    else if not requested && active
    then record { red = 0; green = 0; blue = led_brightness }
    else record { red = 0; green = led_brightness; blue = 0 }

unfoldable pub colors_equal : Rgb → Rgb → Bool
colors_equal a b = a.red == b.red && (a.green == b.green && a.blue == b.blue)

-- Whether a round shows the colour.
unfoldable pub is_new_color : Option Rgb → Rgb → Bool
unfolding colors_equal
is_new_color none color = true
is_new_color (some last_color) color = not (colors_equal color last_color)

-- The result of pdMS_TO_TICKS, and at least one tick.
unfoldable pub delay_ticks : ℕ → ℕ
delay_ticks ticks = if ltb 0 ticks then ticks else 1

-- Two snapshots have the same colour exactly when they agree on whether heating is enabled and on
-- whether the car reports it, in a valid signal, as active.
pub status_color-same :
    (a b : Snapshot)
    → let active_a = a.heating_status.valid && not (a.heating_status.active == 0) in
      let active_b = b.heating_status.valid && not (b.heating_status.active == 0) in
      (colors_equal (status_color a) (status_color b) ≡ true)
      ↔ ((a.heating_enabled ≡ b.heating_enabled) × (active_a ≡ active_b))
unfolding status_color colors_equal
status_color-same a b = (λ h. ground arith, λ h. ground arith)

-- led_strip_set_pixel followed by led_strip_refresh, each of which may fail, and what the strip
-- shows.
pub record Strip : Type 1 where
  pub World : Type 0
  pub set_pixel : ℕ → Rgb → World → EspErr × World
  pub refresh : World → EspErr × World

module _ (L : Strip) where
  open L use {World}

  unfoldable pub show_color : Rgb → World → EspErr × World
  show_color color world =
      let (e, world') = L.set_pixel 0 color world in
      if is_ok e then L.refresh world' else (e, world')

  -- One round of `led_task` with `last_color` where `has_last_color` holds. Where the strip fails,
  -- ESP_ERROR_CHECK aborts the firmware, and there is no result.
  unfoldable pub led_round : Snapshot → Option Rgb → World → Option (Option Rgb × World)
  unfolding is_new_color show_color
  led_round state last world =
      let color = status_color state in
      let (e, world') = show_color color world in
      if is_new_color last color
      then (if is_ok e then some (some color, world') else none)
      else some (last, world)

  -- A round that comes to its end leaves the colour of its snapshot as the last one shown.
  pub led_round-shown :
      (state : Snapshot) (last last' : Option Rgb) (world world' : World)
      → led_round state last world ≡ some (last', world')
      → last' ≡ some (status_color state)
  unfolding led_round is_new_color colors_equal status_color
  led_round-shown state none last' world world' h = ground arith
  led_round-shown state (some c) last' world world' h = ground arith
