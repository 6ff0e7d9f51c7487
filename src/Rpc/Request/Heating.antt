-- ===== src/Rpc/Request/Heating.antt =====
-- The requests heating.set and heating.set_auto_off_timer, from their text to the reply.
use meb_commander.Base.{
  ℕ, ◌^◌, ◌≡◌, ◌<◌, ◌≤◌, refl, ap, ◌∙◌, Bool, true, false, List, [], ◌∷◌, ◌++◌, some, arith, length,
  codes, bytes_eq,
}
use mathlib.Core.List.{append_assoc}
use meb_commander.Event.{Event}
use meb_commander.State.{AppState, get_snapshot, set_heating_enabled, set_auto_off_timer_minutes}
use meb_commander.Base.Decimal.{decimal}
use meb_commander.Console.{
  skip_ws, find_from, find_key_value, parse_bool_value, is_value_delimiter, parse_uint_value,
}
use meb_commander.Console.Number.{parse_uint_value-decimal, starts_digit}
use meb_commander.Console.Find.{find_from-plain}
use meb_commander.Ota.Platform.{Platform}
use meb_commander.Settings.{Nvs}
use meb_commander.Rpc.{json_bool}
use meb_commander.Rpc.Machine.{Reads, Build, Machine, Outcome}
use meb_commander.Rpc.Command.{dispatch, process_command}
use meb_commander.Rpc.Heating.{
  params_of, param, handle_heating_set, handle_heating_set_auto_off_timer,
}
use meb_commander.Rpc.Size.{state_reply, send_heating_state_result-whole, length-decimal}
use meb_commander.Rpc.Request.{
  after_id, request, decimal-IsPlain, starts_digit-decimal, process_command-request,
}

-- The text of a parameter object with one value.
abbrev pub enabled_params : Bool → List ℕ
enabled_params enabled = codes "{\"enabled\":" ++ (json_bool enabled ++ codes "}")

param-found :
    (cmd rest key : List ℕ)
    → find_key_value cmd (codes "params") ≡ some (b'{' ∷ rest)
    → param cmd key ≡ find_key_value (b'{' ∷ rest) key
unfolding param params_of
param-found cmd rest key found = rw (param, params_of, found) refl

-- Where nothing behind the id hides the params, a parameter is looked up in those of the request.
param-request :
    (id : ℕ) (method params rest key : List ℕ)
    → find_from (codes "\"params\"") 0 (after_id method params) ≡ some (b'{' ∷ rest)
    → param (request id method params) key ≡ find_key_value (b'{' ∷ rest) key
unfolding request find_key_value codes
param-request id method params rest key found = param-found (request id method params) rest key (
    find_from-plain (codes "params\"") (decimal id) (after_id method params) (decimal-IsPlain id)
    ∙ found)

enabled-request :
    (id : ℕ) (enabled : Bool)
    → parse_bool_value
        (param (request id (codes "heating.set") (enabled_params enabled)) (codes "enabled"))
      ≡ some enabled
unfolding parse_bool_value find_key_value find_from codes json_bool
enabled-request id true =
    ap parse_bool_value
      (param-request id (codes "heating.set") (enabled_params true) _ (codes "enabled") refl)
enabled-request id false =
    ap parse_bool_value
      (param-request id (codes "heating.set") (enabled_params false) _ (codes "enabled") refl)

abbrev pub minutes_params : ℕ → List ℕ
minutes_params minutes = codes "{\"minutes\":" ++ (decimal minutes ++ codes "}")

skip_ws-digit :
    (text rest : List ℕ) → starts_digit text ≡ true → skip_ws (text ++ rest) ≡ text ++ rest
unfolding skip_ws
skip_ws-digit [] rest d = ground (arith, d)
skip_ws-digit (c ∷ text) rest d = ground (arith, d)

minutes-request :
    (id minutes : ℕ)
    → minutes < 2 ^ 32
    → parse_uint_value (
        param
          (request id (codes "heating.set_auto_off_timer") (minutes_params minutes))
          (codes "minutes"))
      ≡ some minutes
unfolding find_key_value find_from codes is_value_delimiter
minutes-request id minutes h =
    ap parse_uint_value (
      param-request id (codes "heating.set_auto_off_timer") (minutes_params minutes) _
        (codes "minutes") refl)
    ∙ ap (λ (t : List ℕ). parse_uint_value (some (skip_ws t)))
        (append_assoc (decimal minutes) (codes "}") (codes "}"))
    ∙ ap (λ (t : List ℕ). parse_uint_value (some t))
        (skip_ws-digit (decimal minutes) (codes "}}") (starts_digit-decimal minutes))
    ∙ parse_uint_value-decimal minutes (codes "}}") h refl

module _ (P : Platform) (N : Nvs) (build : Build) (reads : Reads) where
  -- What a command does that sets the state to `changed` and answers with it.
  abbrev pub state_set : List ℕ → AppState × List Event → Machine P N → Outcome P N
  state_set id_token (changed, recorded) m = record {
    machine = record m { state = changed };
    events = recorded;
    lines = state_reply id_token (get_snapshot build.safety reads.snapshot_us changed) ∷ [];
  }

  dispatch-heating_set :
      (token cmd : List ℕ) (m : Machine P N)
      → dispatch P N build reads (codes "heating.set") true token cmd m
        ≡ handle_heating_set P N build reads true token cmd m
  unfolding dispatch bytes_eq codes
  dispatch-heating_set token cmd m = refl

  dispatch-set_auto_off_timer :
      (token cmd : List ℕ) (m : Machine P N)
      → dispatch P N build reads (codes "heating.set_auto_off_timer") true token cmd m
        ≡ handle_heating_set_auto_off_timer P N build reads true token cmd m
  unfolding dispatch bytes_eq codes
  dispatch-set_auto_off_timer token cmd m = refl

  handle_heating_set-enabled :
      (enabled : Bool) (token cmd : List ℕ) (m : Machine P N)
      → length token ≤ 63
      → m.state.state.auto_off_timer_minutes < 2 ^ 32
      → parse_bool_value (param cmd (codes "enabled")) ≡ some enabled
      → handle_heating_set P N build reads true token cmd m
        ≡ state_set token (set_heating_enabled enabled reads.set_us m.state) m
  unfolding handle_heating_set set_heating_enabled
  handle_heating_set-enabled enabled token cmd m h k found =
      let m' = record m { state = (set_heating_enabled enabled reads.set_us m.state).0 } in
      rw (found, send_heating_state_result-whole P N build reads token m' h k) refl

  handle_heating_set_auto_off_timer-minutes :
      (minutes : ℕ) (token cmd : List ℕ) (m : Machine P N)
      → length token ≤ 63
      → minutes < 2 ^ 32
      → parse_uint_value (param cmd (codes "minutes")) ≡ some minutes
      → handle_heating_set_auto_off_timer P N build reads true token cmd m
        ≡ state_set token (set_auto_off_timer_minutes minutes reads.set_us m.state) m
  unfolding handle_heating_set_auto_off_timer set_auto_off_timer_minutes
  handle_heating_set_auto_off_timer-minutes minutes token cmd m h k found =
      let m' = record m { state = (set_auto_off_timer_minutes minutes reads.set_us m.state).0 } in
      rw (found, send_heating_state_result-whole P N build reads token m' h k) refl

  -- A heating.set request with an id of at most 63 digits switches heating as it says, records what
  -- that records, changes nothing else, and is answered with its id and the whole new state.
  pub process_command-heating_set :
      (id : ℕ) (enabled : Bool) (m : Machine P N)
      → id < 10 ^ 63
      → m.state.state.auto_off_timer_minutes < 2 ^ 32
      → process_command P N build reads
          (request id (codes "heating.set") (enabled_params enabled))
          m
        ≡ state_set (decimal id) (set_heating_enabled enabled reads.set_us m.state) m
  unfolding codes
  process_command-heating_set id enabled m h k =
      let cmd = request id (codes "heating.set") (enabled_params enabled) in
      process_command-request P N build reads id (codes "heating.set") (enabled_params enabled) m h
        refl (omega arith)
      ∙ dispatch-heating_set (decimal id) cmd m
      ∙ handle_heating_set-enabled enabled (decimal id) cmd m (length-decimal 62 id h) k
          (enabled-request id enabled)

  -- A heating.set_auto_off_timer request with an id of at most 63 digits and a number of minutes
  -- below 2 ^ 32 sets the timer to it, records what that records, changes nothing else, and is
  -- answered with its id and the whole new state.
  pub process_command-set_auto_off_timer :
      (id minutes : ℕ) (m : Machine P N)
      → id < 10 ^ 63
      → minutes < 2 ^ 32
      → process_command P N build reads
          (request id (codes "heating.set_auto_off_timer") (minutes_params minutes))
          m
        ≡ state_set (decimal id) (set_auto_off_timer_minutes minutes reads.set_us m.state) m
  unfolding codes
  process_command-set_auto_off_timer id minutes m h k =
      let cmd = request id (codes "heating.set_auto_off_timer") (minutes_params minutes) in
      process_command-request P N build reads id (codes "heating.set_auto_off_timer")
        (minutes_params minutes) m h refl (omega arith)
      ∙ dispatch-set_auto_off_timer (decimal id) cmd m
      ∙ handle_heating_set_auto_off_timer-minutes minutes (decimal id) cmd m
          (length-decimal 62 id h) k (minutes-request id minutes k)
