-- ===== src/Rpc/Size.antt =====
-- The sizes of the texts that main/serial_console.c and main/control.c print.
use meb_commander.Base.{
  ℕ, zero, suc, ◌+◌, ◌*◌, ◌/◌, ◌%◌, ◌^◌, ◌≡◌, ◌<◌, ◌≤◌, refl, Bool, true, false, List, [], ◌∷◌,
  ◌++◌, codes, length, length-append, length-take, arith, All, leb,
}
use meb_commander.Base.Decimal.{decimal, decimal_from}
use meb_commander.State.{Snapshot, get_snapshot, invalidate_stale_can_signals}
use meb_commander.Ota.Platform.{Platform}
use meb_commander.Settings.{Nvs}
use meb_commander.Rpc.Machine.{Reads, Build, Machine}
use meb_commander.Rpc.Heating.{
  heating_parts, heating_state, send_heating_state_result, handle_heating_get,
}
use meb_commander.Rpc.{
  snprintf, texts, json_bool, format_number_or_null, format_double_or_null, serial_printf,
  output_buf_size, result_buf_size, send_rpc_result,
}

-- A number below 10 ^ k has at most k digits, and one at least.
length-decimal_from :
    (k fuel n : ℕ) (rest : List ℕ)
    → n < 10 ^ suc k
    → length (decimal_from fuel n rest) ≤ suc k + length rest
unfolding decimal_from
length-decimal_from k zero n rest h = omega arith
length-decimal_from zero (suc fuel) n rest h = ground arith
length-decimal_from (suc k) (suc fuel) n rest h =
    let smaller : n / 10 < 10 ^ suc k = omega (arith, h) in
    ground (arith, length-decimal_from k fuel (n / 10) ((48 + n % 10) ∷ rest) smaller)

pub length-decimal : (k n : ℕ) → n < 10 ^ suc k → length (decimal n) ≤ suc k
unfolding decimal
length-decimal k n h = omega (arith, length-decimal_from k (suc n) n [] h)

pub length-snprintf : (text : List ℕ) → length (snprintf 16 text) ≤ 48
length-snprintf text = omega (arith, length-take 15 text)

pub length-json_bool : (b : Bool) → length (json_bool b) ≤ 48
unfolding json_bool codes
length-json_bool true = omega arith
length-json_bool false = omega arith

-- No piece is longer than 48 chars.
pub length-texts :
    (ts : List (List ℕ))
    → All (λ (t : List ℕ). length t ≤ 48) ts
    → length (texts ts) ≤ 48 * length ts
unfolding texts
length-texts [] a = omega arith
length-texts (t ∷ ts) (h, a) = omega (arith, length-append t (texts ts), length-texts ts a)

-- A pair, to write many in a row.
infixr 4 ◌◂◌
abbrev pub ◌◂◌ {κ ℓ} : {A : Type κ} {B : Type ℓ} → A → B → A × B
a ◂ b = (a, b)

pub lt→leb_false : (a b : ℕ) → a < b → leb b a ≡ false
lt→leb_false a b h = ground arith

heating_state-fits :
    (s : Snapshot) → s.auto_off_timer_minutes < 2 ^ 32 → length (heating_state s) ≤ 1104
unfolding heating_state heating_parts format_number_or_null format_double_or_null codes
heating_state-fits s k =
    let minutes : length (decimal s.auto_off_timer_minutes) ≤ 48 =
      omega (arith, length-decimal 9 s.auto_off_timer_minutes (omega (arith, k))) in
    let short : All (λ (t : List ℕ). length t ≤ 48) (heating_parts s) =
      omega arith
      ◂ length-json_bool s.heating_enabled
      ◂ omega arith
      ◂ length-snprintf _
      ◂ omega arith
      ◂ length-snprintf _
      ◂ omega arith
      ◂ length-snprintf _
      ◂ omega arith
      ◂ length-snprintf _
      ◂ omega arith
      ◂ length-snprintf _
      ◂ omega arith
      ◂ length-snprintf _
      ◂ omega arith
      ◂ length-snprintf _
      ◂ omega arith
      ◂ length-json_bool s.auto_off_timer_enabled
      ◂ omega arith
      ◂ minutes
      ◂ omega arith
      ◂ length-snprintf _
      ◂ omega arith
      ◂ tt in
    omega (arith, length-texts (heating_parts s) short)

-- A result of at most 1104 bytes is printed whole.
send_rpc_result-whole :
    (id result : List ℕ)
    → length id ≤ 63
    → length result ≤ 1104
    → send_rpc_result true id result
      ≡ (codes "{\"jsonrpc\":\"2.0\",\"id\":"
          ++ (id ++ (codes ",\"result\":" ++ (result ++ codes "}\n"))))
        ∷ []
unfolding send_rpc_result serial_printf codes
send_rpc_result-whole id result h k =
    let text =
      codes "{\"jsonrpc\":\"2.0\",\"id\":"
      ++ (id ++ (codes ",\"result\":" ++ (result ++ codes "}\n"))) in
    let short : length text < output_buf_size = omega (
      arith,
      length-append id (codes ",\"result\":" ++ (result ++ codes "}\n")),
      length-append result (codes "}\n"),
    ) in
    rw
      (
        lt→leb_false (length result) result_buf_size (omega (arith, k)),
        lt→leb_false (length text) output_buf_size short,
      )
      refl

-- The reply that carries a state.
abbrev pub state_reply : List ℕ → Snapshot → List ℕ
state_reply id_token shown =
    codes "{\"jsonrpc\":\"2.0\",\"id\":"
    ++ (id_token ++ (codes ",\"result\":" ++ (heating_state shown ++ codes "}\n")))

pub send_heating_state_result-whole :
    (P : Platform) (N : Nvs) (build : Build) (reads : Reads) (id_token : List ℕ) (m : Machine P N)
    → length id_token ≤ 63
    → m.state.state.auto_off_timer_minutes < 2 ^ 32
    → send_heating_state_result P N build reads true id_token m
      ≡ state_reply id_token (get_snapshot build.safety reads.snapshot_us m.state) ∷ []
unfolding send_heating_state_result get_snapshot invalidate_stale_can_signals
send_heating_state_result-whole P N build reads id_token m h k =
    let shown = get_snapshot build.safety reads.snapshot_us m.state in
    send_rpc_result-whole id_token (heating_state shown) h (heating_state-fits shown k)

-- The reply to heating.get with an id is the whole state, never an error.
pub handle_heating_get-result :
    (P : Platform) (N : Nvs) (build : Build) (reads : Reads) (id_token : List ℕ) (m : Machine P N)
    → length id_token ≤ 63
    → m.state.state.auto_off_timer_minutes < 2 ^ 32
    → (handle_heating_get P N build reads true id_token m).lines
      ≡ state_reply id_token (get_snapshot build.safety reads.snapshot_us m.state) ∷ []
unfolding handle_heating_get
handle_heating_get-result P N build reads id_token m h k =
    send_heating_state_result-whole P N build reads id_token m h k
