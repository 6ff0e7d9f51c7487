-- ===== src/Ota/Session.antt =====
-- The update session of main/ota_update.c. An operation runs on the static `s_ota` and the platform's
-- world, and returns early with an error; what it has changed by then stays changed. The commands
-- that call it run one after another.
pub mod Outcome
pub mod Finish
pub mod Invariant
pub mod Integrity
use meb_commander.Base.{
  ℕ, ◌+◌, ◌-◌, ◌*◌, ◌/◌, ◌%◌, ◌^◌, Bool, true, false, not, ◌&&◌, ◌||◌, List, [], ◌∷◌, Option, none,
  some, ltb, leb, ◌==◌, if◌then◌else◌, length, take, bytes_eq,
}
use meb_commander.Esp.{
  EspErr, esp_ok, esp_fail, no_mem, invalid_arg, invalid_state, invalid_size, not_found,
  ota_checksum, ota_protocol, other, is_ok, Result, ok, err,
}
use meb_commander.Ota.{parse_sha256, decode_base64}
use meb_commander.Ota.Platform.{Platform, Partition}

abbrev pub max_base64_chars : ℕ
max_base64_chars = 768

-- ota_update_state_t
pub record OtaState (Ctx : Type 0) : Type 0 where
  pub active : Bool
  pub pending_reboot : Bool
  pub handle : ℕ
  pub partition : Option Partition
  pub expected_size : ℕ
  pub written : ℕ
  pub has_sha256 : Bool
  pub expected_sha256 : List ℕ
  pub sha256_ctx : Ctx

-- meb_ota_status_t
pub record OtaStatus : Type 0 where
  pub active : Bool
  pub pending_reboot : Bool
  pub expected_size : ℕ
  pub written : ℕ
  pub partition_size : ℕ
  pub has_sha256 : Bool
  pub partition_label : List ℕ

module _ (P : Platform) where
  open P use {
    World, Ctx, zero_ctx, next_update_partition, running_partition, ota_begin, ota_write, ota_abort,
    ota_end, set_boot_partition, sha256_init, sha256_update, sha256_final,
  }

  pub record Device : Type 0 where
    pub ota : OtaState Ctx
    pub world : World

  -- `memset(&s_ota, 0, sizeof(s_ota))`
  unfoldable pub cleared : OtaState Ctx
  cleared = record {
    active = false;
    pending_reboot = false;
    handle = 0;
    partition = none;
    expected_size = 0;
    written = 0;
    has_sha256 = false;
    expected_sha256 = [];
    sha256_ctx = zero_ctx;
  }

  unfoldable pub abort_active_update : Device → Device
  unfolding cleared
  abort_active_update d = record {
    ota = cleared;
    world = if d.ota.active then (ota_abort d.ota.handle d.world).1 else d.world;
  }

  -- From `esp_ota_begin` on, with the partition and the digest that were read.
  unfoldable pub begin_on : ℕ → List ℕ → Partition → Device → EspErr × Device
  unfolding cleared abort_active_update
  begin_on size sha partition d =
      let (begun, handle, world) = ota_begin partition d.world in
      if not (is_ok begun)
      then (begun, record d { world = world })
      else let started : OtaState Ctx = record cleared {
        active = true;
        handle = handle;
        partition = some partition;
        expected_size = size;
        has_sha256 = true;
        expected_sha256 = sha;
      } in
        elim (sha256_init zero_ctx) [
          | none ↦ (esp_fail, abort_active_update (record { ota = started; world = world }))
          | some ctx ↦ (esp_ok, record { ota = record started { sha256_ctx = ctx }; world = world })
        ]

  -- meb_ota_update_begin
  unfoldable pub update_begin : ℕ → Option (List ℕ) → Device → EspErr × Device
  unfolding begin_on
  update_begin size sha256_hex d =
      if d.ota.active || d.ota.pending_reboot
      then (invalid_state, d)
      else if size == 0
      then (invalid_size, d)
      else elim (parse_sha256 sha256_hex) [
        | err e ↦ (e, d)
        | ok sha ↦ elim (next_update_partition d.world) [
          | none ↦ (not_found, d)
          | some partition ↦
              if ltb partition.size size then (invalid_size, d) else begin_on size sha partition d
        ]
      ]

  -- From the size check of the decoded bytes on.
  unfoldable pub write_bytes : List ℕ → Device → EspErr × ℕ × Device
  write_bytes decoded d =
      if ltb d.ota.expected_size ((d.ota.written + length decoded) % 2 ^ 32)
      then (invalid_size, 0, d)
      else let (e, world) = ota_write d.ota.handle decoded d.world in
        if not (is_ok e)
        then (e, 0, record d { world = world })
        else elim (sha256_update d.ota.sha256_ctx decoded) [
          | none ↦ (esp_fail, 0, record d { world = world })
          | some ctx ↦ (
            esp_ok,
            length decoded,
            record {
              ota = record (d.ota) {
                sha256_ctx = ctx;
                written = (d.ota.written + length decoded) % 2 ^ 32;
              };
              world = world;
            },
          )
        ]

  -- meb_ota_update_write; the number is `*decoded_len`.
  unfoldable pub update_write : ℕ → Option (List ℕ) → Device → EspErr × ℕ × Device
  unfolding write_bytes
  update_write offset base64_data d =
      if not d.ota.active then (invalid_state, 0, d) else elim base64_data [
        | none ↦ (ota_protocol, 0, d)
        | some text ↦
            if not (offset == d.ota.written)
            then (ota_protocol, 0, d)
            else if length text == 0 || ltb max_base64_chars (length text)
            then (invalid_size, 0, d)
            else elim (decode_base64 text (max_base64_chars / 4 * 3)) [
              | err e ↦ (e, 0, d)
              | ok decoded ↦ write_bytes decoded d
            ]
      ]

  -- `esp_ota_set_boot_partition` of the session's partition, which refuses a null pointer.
  unfoldable pub boot_from : Option Partition → World → EspErr × World
  boot_from none world = (invalid_arg, world)
  boot_from (some partition) world = set_boot_partition partition world

  -- From `esp_ota_end` on, with the digest found right.
  unfoldable pub finish : Device → EspErr × Device
  unfolding cleared abort_active_update boot_from
  finish d =
      let (ended, world) = ota_end d.ota.handle d.world in
      if not (is_ok ended)
      then (ended, abort_active_update (record d { world = world }))
      else let (set, world') = boot_from d.ota.partition world in
        if not (is_ok set) then (set, record { ota = cleared; world = world' }) else (
          esp_ok,
          record { ota = record (d.ota) { pending_reboot = true; active = false }; world = world' },
        )

  -- meb_ota_update_end
  unfoldable pub update_end : Device → EspErr × Device
  unfolding finish abort_active_update
  update_end d =
      if not d.ota.active
      then (invalid_state, d)
      else if not (d.ota.written == d.ota.expected_size)
      then (invalid_size, d)
      else elim (sha256_final d.ota.sha256_ctx) [
        | none ↦ (esp_fail, abort_active_update d)
        | some actual ↦
            if bytes_eq actual d.ota.expected_sha256
            then finish d
            else (ota_checksum, abort_active_update d)
      ]

  -- meb_ota_update_cancel
  unfoldable pub update_cancel : Device → EspErr × Device
  unfolding cleared abort_active_update
  update_cancel d =
      if d.ota.active
      then (esp_ok, abort_active_update d)
      else if d.ota.pending_reboot
      then elim (running_partition d.world) [
        | none ↦ (not_found, d)
        | some running ↦
            let (set, world) = set_boot_partition running d.world in
            if not (is_ok set)
            then (set, record d { world = world })
            else (esp_ok, record { ota = cleared; world = world })
      ]
      else (invalid_state, d)

  -- meb_ota_update_get_status
  unfoldable pub get_status : Device → OtaStatus
  get_status d = record {
    active = d.ota.active;
    pending_reboot = d.ota.pending_reboot;
    expected_size = d.ota.expected_size;
    written = d.ota.written;
    has_sha256 = d.ota.has_sha256;
    partition_size = elim d.ota.partition [ none ↦ 0 | some p ↦ p.size ];
    partition_label = elim d.ota.partition [ none ↦ [] | some p ↦ take 16 p.label ];
  }
