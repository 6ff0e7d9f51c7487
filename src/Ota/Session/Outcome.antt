-- ===== src/Ota/Session/Outcome.antt =====
-- The ways in which the commands of an update session (main/ota_update.c) can end.
use meb_commander.Base.{
  ℕ, ◌+◌, ◌%◌, ◌^◌, ◌≡◌, ◌≢◌, refl, true, false, List, Option, none, some, arith, length, inl, inr,
  Bool-cases, Option-cases, ltb, ◌==◌, ◌||◌, ◌⊎◌, ◌≤◌, ◌∙◌, ap,
}
use meb_commander.Esp.{
  EspErr, esp_ok, esp_fail, invalid_state, invalid_size, ota_protocol, is_ok, is_ok→eq, Result, ok,
  err,
}
use meb_commander.Ota.{decode_base64}
use meb_commander.Ota.Bounds.{decode_base64-Honest}
use meb_commander.Ota.Platform.{Platform}
use meb_commander.Ota.Session.{Device, write_bytes, update_write, max_base64_chars}

pub Result-cases {ℓ} :
    {A : Type ℓ} (r : Result A) → ((a : A) × (r ≡ ok a)) ⊎ ((e : EspErr) × (r ≡ err e))
Result-cases (ok a) = inl (a, refl)
Result-cases (err e) = inr (e, refl)

is_ok-ne : (e : EspErr) → is_ok e ≡ false → e ≢ esp_ok
is_ok-ne e h = λ k. ground arith

module _ (P : Platform) where
  open P use {
    World, Ctx, ota_write, ota_end, ota_begin, sha256_init, sha256_update, sha256_final, zero_ctx,
    next_update_partition,
  }

  -- A chunk is refused and changes nothing; or the flash, or the digest, does not take it, and only
  -- the world changes; or it is accepted.
  pub data WriteOutcome (offset : ℕ) (text : Option (List ℕ)) (d : Device P)
      (r : EspErr × ℕ × Device P) : Type 0 where
    refused : (e : EspErr) → e ≢ esp_ok → r ≡ (e, 0, d) → WriteOutcome offset text d r
    not_flashed :
        (bytes : List ℕ) (e : EspErr) (w : World)
        → e ≢ esp_ok
        → ota_write d.ota.handle bytes d.world ≡ (e, w)
        → r ≡ (e, 0, record d { world = w })
        → WriteOutcome offset text d r
    not_hashed :
        (bytes : List ℕ) (w : World)
        → sha256_update d.ota.sha256_ctx bytes ≡ none
        → r ≡ (esp_fail, 0, record d { world = w })
        → WriteOutcome offset text d r
    accepted :
        (chars bytes : List ℕ) (w : World) (c : Ctx)
        → text ≡ some chars
        → d.ota.active ≡ true
        → offset ≡ d.ota.written
        → decode_base64 chars 576 ≡ ok bytes
        → (d.ota.written + length bytes) % 2 ^ 32 ≤ d.ota.expected_size
        → ota_write d.ota.handle bytes d.world ≡ (esp_ok, w)
        → sha256_update d.ota.sha256_ctx bytes ≡ some c
        → r ≡ (
          esp_ok,
          length bytes,
          record {
            ota = record (d.ota) {
              sha256_ctx = c;
              written = (d.ota.written + length bytes) % 2 ^ 32;
            };
            world = w;
          },
        )
        → WriteOutcome offset text d r

  write_bytes-WriteOutcome :
      (offset : ℕ) (chars bytes : List ℕ) (d : Device P)
      → d.ota.active ≡ true
      → offset ≡ d.ota.written
      → decode_base64 chars 576 ≡ ok bytes
      → WriteOutcome offset (some chars) d (write_bytes P bytes d)
  unfolding write_bytes
  write_bytes-WriteOutcome offset chars bytes d act off dec =
      elim (Bool-cases (ltb d.ota.expected_size ((d.ota.written + length bytes) % 2 ^ 32))) [
        | inl over ↦ refused invalid_size (λ k. ground arith) (rw over)
        | inr room ↦ elim (Bool-cases (is_ok flashed.0)) [
          | inr bad ↦
              not_flashed bytes flashed.0 flashed.1 (is_ok-ne flashed.0 bad) refl (rw (room, bad))
          | inl good ↦ elim (Option-cases (sha256_update d.ota.sha256_ctx bytes)) [
            | inl lost ↦ not_hashed bytes flashed.1 lost (rw (room, good, lost))
            | inr (c, hashed) ↦
                accepted chars bytes flashed.1 c refl act off dec (ground arith)
                  (ground (arith, is_ok→eq flashed.0 good)) hashed (rw (room, good, hashed))
          ]
        ]
      ]
    where
      flashed : EspErr × World
      flashed = ota_write d.ota.handle bytes d.world

  pub update_write-WriteOutcome :
      (offset : ℕ) (text : Option (List ℕ)) (d : Device P)
      → WriteOutcome offset text d (update_write P offset text d)
  unfolding update_write
  update_write-WriteOutcome offset none d = elim (Bool-cases d.ota.active) [
    | inr idle ↦ refused invalid_state (λ k. ground arith) (simp idle)
    | inl act ↦ refused ota_protocol (λ k. ground arith) (simp act)
  ]
  update_write-WriteOutcome offset (some chars) d = elim (Bool-cases d.ota.active) [
    | inr idle ↦ refused invalid_state (λ k. ground arith) (simp idle)
    | inl act ↦ elim (Bool-cases (offset == d.ota.written)) [
      | inr off ↦ refused ota_protocol (λ k. ground arith) (simp (act, off))
      | inl off ↦ elim (Bool-cases (length chars == 0 || ltb max_base64_chars (length chars))) [
        | inl size ↦ refused invalid_size (λ k. ground arith) (simp (act, off, size))
        | inr size ↦ elim (Result-cases (decode_base64 chars 576)) [
          | inr (e, dec) ↦
              refused e (λ k. decode_base64-Honest chars 576 (dec ∙ ap err k))
                (simp (act, off, size, dec))
          | inl (bytes, dec) ↦
              simp (act, off, size, dec)
                (write_bytes-WriteOutcome offset chars bytes d act (ground arith) dec)
        ]
      ]
    ]
  ]
