-- ===== src/Ota/Session/Invariant.antt =====
-- What holds of `s_ota` between the commands of main/ota_update.c, and what a chunk does to it.
use meb_commander.Base.{
  ℕ, ◌||◌, ◌+◌, ◌^◌, ◌≤◌, ◌<◌, ◌≡◌, ◌≢◌, refl, true, false, List, Option, none, some, arith, length,
  inl, inr, Bool-cases, Option-cases, ltb, ◌==◌,
}
use meb_commander.Esp.{EspErr, esp_ok, ok}
use meb_commander.Ota.{parse_sha256, decode_base64}
use meb_commander.Ota.Bounds.{decode_base64-bounds}
use meb_commander.Ota.Platform.{Platform, Partition}
use meb_commander.Ota.Session.Outcome.{
  Result-cases, WriteOutcome, refused, not_flashed, not_hashed, accepted, update_write-WriteOutcome,
}
use meb_commander.Ota.Session.{
  OtaState, Device, cleared, abort_active_update, begin_on, update_begin, update_write, finish,
  update_end, update_cancel,
}

-- A session never is active and waiting for the reboot at once; an active one has a partition that
-- the image fits, a size above zero, and no more bytes written than that. Sizes stay below 2 ^ 31,
-- far above any flash of the chip, so that no uint32_t sum of a session wraps.
pub record IsValid {Ctx : Type 0} (s : OtaState Ctx) : Type 0 where
  pub exclusive : s.active ≡ true → s.pending_reboot ≡ false
  pub within : s.active ≡ true → s.written ≤ s.expected_size
  pub sized : s.active ≡ true → 0 < s.expected_size
  pub small : s.expected_size < 2 ^ 31
  pub placed : s.active ≡ true → s.partition ≢ none
  pub fits : (p : Partition) → s.partition ≡ some p → s.expected_size ≤ p.size

module _ (P : Platform) where
  open P use {next_update_partition}

  pub cleared-IsValid : IsValid (cleared P)
  unfolding cleared
  cleared-IsValid = record {
    exclusive = λ h. cc;
    within = λ h. cc;
    sized = λ h. cc;
    small = omega arith;
    placed = λ h. cc;
    fits = λ p h. cc;
  }

  abort_active_update-IsValid : (d : Device P) → IsValid (abort_active_update P d).ota
  unfolding abort_active_update
  abort_active_update-IsValid d = cleared-IsValid

  begin_on-IsValid :
      (size : ℕ) (sha : List ℕ) (p : Partition) (d : Device P)
      → 0 < size
      → size ≤ p.size
      → p.size < 2 ^ 31
      → IsValid d.ota
      → IsValid (begin_on P size sha p d).1.ota
  unfolding begin_on
  begin_on-IsValid size sha p d h k l v = ground arith

  -- `meb_ota_update_begin` keeps the session valid, if the update partition is below 2 ^ 31 bytes.
  pub update_begin-IsValid :
      (size : ℕ) (hex : Option (List ℕ)) (d : Device P)
      → ((p : Partition) → next_update_partition d.world ≡ some p → p.size < 2 ^ 31)
      → IsValid d.ota
      → IsValid (update_begin P size hex d).1.ota
  unfolding update_begin
  update_begin-IsValid size hex d small v =
      elim (Bool-cases (d.ota.active || d.ota.pending_reboot)) [
        | inl busy ↦ ground arith
        | inr idle ↦ elim (Bool-cases (size == 0)) [
          | inl empty ↦ ground arith
          | inr positive ↦ elim (Result-cases (parse_sha256 hex)) [
            | inr (e, bad) ↦ ground arith
            | inl (sha, parsed) ↦ elim (Option-cases (next_update_partition d.world)) [
              | inl gone ↦ ground arith
              | inr (p, chosen) ↦ elim (Bool-cases (ltb p.size size)) [
                | inl big ↦ simp (idle, positive, parsed, chosen, big) v
                | inr fits ↦
                    simp (idle, positive, parsed, chosen, fits)
                      (begin_on-IsValid size sha p d (ground arith) (ground arith) (small p chosen)
                        v)
              ]
            ]
          ]
        ]
      ]

  -- Every chunk keeps the session valid.
  pub update_write-IsValid :
      (offset : ℕ) (text : Option (List ℕ)) (d : Device P)
      → IsValid d.ota
      → IsValid (update_write P offset text d).2.ota
  update_write-IsValid offset text d v = go (update_write-WriteOutcome P offset text d)
    where
      go : {r : EspErr × ℕ × Device P} → WriteOutcome P offset text d r → IsValid r.2.ota
      go (refused e bad p) = rw p v
      go (not_flashed bytes e w bad wrote p) = rw p v
      go (not_hashed bytes w lost p) = rw p v
      go (accepted chars bytes w c t act off dec room wrote hashed p) = rw p (ground arith)

  pub update_end-IsValid : (d : Device P) → IsValid d.ota → IsValid (update_end P d).1.ota
  unfolding update_end finish abort_active_update
  update_end-IsValid d v = ground (arith, cleared-IsValid)

  pub update_cancel-IsValid : (d : Device P) → IsValid d.ota → IsValid (update_cancel P d).1.ota
  unfolding update_cancel abort_active_update
  update_cancel-IsValid d v = ground (arith, cleared-IsValid)

  -- A chunk that is accepted continues the image: the session is active, the offset is the number of
  -- bytes written so far, the text decodes, and the count grows by the decoded bytes, which are
  -- reported, without passing the announced size. Nothing else of the session but the digest changes.
  pub update_write-accepted :
      (offset : ℕ) (text : List ℕ) (d : Device P)
      → IsValid d.ota
      → (update_write P offset (some text) d).0 ≡ esp_ok
      → let (e, n, d') = update_write P offset (some text) d in
        (bytes : List ℕ) × (decode_base64 text 576 ≡ ok bytes)
        × (d.ota.active ≡ true)
        × (offset ≡ d.ota.written)
        × (n ≡ length bytes)
        × (d'.ota ≡ record (d.ota) { written = d.ota.written + n; sha256_ctx = d'.ota.sha256_ctx })
        × (d.ota.written + n ≤ d.ota.expected_size)
  update_write-accepted offset text d v good =
      go (update_write-WriteOutcome P offset (some text) d) good
    where
      go :
          {r : EspErr × ℕ × Device P}
          → WriteOutcome P offset (some text) d r
          → r.0 ≡ esp_ok
          → (bytes : List ℕ) × (decode_base64 text 576 ≡ ok bytes)
            × (d.ota.active ≡ true)
            × (offset ≡ d.ota.written)
            × (r.1 ≡ length bytes)
            × (r.2.ota
                ≡ record (d.ota) { written = d.ota.written + r.1; sha256_ctx = r.2.ota.sha256_ctx })
            × (d.ota.written + r.1 ≤ d.ota.expected_size)
      go (refused e bad p) h = absurd (ground arith)
      go (not_flashed bytes e w bad wrote p) h = absurd (ground arith)
      go (not_hashed bytes w lost p) h = absurd (ground arith)
      go (accepted chars bytes w c t act off dec room wrote hashed p) h =
          let size = (decode_base64-bounds chars bytes 576 dec).0 in
          (bytes, ground arith, act, off, ground arith, ground arith, ground arith)

  -- A chunk that is not accepted leaves the whole session as it was, and reports no bytes.
  pub update_write-rejected :
      (offset : ℕ) (text : Option (List ℕ)) (d : Device P)
      → (update_write P offset text d).0 ≢ esp_ok
      → let (e, n, d') = update_write P offset text d in (n ≡ 0) × (d'.ota ≡ d.ota)
  update_write-rejected offset text d bad = go (update_write-WriteOutcome P offset text d) bad
    where
      go :
          {r : EspErr × ℕ × Device P}
          → WriteOutcome P offset text d r
          → r.0 ≢ esp_ok
          → (r.1 ≡ 0) × (r.2.ota ≡ d.ota)
      go (refused e k p) h = rw p (refl, refl)
      go (not_flashed bytes e w k wrote p) h = rw p (refl, refl)
      go (not_hashed bytes w lost p) h = rw p (refl, refl)
      go (accepted chars bytes w c t act off dec room wrote hashed p) h = absurd (h (ground arith))
