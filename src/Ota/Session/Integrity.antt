-- ===== src/Ota/Session/Integrity.antt =====
-- What an update session of main/ota_update.c puts into the flash when it succeeds.
use meb_commander.Base.{
  ℕ, ◌≡◌, ◌<◌, ◌^◌, true, List, [], ◌∷◌, ◌++◌, Option, some, arith, length, length-append, ◌∙◌, ap,
  sym,
}
use meb_commander.Esp.{EspErr, esp_ok, ok}
use meb_commander.Ota.{parse_sha256}
use meb_commander.Ota.Bounds.{decode_base64-bounds}
use meb_commander.Ota.Platform.{Platform, Partition, Laws}
use meb_commander.Ota.Session.{OtaState, Device, update_begin, update_write, update_end}
use meb_commander.Ota.Session.Outcome.{
  WriteOutcome, refused, not_flashed, not_hashed, accepted, update_write-WriteOutcome,
}
use meb_commander.Ota.Session.Finish.{Begun, update_begin-Begun, update_end-Ended}
use meb_commander.Ota.Session.Invariant.{IsValid, update_begin-IsValid, update_write-IsValid}

module _ (P : Platform) where
  -- Chunks as they come, accepted or not.
  unfoldable pub write_all : List (ℕ × Option (List ℕ)) → Device P → Device P
  write_all [] d = d
  write_all ((offset, text) ∷ chunks) d = write_all chunks (update_write P offset text d).2

module _ (P : Platform) (L : Laws P) where
  open P use {next_update_partition}
  open L use {Image, Hashed, digest}

  -- Flash and digest have taken the same bytes, as many as the session counts, for the size and the
  -- digest that were announced.
  pub record Tracks (size : ℕ) (sha : List ℕ) (d : Device P) (bytes : List ℕ) : Type 0 where
    pub flashed : Image d.world d.ota.handle bytes
    pub hashed : Hashed d.ota.sha256_ctx bytes
    pub counted : d.ota.written ≡ length bytes
    pub announced : d.ota.expected_size ≡ size
    pub expected : d.ota.expected_sha256 ≡ sha

  update_begin-Tracks :
      (size : ℕ) (hex : Option (List ℕ)) (d d' : Device P)
      → Begun P size hex d d'
      → (sha : List ℕ) × (parse_sha256 hex ≡ ok sha) × Tracks size sha d' []
  update_begin-Tracks size hex d d' b = (
    b.sha,
    b.parsed,
    record {
      flashed =
          rw (ap (λ (s : OtaState P.Ctx). s.handle) b.state)
            (L.image_begin b.partition d.world d'.world b.handle b.opened);
      hashed =
          rw (ap (λ (s : OtaState P.Ctx). s.sha256_ctx) b.state)
            (L.hashed_init P.zero_ctx b.ctx b.started);
      counted = ap (λ (s : OtaState P.Ctx). s.written) b.state;
      announced = ap (λ (s : OtaState P.Ctx). s.expected_size) b.state;
      expected = ap (λ (s : OtaState P.Ctx). s.expected_sha256) b.state;
    },
  )

  update_write-Tracks :
      (size : ℕ) (sha : List ℕ) (offset : ℕ) (text : Option (List ℕ)) (d : Device P)
      (bytes : List ℕ)
      → IsValid d.ota
      → Tracks size sha d bytes
      → (bytes' : List ℕ) × Tracks size sha (update_write P offset text d).2 bytes'
  update_write-Tracks size sha offset text d bytes v t =
      go (update_write-WriteOutcome P offset text d)
    where
      go :
          {r : EspErr × ℕ × Device P}
          → WriteOutcome P offset text d r
          → (bytes' : List ℕ) × Tracks size sha r.2 bytes'
      go (refused e bad p) = (bytes, rw p t)
      go (not_flashed more e w bad wrote p) = (
        bytes,
        rw p (record {
          flashed = L.image_kept d.world w d.ota.handle bytes more e t.flashed wrote bad;
          hashed = t.hashed;
          counted = t.counted;
          announced = t.announced;
          expected = t.expected;
        }),
      )
      go (not_hashed more w lost p) = absurd (L.hashed_total d.ota.sha256_ctx more lost)
      go (accepted chars more w c same act off dec room wrote hashed p) =
          let size = (decode_base64-bounds chars more 576 dec).0 in
          (
            bytes ++ more,
            rw p (record {
              flashed = L.image_write d.world w d.ota.handle bytes more t.flashed wrote;
              hashed = L.hashed_update d.ota.sha256_ctx c bytes more t.hashed hashed;
              counted = omega (arith, length-append bytes more, v.within act, v.small, t.counted);
              announced = t.announced;
              expected = t.expected;
            }),
          )

  write_all-Tracks :
      (size : ℕ) (sha : List ℕ) (chunks : List (ℕ × Option (List ℕ))) (d : Device P)
      (bytes : List ℕ)
      → IsValid d.ota
      → Tracks size sha d bytes
      → (bytes' : List ℕ) × Tracks size sha (write_all P chunks d) bytes'
  unfolding write_all
  write_all-Tracks size sha [] d bytes v t = (bytes, t)
  write_all-Tracks size sha ((offset, text) ∷ chunks) d bytes v t =
      let (bytes', t') = update_write-Tracks size sha offset text d bytes v t in
      write_all-Tracks size sha chunks (update_write P offset text d).2 bytes'
        (update_write-IsValid P offset text d v) t'

  -- If a session begins, takes any chunks, refused ones among them, and ends with ESP_OK, the bytes
  -- written through its handle are of the announced size and have the announced SHA-256 digest. The
  -- laws of the platform are assumed, and an update partition below 2 ^ 31 bytes.
  pub update_integrity :
      (size : ℕ) (hex : Option (List ℕ)) (chunks : List (ℕ × Option (List ℕ))) (d : Device P)
      → IsValid d.ota
      → ((p : Partition) → next_update_partition d.world ≡ some p → p.size < 2 ^ 31)
      → (update_begin P size hex d).0 ≡ esp_ok
      → (update_end P (write_all P chunks (update_begin P size hex d).1)).0 ≡ esp_ok
      → let full = write_all P chunks (update_begin P size hex d).1 in
        (image : List ℕ) × Image full.world full.ota.handle image
        × (length image ≡ size)
        × (parse_sha256 hex ≡ ok (digest image))
        × ((update_end P full).1.ota.pending_reboot ≡ true)
  update_integrity size hex chunks d v small begun ended =
      let full = write_all P chunks (update_begin P size hex d).1 in
      let (sha, parsed, start) =
        update_begin-Tracks size hex d _ (update_begin-Begun P size hex d begun) in
      let (image, t) =
        write_all-Tracks size sha chunks (update_begin P size hex d).1 []
          (update_begin-IsValid P size hex d small v) start in
      let e = update_end-Ended P full ended in
      (
        image,
        t.flashed,
        sym t.counted ∙ e.complete ∙ t.announced,
        parsed
            ∙ ap ok (
                sym t.expected
                ∙ sym e.matches
                ∙ L.hashed_final full.ota.sha256_ctx image e.sum t.hashed e.summed),
        ap (λ (s : OtaState P.Ctx). s.pending_reboot) e.state,
      )
