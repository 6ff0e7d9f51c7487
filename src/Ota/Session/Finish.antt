-- ===== src/Ota/Session/Finish.antt =====
-- When the begin and the end of an update session (main/ota_update.c) succeed.
use meb_commander.Base.{
  ℕ, ◌<◌, ◌≤◌, ◌≡◌, true, false, List, Option, some, arith, inl, inr, Bool-cases, Option-cases,
  ◌==◌, ◌||◌, bytes_eq→eq,
}
use meb_commander.Esp.{esp_ok, ok, is_ok→eq}
use meb_commander.Ota.{parse_sha256}
use meb_commander.Ota.Bounds.{parse_sha256-Honest}
use meb_commander.Ota.Platform.{Platform, Partition}
use meb_commander.Ota.Session.{Device, cleared, begin_on, update_begin, finish, update_end}
use meb_commander.Ota.Session.Outcome.{Result-cases}

module _ (P : Platform) where
  open P use {World, Ctx, ota_begin, sha256_init, sha256_final, zero_ctx, next_update_partition}

  -- What a begun session has come from.
  pub record Begun (size : ℕ) (hex : Option (List ℕ)) (d d' : Device P) : Type 0 where
    pub idle : (d.ota.active ≡ false) × (d.ota.pending_reboot ≡ false)
    pub sha : List ℕ
    pub parsed : parse_sha256 hex ≡ ok sha
    pub partition : Partition
    pub chosen : next_update_partition d.world ≡ some partition
    pub positive : 0 < size
    pub fits : size ≤ partition.size
    pub handle : ℕ
    pub opened : ota_begin partition d.world ≡ (esp_ok, handle, d'.world)
    pub ctx : Ctx
    pub started : sha256_init zero_ctx ≡ some ctx
    pub state : d'.ota ≡ record {
      active = true;
      pending_reboot = false;
      handle = handle;
      partition = some partition;
      expected_size = size;
      written = 0;
      has_sha256 = true;
      expected_sha256 = sha;
      sha256_ctx = ctx;
    }

  -- The end succeeds only with the announced size written and the announced digest.
  pub record Ended (d d' : Device P) : Type 0 where
    pub was_active : d.ota.active ≡ true
    pub complete : d.ota.written ≡ d.ota.expected_size
    pub sum : List ℕ
    pub summed : sha256_final d.ota.sha256_ctx ≡ some sum
    pub matches : sum ≡ d.ota.expected_sha256
    pub state : d'.ota ≡ record (d.ota) { pending_reboot = true; active = false }

  -- The digest is set up once the flash is open.
  begin_on-started :
      (size : ℕ) (sha : List ℕ) (p : Partition) (d : Device P)
      → (begin_on P size sha p d).0 ≡ esp_ok
      → (ctx : Ctx) × (sha256_init zero_ctx ≡ some ctx)
        × (ota_begin p d.world
            ≡ (esp_ok, (ota_begin p d.world).1, (begin_on P size sha p d).1.world))
        × ((begin_on P size sha p d).1.ota ≡ record {
          active = true;
          pending_reboot = false;
          handle = (ota_begin p d.world).1;
          partition = some p;
          expected_size = size;
          written = 0;
          has_sha256 = true;
          expected_sha256 = sha;
          sha256_ctx = ctx;
        })
  unfolding begin_on cleared
  begin_on-started size sha p d h = elim (Option-cases (sha256_init zero_ctx)) [
    | inl lost ↦ absurd (ground (arith, is_ok→eq (ota_begin p d.world).0))
    | inr (ctx, started) ↦
        (ctx, started, ground (arith, is_ok→eq (ota_begin p d.world).0), ground arith)
  ]

  begin_on-Begun :
      (size : ℕ) (hex : Option (List ℕ)) (sha : List ℕ) (p : Partition) (d d' : Device P)
      → (d.ota.active || d.ota.pending_reboot) ≡ false
      → (size == 0) ≡ false
      → parse_sha256 hex ≡ ok sha
      → next_update_partition d.world ≡ some p
      → size ≤ p.size
      → (begin_on P size sha p d).0 ≡ esp_ok
      → d' ≡ (begin_on P size sha p d).1
      → Begun size hex d d'
  begin_on-Begun size hex sha p d d' idle positive parsed chosen fits good e =
      let (ctx, started, opened, state) = begin_on-started size sha p d good in
      rw e (record {
        idle = (ground arith, ground arith);
        sha = sha;
        parsed = parsed;
        partition = p;
        chosen = chosen;
        positive = ground arith;
        fits = fits;
        handle = (ota_begin p d.world).1;
        opened = opened;
        ctx = ctx;
        started = started;
        state = state;
      })

  pub update_begin-Begun :
      (size : ℕ) (hex : Option (List ℕ)) (d : Device P)
      → (update_begin P size hex d).0 ≡ esp_ok
      → Begun size hex d (update_begin P size hex d).1
  unfolding update_begin
  update_begin-Begun size hex d h = elim (Bool-cases (d.ota.active || d.ota.pending_reboot)) [
    | inl busy ↦ absurd (ground arith)
    | inr idle ↦ elim (Bool-cases (size == 0)) [
      | inl empty ↦ absurd (ground arith)
      | inr positive ↦ elim (Result-cases (parse_sha256 hex)) [
        | inr (e, bad) ↦ absurd (ground (arith, parse_sha256-Honest hex))
        | inl (sha, parsed) ↦ elim (Option-cases (next_update_partition d.world)) [
          | inl gone ↦ absurd (ground arith)
          | inr (p, chosen) ↦
              begin_on-Begun size hex sha p d _ idle positive parsed chosen (ground arith)
                (ground arith) (ground arith)
        ]
      ]
    ]
  ]

  pub update_end-Ended : (d : Device P) → (update_end P d).0 ≡ esp_ok → Ended d (update_end P d).1
  unfolding update_end finish
  update_end-Ended d h = elim (Option-cases (sha256_final d.ota.sha256_ctx)) [
    | inl lost ↦ absurd (ground arith)
    | inr (sum, summed) ↦ record {
      was_active = ground arith;
      complete = ground arith;
      sum = sum;
      summed = summed;
      matches = ground (arith, bytes_eq→eq sum d.ota.expected_sha256);
      state = ground arith;
    }
  ]
