-- ===== src/Ota/Platform.antt =====
-- What main/ota_update.c calls and does not implement: ESP-IDF's esp_ota_ops and partitions, and the
-- SHA-256 of tinycrypt.
use meb_commander.Base.{ℕ, ◌≡◌, ◌≢◌, ◌++◌, List, [], Option, none, some}
use meb_commander.Esp.{EspErr, esp_ok}

-- esp_partition_t, as far as it is read.
pub record Partition : Type 0 where
  pub label : List ℕ
  pub size : ℕ

-- `World` is the flash with its open handles and the choice of the boot partition; `Ctx` is the
-- running state of a digest, and a call that does not return 1 gives none.
pub record Platform : Type 1 where
  pub World : Type 0
  pub Ctx : Type 0
  pub zero_ctx : Ctx
  pub next_update_partition : World → Option Partition
  pub running_partition : World → Option Partition
  pub ota_begin : Partition → World → EspErr × ℕ × World
  pub ota_write : ℕ → List ℕ → World → EspErr × World
  pub ota_abort : ℕ → World → EspErr × World
  pub ota_end : ℕ → World → EspErr × World
  pub set_boot_partition : Partition → World → EspErr × World
  pub sha256_init : Ctx → Option Ctx
  pub sha256_update : Ctx → List ℕ → Option Ctx
  pub sha256_final : Ctx → Option (List ℕ)

-- The documented behaviour that the integrity of an update rests on. `Image w h bytes` says that
-- handle `h` is open in `w` with `bytes` written to it in order, and `Hashed c bytes` that the digest
-- `c` has taken in `bytes`. A write that fails leaves the image as it was, and the digest takes any
-- bytes in (tinycrypt refuses null pointers only).
module _ (P : Platform) where
  open P use {World, Ctx, ota_begin, ota_write, sha256_init, sha256_update, sha256_final}

  pub record Laws : Type 1 where
    pub Image : World → ℕ → List ℕ → Type 0
    pub Hashed : Ctx → List ℕ → Type 0
    pub digest : List ℕ → List ℕ
    pub image_begin :
        (p : Partition) (w w' : World) (h : ℕ) → ota_begin p w ≡ (esp_ok, h, w') → Image w' h []
    pub image_write :
        (w w' : World) (h : ℕ) (bytes more : List ℕ)
        → Image w h bytes
        → ota_write h more w ≡ (esp_ok, w')
        → Image w' h (bytes ++ more)
    pub image_kept :
        (w w' : World) (h : ℕ) (bytes more : List ℕ) (e : EspErr)
        → Image w h bytes
        → ota_write h more w ≡ (e, w')
        → e ≢ esp_ok
        → Image w' h bytes
    pub hashed_init : (c c' : Ctx) → sha256_init c ≡ some c' → Hashed c' []
    pub hashed_update :
        (c c' : Ctx) (bytes more : List ℕ)
        → Hashed c bytes
        → sha256_update c more ≡ some c'
        → Hashed c' (bytes ++ more)
    pub hashed_total : (c : Ctx) (more : List ℕ) → sha256_update c more ≢ none
    pub hashed_final :
        (c : Ctx) (bytes sum : List ℕ)
        → Hashed c bytes
        → sha256_final c ≡ some sum
        → sum ≡ digest bytes
