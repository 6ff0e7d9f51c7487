-- ===== src/Can/Filters.antt =====
-- main/can_bus.c: `configure_rx_filters`, which lets the frames through that are decoded. The
-- controller has `mask_filters` mask filters, three at least, and a range filter.
use meb_commander.Base.{
  ℕ, zero, suc, ◌+◌, ◌-◌, ◌^◌, ◌≡◌, ◌≤◌, ◌<◌, ◌∙◌, ap, ◌&&◌, true, List, [], ◌∷◌, ltb, leb, ◌==◌,
  if◌then◌else◌, arith,
}
use meb_commander.Config.{
  can_id_diag_resp, can_id_heating_status, can_id_charging_optimization, can_id_dynamic,
  can_id_temperature,
}
use meb_commander.Esp.{EspErr, esp_ok, is_ok, next}

-- twai_mask_filter_config_t and twai_range_filter_config_t, for extended ids.
pub record MaskFilter : Type 0 where
  pub id : ℕ
  pub mask : ℕ

pub record RangeFilter : Type 0 where
  pub range_low : ℕ
  pub range_high : ℕ

-- TWAI_EXT_ID_MASK, twai_node_config_mask_filter and twai_node_config_range_filter.
pub record Filters : Type 1 where
  pub World : Type 0
  pub ext_id_mask : ℕ
  pub config_mask_filter : ℕ → MaskFilter → World → EspErr × World
  pub config_range_filter : ℕ → RangeFilter → World → EspErr × World

abbrev pub disable_filter : MaskFilter
disable_filter = record { id = 2 ^ 32 - 1; mask = 2 ^ 32 - 1 }

abbrev pub dynamic_filter : RangeFilter
dynamic_filter = record { range_low = can_id_dynamic; range_high = can_id_heating_status }

abbrev pub exact_ids : List ℕ
exact_ids = can_id_diag_resp ∷ can_id_charging_optimization ∷ can_id_temperature ∷ []

module _ (F : Filters) where
  open F use {World}

  -- The first loop, for `n` filters from `i` on.
  unfoldable pub disable_all : ℕ → ℕ → World → EspErr × World
  disable_all i zero world = (esp_ok, world)
  disable_all i (suc n) world =
      next (F.config_mask_filter i disable_filter world) (λ w. disable_all (i + 1) n w)

  -- The second loop.
  unfoldable pub accept_exact : ℕ → List ℕ → World → EspErr × World
  accept_exact i [] world = (esp_ok, world)
  accept_exact i (id ∷ ids) world =
      next (F.config_mask_filter i (record { id = id; mask = F.ext_id_mask }) world)
        (λ w. accept_exact (i + 1) ids w)

  unfoldable pub configure_rx_filters : ℕ → World → EspErr × World
  unfolding disable_all accept_exact
  configure_rx_filters mask_filters world =
      next (disable_all 0 mask_filters world)
        (λ w. next (F.config_range_filter 0 dynamic_filter w) (λ w'. accept_exact 0 exact_ids w'))

  -- What the controller keeps of its filters: a call that succeeds sets one, and no other.
  pub record Laws : Type 1 where
    pub mask_at : World → ℕ → MaskFilter
    pub range_at : World → RangeFilter
    pub mask_set :
        (i k : ℕ) (f : MaskFilter) (w : World)
        → is_ok (F.config_mask_filter i f w).0 ≡ true
        → mask_at (F.config_mask_filter i f w).1 k ≡ (if k == i then f else mask_at w k)
    pub range_kept :
        (i : ℕ) (f : MaskFilter) (w : World)
        → is_ok (F.config_mask_filter i f w).0 ≡ true
        → range_at (F.config_mask_filter i f w).1 ≡ range_at w
    pub range_set :
        (f : RangeFilter) (w : World)
        → is_ok (F.config_range_filter 0 f w).0 ≡ true
        → range_at (F.config_range_filter 0 f w).1 ≡ f
    pub mask_kept :
        (k : ℕ) (f : RangeFilter) (w : World)
        → is_ok (F.config_range_filter 0 f w).0 ≡ true
        → mask_at (F.config_range_filter 0 f w).1 k ≡ mask_at w k

module _ (F : Filters) (W : Laws F) where
  abbrev exact : ℕ → MaskFilter
  exact id = record { id = id; mask = F.ext_id_mask }

  disable_all-mask_at :
      (i n k : ℕ) (w : F.World)
      → is_ok (disable_all F i n w).0 ≡ true
      → W.mask_at (disable_all F i n w).1 k
        ≡ (if leb i k && ltb k (i + n) then disable_filter else W.mask_at w k)
  unfolding disable_all
  disable_all-mask_at i zero k w good = ground arith
  disable_all-mask_at i (suc n) k w good =
      let set : is_ok (F.config_mask_filter i disable_filter w).0 ≡ true = ground (arith, good) in
      let w' = (F.config_mask_filter i disable_filter w).1 in
      let same : disable_all F i (suc n) w ≡ disable_all F (i + 1) n w' = ground (arith, set) in
      let good' : is_ok (disable_all F (i + 1) n w').0 ≡ true = rw (← same) good in
      ap (λ (r : EspErr × F.World). W.mask_at r.1 k) same
      ∙ disable_all-mask_at (i + 1) n k w' good'
      ∙ ground (arith, W.mask_set i k disable_filter w set)

  -- If the filters of a controller with three mask filters at least are configured, the range filter
  -- takes the ids from the dynamic frame to the heating status, the first three mask filters take one
  -- id each, and the others are disabled.
  pub configure_rx_filters-settings :
      (n k : ℕ) (w : F.World)
      → 3 ≤ n
      → k < n
      → is_ok (configure_rx_filters F n w).0 ≡ true
      → (W.range_at (configure_rx_filters F n w).1 ≡ dynamic_filter)
        × (W.mask_at (configure_rx_filters F n w).1 k ≡ (
            if k == 0
            then exact can_id_diag_resp
            else if k == 1
            then exact can_id_charging_optimization
            else if k == 2
            then exact can_id_temperature
            else disable_filter))
  unfolding configure_rx_filters accept_exact
  configure_rx_filters-settings n k w h l good =
      let r₁ = disable_all F 0 n w in
      let r₂ = F.config_range_filter 0 dynamic_filter r₁.1 in
      let r₃ = F.config_mask_filter 0 (exact can_id_diag_resp) r₂.1 in
      let r₄ = F.config_mask_filter 1 (exact can_id_charging_optimization) r₃.1 in
      let r₅ = F.config_mask_filter 2 (exact can_id_temperature) r₄.1 in
      let ok₁ : is_ok r₁.0 ≡ true = ground (arith, good) in
      let ok₂ : is_ok r₂.0 ≡ true = ground (arith, good, ok₁) in
      let ok₃ : is_ok r₃.0 ≡ true = ground (arith, good, ok₁, ok₂) in
      let ok₄ : is_ok r₄.0 ≡ true = ground (arith, good, ok₁, ok₂, ok₃) in
      let ok₅ : is_ok r₅.0 ≡ true = ground (arith, good, ok₁, ok₂, ok₃, ok₄) in
      let same : (configure_rx_filters F n w).1 ≡ r₅.1 = ground (arith, ok₁, ok₂, ok₃, ok₄, ok₅) in
      let disabled = disable_all-mask_at 0 n k w ok₁ in
      let kept = W.mask_kept k dynamic_filter r₁.1 ok₂ in
      let set₀ = W.mask_set 0 k (exact can_id_diag_resp) r₂.1 ok₃ in
      let set₁ = W.mask_set 1 k (exact can_id_charging_optimization) r₃.1 ok₄ in
      let set₂ = W.mask_set 2 k (exact can_id_temperature) r₄.1 ok₅ in
      rw same (
        (
          W.range_kept 2 (exact can_id_temperature) r₄.1 ok₅
              ∙ W.range_kept 1 (exact can_id_charging_optimization) r₃.1 ok₄
              ∙ W.range_kept 0 (exact can_id_diag_resp) r₂.1 ok₃
              ∙ W.range_set dynamic_filter r₁.1 ok₂,
          ground (arith, disabled, kept, set₀, set₁, set₂),
        ))
