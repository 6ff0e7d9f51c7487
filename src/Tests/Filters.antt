-- ===== src/Tests/Filters.antt =====
-- The filters of main/can_bus.c on a controller that keeps them.
use meb_commander.Base.{ℕ, ◌-◌, ◌^◌, ◌≡◌, refl, ◌==◌, if◌then◌else◌, arith}
use meb_commander.Config.{can_id_charging_optimization}
use meb_commander.Esp.{esp_ok}
use meb_commander.Can.Filters.{
  MaskFilter, RangeFilter, Filters, Laws, disable_filter, dynamic_filter, configure_rx_filters,
  configure_rx_filters-settings,
}

abbrev keeping : Filters
keeping = record {
  World = (ℕ → MaskFilter) × RangeFilter;
  ext_id_mask = 2 ^ 29 - 1;
  config_mask_filter = λ i f w. (esp_ok, ((λ k. if k == i then f else w.0 k), w.1));
  config_range_filter = λ i f w. (esp_ok, (w.0, f));
}

keeping_laws : Laws keeping
keeping_laws = record {
  mask_at = λ w k. w.0 k;
  range_at = λ w. w.1;
  mask_set = λ i k f w set. refl;
  range_kept = λ i f w set. refl;
  range_set = λ f w set. refl;
  mask_kept = λ k f w set. refl;
}

abbrev unset : (ℕ → MaskFilter) × RangeFilter
unset = ((λ k. disable_filter), dynamic_filter)

configure_rx_filters-settings_example :
    ((configure_rx_filters keeping 3 unset).1.1 ≡ dynamic_filter)
    × ((configure_rx_filters keeping 3 unset).1.0 1
        ≡ record { id = can_id_charging_optimization; mask = 2 ^ 29 - 1 })
unfolding configure_rx_filters keeping_laws
configure_rx_filters-settings_example =
    configure_rx_filters-settings keeping keeping_laws 3 1 unset (omega arith) (omega arith) refl
