-- ===== src/Startup/Timing.antt =====
-- main/can_bus.c: the bit timing of the two phases of a CAN FD frame, and what it comes to. The clock
-- of the controller is TWAI_CLK_SRC_PLL_F80M.
use meb_commander.Base.{
  inl, inr, Bool-cases, refl, ℕ, ◌+◌, ◌*◌, ◌≡◌, Option, none, some, ◌==◌, if◌then◌else◌, arith, ◌⊎◌,
  ◌≢◌, Bool-cases,
}
use meb_commander.Config.{twai_bitrate}
use meb_commander.Startup.{BitTiming}

-- MEB_CAN_ARB_SAMPLE_POINT_PERMILL, MEB_CAN_DATA_SAMPLE_POINT_PERMILL and MEB_CAN_DATA_SSP_PERMILL
abbrev pub can_arb_sample_point_permill : ℕ
can_arb_sample_point_permill = 875

abbrev pub can_data_sample_point_permill : ℕ
can_data_sample_point_permill = 750

abbrev pub can_data_ssp_permill : ℕ
can_data_ssp_permill = 700

unfoldable pub bit_timing : BitTiming
bit_timing = record { brp = 4; prop_seg = 8; tseg_1 = 26; tseg_2 = 5; sjw = 2; ssp_offset = 0 }

abbrev pub with_brp : ℕ → BitTiming
with_brp brp = record {
  brp = brp;
  prop_seg = 7;
  tseg_1 = 22;
  tseg_2 = 10;
  sjw = 5;
  ssp_offset = 28;
}

-- The switch of `configure_exact_canfd_timing`; no rate but the two is supported.
unfoldable pub data_timing : ℕ → Option BitTiming
data_timing bitrate =
    if bitrate == 1000000
    then some (with_brp 2)
    else if bitrate == 2000000
    then some (with_brp 1)
    else none

-- The clock, and what a timing means: a bit is the synchronisation segment of one time quantum, the
-- propagation segment and the two phase segments, and is sampled between these two.
abbrev clock_hz : ℕ
clock_hz = 80000000

abbrev pub quanta : BitTiming → ℕ
quanta t = 1 + t.prop_seg + t.tseg_1 + t.tseg_2

-- The segments fill a bit of the given rate, which is sampled at the given part of it.
abbrev pub Gives : BitTiming → ℕ → ℕ → Type 0
Gives t bitrate permill =
    (t.brp * quanta t * bitrate ≡ clock_hz)
    × (1000 * (1 + t.prop_seg + t.tseg_1) ≡ permill * quanta t)

-- For one and for two Mbit/s there is a timing of the data phase, and it gives that rate, the sample
-- point and the secondary sample point that the firmware reports; for every other rate there is none.
-- The timing of the first phase gives the bit rate of the bus and the sample point that the firmware
-- reports.
pub data_timing-Gives :
    (bitrate : ℕ)
    → Gives bit_timing twai_bitrate can_arb_sample_point_permill
      × ((((bitrate ≡ 1000000) ⊎ (bitrate ≡ 2000000))
            × ((t : BitTiming) × (data_timing bitrate ≡ some t)
                × Gives t bitrate can_data_sample_point_permill
                × (1000 * t.ssp_offset ≡ can_data_ssp_permill * quanta t)))
          ⊎ ((bitrate ≢ 1000000) × (bitrate ≢ 2000000) × (data_timing bitrate ≡ none)))
unfolding bit_timing data_timing
data_timing-Gives bitrate = (
  ground arith,
  elim (Bool-cases (bitrate == 1000000)) [
    | inl one ↦
        let same : bitrate ≡ 1000000 = ground (arith, one) in
        inl (rw same (inl refl, (with_brp 2, refl, (omega arith, omega arith), omega arith)))
    | inr other ↦ elim (Bool-cases (bitrate == 2000000)) [
      | inl two ↦
          let same : bitrate ≡ 2000000 = ground (arith, two) in
          inl (rw same (inr refl, (with_brp 1, refl, (omega arith, omega arith), omega arith)))
      | inr none_of ↦
          inr (ground (arith, other), ground (arith, none_of), ground (arith, other, none_of))
    ]
  ],
)
