-- ===== src/Tests/RxTask.antt =====
-- The way of a received frame, with a queue of FreeRTOS that holds one message.
use meb_commander.Base.{
  ◌+◌, ◌%◌, ◌^◌, ◌≡◌, refl, true, false, List, [], ◌∷◌, ◌++◌, none, some, replicate, if◌then◌else◌,
  arith,
}
use meb_commander.Esp.{esp_ok}
use meb_commander.Can.{Driver, Header, RxMessage, fresh}
use meb_commander.Can.Report.{ErrorStates}
use meb_commander.Can.RxTask.Order.{
  Fifo, Step, frame_done, round, Bus, accepted, refused, run, run-Conserves, messages, decode_all,
}
use meb_commander.State.{init}

abbrev header : Header
header = record { id = 0x12dd54d2; dlc = 8; ide = true; fdf = true; brs = true }

-- A message at most, and another frame at every interrupt.
abbrev one_place : Driver
one_place = record {
  World = List RxMessage;
  fd_frame_max_len = 64;
  classic_frame_max_len = 8;
  len2dlc = λ n. n;
  dlc2len = λ n. n;
  transmit = λ i s wait w. (esp_ok, w);
  receive_from_isr = λ w. (some (header, 1 ∷ []), w);
  queue_send = λ m w. elim w [ [] ↦ (true, m ∷ []) | x ∷ xs ↦ (false, x ∷ xs) ];
  queue_receive = λ w. elim w [ [] ↦ (none, []) | x ∷ xs ↦ (some x, xs) ];
  err_to_name = λ e. [];
}

one_place_laws : Fifo one_place
one_place_laws = record {
  contents = λ w. w;
  received = λ w. refl;
  sent = λ m w.
      elim w
        as (λ (q : List RxMessage).
          (one_place.queue_send m q).1
          ≡ (if (one_place.queue_send m q).0 then q ++ (m ∷ []) else q)) [
            | [] ↦ refl
            | x ∷ xs ↦ refl
          ];
  taken = λ w. ground arith;
  transmitted = λ i wait s w. refl;
}

abbrev states : ErrorStates
states = record { active = 0; warning = 1; passive = 2; bus_off = 3 }

abbrev start : Bus one_place
start = record {
  app = init;
  can = fresh;
  reporter = record {
    last_report_tick = 0;
    reported = record {
      last_overflow_count = 0;
      last_error_event_count = 0;
      last_state_change_count = 0;
      last_tx_failure_count = 0;
      last_state_entry_count = replicate 4 0;
      last_tx_slot_exhaustion_count = 0;
    };
  };
  world = [];
}

-- The second frame finds no room, and the third one is in the queue at the end.
abbrev steps : List (Step one_place)
steps = frame_done ∷ frame_done ∷ round 5000 5 none ∷ frame_done ∷ []

run-Conserves_example :
    let (arrivals, handled, b) = run one_place states 1000 steps start in
    ([] ++ accepted arrivals ≡ messages handled ++ b.world)
    × (b.app ≡ decode_all handled init)
    × (b.can.rx_queue_overflow_count % 2 ^ 32 ≡ (0 + refused arrivals) % 2 ^ 32)
unfolding one_place_laws
run-Conserves_example = run-Conserves one_place states 1000 one_place_laws steps start

refused_one : (run one_place states 1000 steps start).2.can.rx_queue_overflow_count ≡ 1
unfolding run
refused_one = refl
