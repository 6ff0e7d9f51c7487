-- ===== src/Diag.antt =====
-- main/diagnostics.c: the event log in RAM and the JSON escaping of its texts. What the log reads of
-- the system (timer and heap) is the argument `Reading`; each function holds the lock throughout.
-- A char array is the bytes before its terminating zero.
pub mod Window
pub mod Contents
pub mod Escape
pub mod Status
use meb_commander.Base.{
  ℕ, ◌+◌, ◌-◌, ◌/◌, ◌%◌, ◌^◌, Bool, List, [], ◌∷◌, ◌++◌, Option, none, some, ltb, leb, ◌==◌,
  if◌then◌else◌, length, take, replicate, set, get_or, zero, suc,
}
use meb_commander.Event.{Event}

abbrev pub event_capacity : ℕ
event_capacity = 16

abbrev pub component_len : ℕ
component_len = 16

abbrev pub event_len : ℕ
event_len = 24

abbrev pub detail_len : ℕ
detail_len = 64

-- meb_diag_event_t
pub record DiagEvent : Type 0 where
  pub seq : ℕ
  pub uptime_ms : ℕ
  pub free_heap : ℕ
  pub minimum_free_heap : ℕ
  pub component : List ℕ
  pub event : List ℕ
  pub detail : List ℕ

-- The static variables, less the lock.
pub record Log : Type 0 where
  pub events : List DiagEvent
  pub event_count : ℕ
  pub next_index : ℕ
  pub next_seq : ℕ
  pub overwritten : ℕ

-- esp_timer_get_time and the two heap sizes, at the time of a call.
pub record Reading : Type 0 where
  pub now_us : ℕ
  pub free_heap : ℕ
  pub minimum_free_heap : ℕ

-- meb_diag_event_snapshot_t
pub record EventSnapshot : Type 0 where
  pub capacity : ℕ
  pub count : ℕ
  pub overwritten : ℕ
  pub next_seq : ℕ
  pub events : List DiagEvent

-- `snprintf(dst, dst_len, "%s", src)` into an array of at least one char; NULL is the empty text.
unfoldable pub copy_text : ℕ → Option (List ℕ) → List ℕ
copy_text dst_len none = []
copy_text dst_len (some src) = take (dst_len - 1) src

-- A cleared entry.
abbrev pub blank : DiagEvent
blank = record {
  seq = 0;
  uptime_ms = 0;
  free_heap = 0;
  minimum_free_heap = 0;
  component = [];
  event = [];
  detail = [];
}

-- The entry that a call makes, numbered `seq`.
unfoldable pub make_event : Reading → Event → ℕ → DiagEvent
make_event r e seq = record {
  seq = seq;
  uptime_ms = r.now_us / 1000;
  free_heap = r.free_heap;
  minimum_free_heap = r.minimum_free_heap;
  component = copy_text component_len (some e.component);
  event = copy_text event_len (some e.event);
  detail = copy_text detail_len (some e.detail);
}

unfoldable pub record_event : Reading → Event → Log → Log
record_event r e l = record l {
  events = set l.events l.next_index (make_event r e l.next_seq);
  next_seq = (l.next_seq + 1) % 2 ^ 32;
  next_index = (l.next_index + 1) % event_capacity;
  event_count = if ltb l.event_count event_capacity then l.event_count + 1 else l.event_count;
  overwritten =
      if ltb l.event_count event_capacity then l.overwritten else (l.overwritten + 1) % 2 ^ 32;
}

-- meb_diag_init, where the mutex is created, before it records the boot event.
unfoldable pub cleared : Log
cleared = record {
  events = replicate event_capacity blank;
  event_count = 0;
  next_index = 0;
  next_seq = 1;
  overwritten = 0;
}

-- meb_diag_init
unfoldable pub init : Reading → Event → Log
unfolding cleared record_event
init r boot = record_event r boot cleared

-- The entries `events[index % 16]` for `n` indices from `index` on.
unfoldable pub copy_events : List DiagEvent → ℕ → ℕ → List DiagEvent
copy_events events index zero = []
copy_events events index (suc n) =
    get_or events (index % event_capacity) blank ∷ copy_events events (index + 1) n

-- meb_diag_get_events
unfoldable pub get_events : Log → EventSnapshot
unfolding copy_events
get_events l = record {
  capacity = event_capacity;
  count = l.event_count;
  overwritten = l.overwritten;
  next_seq = l.next_seq;
  events =
      let first = (l.next_index + event_capacity - l.event_count) % event_capacity in
      copy_events l.events first l.event_count;
}

-- The two-byte escapes of `meb_diag_json_escape`'s switch.
unfoldable pub short_escape : ℕ → Option (List ℕ)
short_escape c =
    if c == b'"'
    then some (92 ∷ b'"' ∷ [])
    else if c == 92
    then some (92 ∷ 92 ∷ [])
    else if c == 8
    then some (92 ∷ b'b' ∷ [])
    else if c == 12
    then some (92 ∷ b'f' ∷ [])
    else if c == 10
    then some (92 ∷ b'n' ∷ [])
    else if c == 13
    then some (92 ∷ b'r' ∷ [])
    else if c == 9
    then some (92 ∷ b't' ∷ [])
    else none

-- A digit of `%x`.
abbrev pub hex_char : ℕ → ℕ
hex_char d = if ltb d 10 then 48 + d else 87 + d

-- "\\u%04x" for a byte.
unfoldable pub unicode_escape : ℕ → List ℕ
unicode_escape c = 92 ∷ b'u' ∷ 48 ∷ 48 ∷ hex_char (c / 16) ∷ hex_char (c % 16) ∷ []

-- The loop of meb_diag_json_escape with `out` bytes written: what it writes from here on.
unfoldable pub json_escape_from : ℕ → ℕ → List ℕ → List ℕ
json_escape_from dst_len out [] = []
json_escape_from dst_len out (c ∷ src) =
    let rest = λ (n : ℕ). json_escape_from dst_len (out + n) src in
    if ltb out (dst_len - 1)
    then elim (short_escape c) [
      | some escaped ↦
          if leb dst_len (out + length escaped) then [] else escaped ++ rest (length escaped)
      | none ↦
          if ltb c 0x20
          then if leb dst_len (out + 6) then [] else unicode_escape c ++ rest 6
          else c ∷ rest 1
    ]
    else []

-- meb_diag_json_escape into an array of `dst_len` chars: the text in the array. The function's
-- result is its length.
unfoldable pub json_escape : Option (List ℕ) → ℕ → List ℕ
unfolding json_escape_from
json_escape none dst_len = []
json_escape (some src) dst_len = if dst_len == 0 then [] else json_escape_from dst_len 0 src
