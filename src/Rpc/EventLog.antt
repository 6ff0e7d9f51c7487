-- ===== src/Rpc/EventLog.antt =====
-- main/serial_console.c: `format_event_log_json`, which writes the newest events as JSON.
pub mod Whole
use meb_commander.Base.{
  ℕ, ◌-◌, Bool, true, false, List, [], ◌∷◌, ◌++◌, Option, none, some, ltb, if◌then◌else◌, take,
  drop, codes,
}
use meb_commander.Base.Decimal.{decimal}
use meb_commander.Diag.{DiagEvent, EventSnapshot, json_escape}
use meb_commander.Rpc.{json_appendf, texts, and_then}

-- DIAG_EVENTS_MAX_LIMIT
abbrev pub events_max_limit : ℕ
events_max_limit = 8

-- The three escaped texts have arrays of twice their length and one char.
unfoldable pub event_text : DiagEvent → List ℕ
unfolding texts codes decimal json_escape
event_text event = texts (
    codes "{\"seq\":"
    ∷ decimal event.seq
    ∷ codes ",\"ts_ms\":"
    ∷ decimal event.uptime_ms
    ∷ codes ",\"c\":\""
    ∷ json_escape (some event.component) 33
    ∷ codes "\",\"e\":\""
    ∷ json_escape (some event.event) 49
    ∷ codes "\",\"d\":\""
    ∷ json_escape (some event.detail) 129
    ∷ codes "\",\"heap\":"
    ∷ decimal event.free_heap
    ∷ codes ",\"min_heap\":"
    ∷ decimal event.minimum_free_heap
    ∷ codes "}"
    ∷ [])

-- The number of events to return.
unfoldable pub clamp_limit : ℕ → ℕ → ℕ
clamp_limit limit count =
    let limit' = if ltb events_max_limit limit then events_max_limit else limit in
    if ltb count limit' then count else limit'

unfoldable pub log_head : EventSnapshot → ℕ → List ℕ
unfolding texts codes decimal
log_head snapshot limit = texts (
    codes "{\"capacity\":"
    ∷ decimal snapshot.capacity
    ∷ codes ",\"count\":"
    ∷ decimal snapshot.count
    ∷ codes ",\"returned\":"
    ∷ decimal limit
    ∷ codes ",\"overwritten\":"
    ∷ decimal snapshot.overwritten
    ∷ codes ",\"events\":["
    ∷ [])

-- The loop over the events from `start` on, and the end; `first` is `i == start`.
unfoldable pub append_events : ℕ → Bool → List DiagEvent → List ℕ → Option (List ℕ)
unfolding json_appendf event_text codes
append_events buf_len first [] buf = json_appendf buf_len buf (codes "]}")
append_events buf_len first (event ∷ events) buf =
    and_then (if first then some buf else json_appendf buf_len buf (codes ",")) (λ buf'.
      and_then (json_appendf buf_len buf' (event_text event))
        (λ buf''. append_events buf_len false events buf''))

-- format_event_log_json into an array of `buf_len` chars; none is false.
unfoldable pub format_event_log_json : ℕ → EventSnapshot → ℕ → Option (List ℕ)
unfolding append_events log_head clamp_limit
format_event_log_json buf_len snapshot limit =
    let returned = clamp_limit limit snapshot.count in
    let start = snapshot.count - returned in
    and_then (json_appendf buf_len [] (log_head snapshot returned))
      (λ buf. append_events buf_len true (drop start (take snapshot.count snapshot.events)) buf)
