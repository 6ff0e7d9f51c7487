-- ===== src/Tests/Diag.antt =====
-- The event log and the escaping of main/diagnostics.c.
use meb_commander.Base.{ℕ, ◌≡◌, refl, List, [], ◌∷◌, some, take, codes, replicate}
use meb_commander.Event.{Event, plain}
use meb_commander.Diag.{
  Reading, event_capacity, cleared, get_events, json_escape, short_escape, unicode_escape,
}
use meb_commander.Diag.Contents.{record_all, entries, newest, get_events-record_all}
use meb_commander.Diag.Escape.{Mode, read_body, read_body-json_escape}

abbrev boot : Reading × Event
boot = (record { now_us = 8_500; free_heap = 7; minimum_free_heap = 6 }, plain "system" "boot" "")

abbrev boots : List (Reading × Event)
boots = replicate 18 boot

get_events-record_all_example : get_events (record_all boots cleared) ≡ record {
  capacity = event_capacity;
  count = 16;
  overwritten = 2;
  next_seq = 19;
  events = newest (entries 1 boots);
}
get_events-record_all_example = get_events-record_all boots

-- A quote, a tab and the control character 1, into an array of 64 chars.
abbrev odd_text : List ℕ
odd_text = b'a' ∷ b'"' ∷ 9 ∷ 1 ∷ []

escaped_text : json_escape (some odd_text) 64 ≡ codes "a\\\"\\t\\u0001"
unfolding json_escape codes short_escape unicode_escape
escaped_text = refl

read_body-json_escape_example :
    (n : ℕ) × (read_body Mode.plain (json_escape (some odd_text) 8) ≡ some (take n odd_text))
read_body-json_escape_example = read_body-json_escape odd_text 8
