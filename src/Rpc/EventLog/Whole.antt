-- ===== src/Rpc/EventLog/Whole.antt =====
-- The event log of main/serial_console.c, written piece by piece, against its text as a whole.
use mathlib.Core.List.{append_assoc}
use meb_commander.Base.{
  ℕ, ◌-◌, ◌≡◌, ap, ◌∙◌, Bool, true, false, List, [], ◌∷◌, ◌++◌, Option, none, some, ltb,
  if◌then◌else◌, take, drop, codes, length, length-append, arith, Bool-cases, inl, inr,
}
use meb_commander.Diag.{DiagEvent, EventSnapshot}
use meb_commander.Rpc.{json_appendf, and_then}
use meb_commander.Rpc.EventLog.{
  event_text, clamp_limit, log_head, append_events, format_event_log_json,
}

-- The texts of the events, with commas between them, and the end.
unfoldable pub rest_text : Bool → List DiagEvent → List ℕ
unfolding event_text codes
rest_text first [] = codes "]}"
rest_text first (event ∷ events) =
    (if first then [] else codes ",") ++ (event_text event ++ rest_text false events)

-- The log of the newest events, as many as the limit, the count and the maximum of 8 allow.
unfoldable pub event_log_text : EventSnapshot → ℕ → List ℕ
unfolding rest_text log_head clamp_limit
event_log_text snapshot limit =
    let returned = clamp_limit limit snapshot.count in
    log_head snapshot returned
    ++ rest_text true (drop (snapshot.count - returned) (take snapshot.count snapshot.events))

-- What a bounded array takes of a text: all or nothing.
abbrev pub if_fits : ℕ → List ℕ → Option (List ℕ)
if_fits buf_len text = if ltb (length text) buf_len then some text else none

json_appendf-if_fits :
    (buf_len : ℕ) (buf text : List ℕ)
    → json_appendf buf_len buf text ≡ if_fits buf_len (buf ++ text)
unfolding json_appendf
json_appendf-if_fits buf_len buf text = ground (arith, length-append buf text)

-- A part that fits or not, and what follows it.
and_then-if_fits :
    (buf_len : ℕ) (buf text rest : List ℕ) (next : List ℕ → Option (List ℕ))
    → next (buf ++ text) ≡ if_fits buf_len ((buf ++ text) ++ rest)
    → and_then (json_appendf buf_len buf text) next ≡ if_fits buf_len (buf ++ (text ++ rest))
and_then-if_fits buf_len buf text rest next e =
    elim (Bool-cases (ltb (length (buf ++ text)) buf_len)) [
      | inl fits ↦
          let here : json_appendf buf_len buf text ≡ some (buf ++ text) =
            json_appendf-if_fits buf_len buf text ∙ ground (arith, fits) in
          rw here (e ∙ ap (λ t. if_fits buf_len t) (append_assoc buf text rest))
      | inr over ↦
          let here : json_appendf buf_len buf text ≡ none =
            json_appendf-if_fits buf_len buf text ∙ ground (arith, over) in
          rw here (
            ground (
              arith,
              over,
              length-append buf text,
              length-append buf (text ++ rest),
              length-append text rest,
            ))
    ]

append_events-if_fits :
    (buf_len : ℕ) (first : Bool) (events : List DiagEvent) (buf : List ℕ)
    → append_events buf_len first events buf ≡ if_fits buf_len (buf ++ rest_text first events)
unfolding append_events rest_text
append_events-if_fits buf_len first [] buf = json_appendf-if_fits buf_len buf (codes "]}")
append_events-if_fits buf_len true (event ∷ events) buf =
    and_then-if_fits buf_len buf (event_text event) (rest_text false events)
      (λ buf'. append_events buf_len false events buf')
      (append_events-if_fits buf_len false events (buf ++ event_text event))
append_events-if_fits buf_len false (event ∷ events) buf =
    and_then-if_fits buf_len buf (codes ",") (event_text event ++ rest_text false events)
      (λ buf'.
        and_then (json_appendf buf_len buf' (event_text event))
          (λ buf''. append_events buf_len false events buf''))
      (and_then-if_fits buf_len (buf ++ codes ",") (event_text event) (rest_text false events)
        (λ buf'. append_events buf_len false events buf')
        (append_events-if_fits buf_len false events ((buf ++ codes ",") ++ event_text event)))

-- Writing the log piece by piece gives its whole text where that and the terminating zero fit the
-- array, and fails otherwise.
pub format_event_log_json-whole :
    (buf_len : ℕ) (snapshot : EventSnapshot) (limit : ℕ)
    → format_event_log_json buf_len snapshot limit ≡ (
        if ltb (length (event_log_text snapshot limit)) buf_len
        then some (event_log_text snapshot limit)
        else none)
unfolding format_event_log_json event_log_text
format_event_log_json-whole buf_len snapshot limit =
    let returned = clamp_limit limit snapshot.count in
    let shown = drop (snapshot.count - returned) (take snapshot.count snapshot.events) in
    and_then-if_fits buf_len [] (log_head snapshot returned) (rest_text true shown)
      (λ buf. append_events buf_len true shown buf)
      (append_events-if_fits buf_len true shown (log_head snapshot returned))
