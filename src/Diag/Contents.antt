-- ===== src/Diag/Contents.antt =====
-- The event log of main/diagnostics.c against the plain list of everything recorded since boot.
use meb_commander.Base.{
  ℕ, suc, ◌+◌, ◌-◌, ◌%◌, ◌^◌, ◌≤◌, ◌<◌, ◌≡◌, refl, ap, sym, ◌∙◌, inl, inr, List, [], ◌∷◌, ◌++◌,
  arith, length, drop, set, length-set, length-append, drop-append, drop-suc, ltb, ltb→lt,
  Bool-cases,
}
use mathlib.Core.List.{append-nil, append_assoc}
use Prim.Native.Nat.{min}
use meb_commander.Event.{Event}
use meb_commander.Diag.{
  DiagEvent, Log, Reading, event_capacity, make_event, record_event, cleared, copy_events,
  get_events,
}
use meb_commander.Diag.Window.{copy_events-mod, copy_events-set_next, drop-copy_events}

-- The calls of `meb_diag_record_event` in order.
pub record_all : List (Reading × Event) → Log → Log
record_all [] l = l
record_all ((r, e) ∷ calls) l = record_all calls (record_event r e l)

-- The entries that the calls make, numbered on from `seq`.
pub entries : ℕ → List (Reading × Event) → List DiagEvent
entries seq [] = []
entries seq ((r, e) ∷ calls) = make_event r e seq ∷ entries ((seq + 1) % 2 ^ 32) calls

-- The last sixteen.
abbrev pub newest : List DiagEvent → List DiagEvent
newest done = drop (length done - event_capacity) done

-- The log holds the newest of the entries `done` and the counts that belong to them.
pub record Holds (done : List DiagEvent) (l : Log) : Type 0 where
  pub size : length l.events ≡ event_capacity
  pub index : l.next_index < event_capacity
  pub count : l.event_count ≡ min event_capacity (length done)
  pub dropped : l.overwritten ≡ (length done - event_capacity) % 2 ^ 32
  pub seq : l.next_seq ≡ (1 + length done) % 2 ^ 32
  pub contents : (get_events l).events ≡ newest done

cleared-Holds : Holds [] cleared
unfolding cleared get_events
cleared-Holds = record {
  size = refl;
  index = omega arith;
  count = refl;
  dropped = refl;
  seq = refl;
  contents = refl;
}

-- While the log is not full the new entry follows the others.
contents-grow :
    (b : List DiagEvent) (k n : ℕ) (x : DiagEvent)
    → length b ≡ 16
    → k < 16
    → n < 16
    → copy_events (set b k x) (((k + 1) % 16 + 16 - (n + 1)) % 16) (n + 1)
      ≡ copy_events b ((k + 16 - n) % 16) n ++ (x ∷ [])
contents-grow b k n x l hk hn =
    copy_events-mod (set b k x) _ ((k + 16 - n) % 16) (n + 1) (omega arith)
    ∙ ap (copy_events (set b k x) ((k + 16 - n) % 16)) (omega arith)
    ∙ copy_events-set_next b ((k + 16 - n) % 16) n k x l hn (omega arith)

-- Once it is full the new entry takes the place of the oldest.
contents-replace :
    (b : List DiagEvent) (k : ℕ) (x : DiagEvent)
    → length b ≡ 16
    → k < 16
    → copy_events (set b k x) (((k + 1) % 16 + 16 - 16) % 16) 16
      ≡ drop 1 (copy_events b ((k + 16 - 16) % 16) 16) ++ (x ∷ [])
contents-replace b k x l hk =
    copy_events-mod (set b k x) _ (k + 1) 16 (omega arith)
    ∙ copy_events-set_next b (k + 1) 15 k x l (omega arith) (omega arith)
    ∙ ap (λ t. t ++ (x ∷ []))
        (copy_events-mod b (k + 1) ((k + 16 - 16) % 16 + 1) 15 (omega arith)
          ∙ sym (drop-copy_events b ((k + 16 - 16) % 16) 15))

newest-append_short :
    (done : List DiagEvent) (x : DiagEvent)
    → length done < 16
    → newest (done ++ (x ∷ [])) ≡ newest done ++ (x ∷ [])
newest-append_short done x h =
    ap (λ k. drop k (done ++ (x ∷ []))) (omega (arith, length-append done (x ∷ [])))
    ∙ drop-append (length done - 16) done (x ∷ []) (omega arith)

newest-append_full :
    (done : List DiagEvent) (x : DiagEvent)
    → 16 ≤ length done
    → newest (done ++ (x ∷ [])) ≡ drop 1 (newest done) ++ (x ∷ [])
newest-append_full done x h =
    let one_more : length (done ++ (x ∷ [])) - 16 ≡ suc (length done - 16) =
      omega (arith, length-append done (x ∷ [])) in
    ap (λ k. drop k (done ++ (x ∷ []))) one_more
    ∙ drop-append (suc (length done - 16)) done (x ∷ []) (omega arith)
    ∙ ap (λ t. t ++ (x ∷ [])) (drop-suc (length done - 16) done)

record_event-contents :
    (done : List DiagEvent) (l : Log) (r : Reading) (e : Event)
    → Holds done l
    → (get_events (record_event r e l)).events ≡ newest (done ++ (make_event r e l.next_seq ∷ []))
unfolding get_events record_event
record_event-contents done l r e h = elim (Bool-cases (ltb l.event_count 16)) [
  | inl room ↦ rw room (
      contents-grow l.events l.next_index l.event_count x h.size h.index (ltb→lt _ _ room)
      ∙ ap (λ t. t ++ (x ∷ [])) h.contents
      ∙ sym (newest-append_short done x (ground arith)))
  | inr full ↦
      let all : l.event_count ≡ 16 = ground arith in
      rw (full, all)
        (contents-replace l.events l.next_index x h.size h.index
          ∙ ap (λ t. drop 1 t ++ (x ∷ [])) (rw all at h.contents)
          ∙ sym (newest-append_full done x (ground arith)))
]
  where
    x : DiagEvent
    x = make_event r e l.next_seq

record_event-Holds :
    (done : List DiagEvent) (l : Log) (r : Reading) (e : Event)
    → Holds done l
    → Holds (done ++ (make_event r e l.next_seq ∷ [])) (record_event r e l)
unfolding record_event
record_event-Holds done l r e h = record {
  size = length-set l.events l.next_index _ ∙ h.size;
  index = omega arith;
  count = ground (arith, length-append done (make_event r e l.next_seq ∷ []));
  dropped = ground (arith, length-append done (make_event r e l.next_seq ∷ []));
  seq = ground (arith, length-append done (make_event r e l.next_seq ∷ []));
  contents = record_event-contents done l r e h;
}

record_all-Holds :
    (calls : List (Reading × Event)) (done : List DiagEvent) (l : Log)
    → Holds done l
    → Holds (done ++ entries l.next_seq calls) (record_all calls l)
unfolding record_all entries record_event
record_all-Holds [] done l h = rw (append-nil done) h
record_all-Holds ((r, e) ∷ calls) done l h =
    rw (append_assoc done (x ∷ []) (entries ((l.next_seq + 1) % 2 ^ 32) calls)) at (
      record_all-Holds calls (done ++ (x ∷ [])) (record_event r e l)
        (record_event-Holds done l r e h))
  where
    x : DiagEvent
    x = make_event r e l.next_seq

length-entries :
    (seq : ℕ) (calls : List (Reading × Event)) → length (entries seq calls) ≡ length calls
unfolding entries
length-entries seq [] = refl
length-entries seq ((r, e) ∷ calls) = ap suc (length-entries ((seq + 1) % 2 ^ 32) calls)

-- Whatever calls were recorded since the log was cleared, `meb_diag_get_events` returns the newest
-- sixteen of their entries, oldest first and numbered from 1 without a gap, with their number, the
-- number of entries lost and the next number, the two counters reduced to uint32_t.
pub get_events-record_all :
    (calls : List (Reading × Event))
    → let done = entries 1 calls in
      get_events (record_all calls cleared) ≡ record {
        capacity = event_capacity;
        count = min event_capacity (length calls);
        overwritten = (length calls - event_capacity) % 2 ^ 32;
        next_seq = (1 + length calls) % 2 ^ 32;
        events = newest done;
      }
unfolding get_events cleared
get_events-record_all calls =
    ground (arith, length-entries 1 calls, record_all-Holds calls [] cleared cleared-Holds)
