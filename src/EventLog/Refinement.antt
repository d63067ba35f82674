-- ===== src/EventLog/Refinement.antt =====
-- What the event log promises, without its numbers and its two dictionaries: a list of entries for
-- each run, in which the place of an entry is its number.
use movie_reservation_agent.Prelude.{
  ℕ, suc, String, ◌≡◌, refl, ap, sym, ◌∙◌, Option, none, some, List, [], ◌∷◌, ◌++◌, map, length,
  drop, arith, ◌==◌, if◌then◌else◌, is_some, Bool-cases, Option-cases, inl, inr,
}
use movie_reservation_agent.Exec.{Result, ok, err, stream_missing}
use movie_reservation_agent.Dict.{Uuid, lookup, insert, lookup-insert}
use movie_reservation_agent.Contracts.{Payload, Timestamp, RunEvent}
use movie_reservation_agent.EventLog.{
  EventLog, pos, init_run_stream, append_event, append, list_events, list,
}
use movie_reservation_agent.EventLog.Numbering.{IsNumbered, IsValidStream, IsValid}
use movie_reservation_agent.EventLog.Paging.{list-eq-drop, list-whole}

pub record Entry : Type 0 where
  pub event_type : String
  pub payload : Payload
  pub timestamp_utc : Timestamp

abbrev pub Spec : Type 0
Spec = Uuid → Option (List Entry)

abbrev pub entry_of : RunEvent → Entry
entry_of e = record {
  event_type = e.event_type;
  payload = e.payload;
  timestamp_utc = e.timestamp_utc;
}

abbrev pub event_at : Uuid → ℕ → Entry → RunEvent
event_at k n entry = record {
  run_id = k;
  sequence_nr = n;
  event_type = entry.event_type;
  payload = entry.payload;
  timestamp_utc = entry.timestamp_utc;
}

-- The events of the entries of a run, numbered from `n` on.
abbrev pub number : Uuid → ℕ → List Entry → List RunEvent
number k n [] = []
number k n (entry ∷ entries) = event_at k n entry ∷ number k (suc n) entries

abbrev pub entries_of : Option (List RunEvent) → Option (List Entry)
entries_of none = none
entries_of (some es) = some (map entry_of es)

abbrev pub view : EventLog → Spec
view log k = entries_of (lookup k log.internal_run_events)

-- One run has other entries.
abbrev pub change : Uuid → List Entry → Spec → Spec
change k entries a j = if k == j then some entries else a j

abbrev pub inited : Uuid → Spec → Option (List Entry) → Spec
inited k a none = change k [] a
inited k a (some entries) = a

abbrev pub spec_init : Uuid → Spec → Spec
spec_init k a = inited k a (a k)

abbrev pub appended : Uuid → Entry → Spec → Option (List Entry) → Option (RunEvent × Spec)
appended k entry a none = none
appended k entry a (some entries) =
    some (event_at k (suc (length entries)) entry, change k (entries ++ entry ∷ []) a)

abbrev pub spec_append : Uuid → Entry → Spec → Option (RunEvent × Spec)
spec_append k entry a = appended k entry a (a k)

abbrev pub listed : Uuid → ℕ → Option (List Entry) → Option (List RunEvent)
listed k n none = none
listed k n (some entries) = some (drop n (number k 1 entries))

abbrev pub spec_list : Uuid → ℕ → Spec → Option (List RunEvent)
spec_list k n a = listed k n (a k)

-- `r` is what the specification of `append` says, on `log`.
abbrev pub IsAppend : EventLog → Option (RunEvent × Spec) → Result RunEvent × EventLog → Type 0
IsAppend log none r = r ≡ (err stream_missing, log)
IsAppend log (some (event, after)) r = (r.0 ≡ ok event) × ((j : Uuid) → view r.1 j ≡ after j)

abbrev pub answer_of : Option (List RunEvent) → Result (List RunEvent)
answer_of none = err stream_missing
answer_of (some es) = ok es

-- The operations on `log` are those of the specification.
pub record IsRefinement (log : EventLog) : Type 0 where
  pub inits : (k j : Uuid) → view (init_run_stream k log).1 j ≡ spec_init k (view log) j
  pub appends :
      (k : Uuid) (event_type : String) (payload : Payload) (now : Timestamp)
      → let entry : Entry = record {
        event_type = event_type;
        payload = payload;
        timestamp_utc = now;
      } in
        IsAppend log (spec_append k entry (view log)) (append k event_type payload now log)
  pub lists :
      (k : Uuid) (n : ℕ) → list k (some (pos n)) log ≡ (answer_of (spec_list k n (view log)), log)
  pub lists_whole : (k : Uuid) → list k none log ≡ (answer_of (spec_list k 0 (view log)), log)

numbered_lem :
    (k : Uuid) (n : ℕ) (es : List RunEvent) → IsNumbered k n es → number k n (map entry_of es) ≡ es
numbered_lem k n [] h = refl
numbered_lem k n (e ∷ es) (own, nr, h) =
    rw (numbered_lem k (suc n) es h) (ap (λ f. f ∷ es) (rw (sym own, sym nr) refl))

length-entries : (es : List RunEvent) → length (map entry_of es) ≡ length es
length-entries [] = refl
length-entries (e ∷ es) = omega (arith, length-entries es)

map-append :
    (es : List RunEvent) (e : RunEvent)
    → map entry_of (es ++ e ∷ []) ≡ map entry_of es ++ entry_of e ∷ []
map-append [] e = refl
map-append (x ∷ es) e = ap (λ xs. entry_of x ∷ xs) (map-append es e)

module _ (log : EventLog) where
  view-insert :
      (k j : Uuid) (es : List RunEvent)
      → entries_of (lookup j (insert k es log.internal_run_events))
        ≡ change k (map entry_of es) (view log) j
  view-insert k j es = elim (Bool-cases (k == j)) [
    | inl same ↦ rw (lookup-insert, same) refl
    | inr other ↦ rw (lookup-insert, other) refl
  ]

  init_refines : (k j : Uuid) → view (init_run_stream k log).1 j ≡ spec_init k (view log) j
  unfolding init_run_stream
  init_refines k j = elim (Option-cases (lookup k log.internal_run_events)) [
    | inl new ↦ rw (new, is_some, inited) (view-insert k j [])
    | inr (es, old) ↦ rw (old, is_some, inited) refl
  ]

  module _ (v : IsValid log) (k : Uuid) where
    valid_at :
        (es : List RunEvent)
        → lookup k log.internal_run_events ≡ some es
        → IsValidStream k (some es) (lookup k log.next_sequence_nr)
    valid_at es found = rw found at (v.stream k)

    append_refines :
        (entry : Entry)
        → IsAppend log
            (spec_append k entry (view log))
            (append k entry.event_type entry.payload entry.timestamp_utc log)
    unfolding append
    append_refines entry = elim (Option-cases (lookup k log.internal_run_events)) [
      | inl absent ↦ rw (absent, append_event, appended) refl
      | inr (es, found) ↦
          let at = valid_at es found in
          let nr : suc (length es) ≡ suc (length (map entry_of es)) =
            omega (arith, length-entries es) in
          rw (found, at.1, append_event, appended)
            (
              ap (λ m. ok (event_at k m entry)) nr,
              λ j.
                  view-insert k j (es ++ event_at k (suc (length es)) entry ∷ [])
                  ∙ ap (λ xs. change k xs (view log) j)
                      (map-append es (event_at k (suc (length es)) entry)),
            )
    ]

    list_refines : (n : ℕ) → list k (some (pos n)) log ≡ (answer_of (spec_list k n (view log)), log)
    unfolding list
    list_refines n = elim (Option-cases (lookup k log.internal_run_events)) [
      | inl absent ↦ rw (absent, list_events, listed) refl
      | inr (es, found) ↦
          list-eq-drop k log v n (list-whole k log found)
          ∙ rw (found, listed, numbered_lem k 1 es (valid_at es found).0) refl
    ]

    list_whole_refines : list k none log ≡ (answer_of (spec_list k 0 (view log)), log)
    unfolding list
    list_whole_refines = elim (Option-cases (lookup k log.internal_run_events)) [
      | inl absent ↦ rw (absent, list_events, listed) refl
      | inr (es, found) ↦
          list-whole k log found
          ∙ rw (found, listed, numbered_lem k 1 es (valid_at es found).0) refl
    ]

-- A valid event log implements the list of entries for each run: creating a stream, appending and
-- reading, from the beginning or after any number, give the results of the specification and lead to
-- logs with the entries that it says, and where a stream is missing they raise and change nothing.
pub valid-IsRefinement : (log : EventLog) → IsValid log → IsRefinement log
valid-IsRefinement log v = record {
  inits = init_refines log;
  appends = λ k event_type payload now.
      append_refines log v k
        (record { event_type = event_type; payload = payload; timestamp_utc = now });
  lists = list_refines log v;
  lists_whole = list_whole_refines log v;
}
