-- ===== src/EventLog/Paging.antt =====
-- Reading a stream in pages: `after_sequence` skips exactly the events that a client has seen.
use movie_reservation_agent.Prelude.{
  ℕ, zero, suc, ◌+◌, ◌<◌, ◌≡◌, refl, ap, ◌∙◌, Option, none, some, List, [], ◌∷◌, ◌++◌, arith,
  length, drop, drop-length,
}
use movie_reservation_agent.Exec.{ok}
use movie_reservation_agent.Dict.{Uuid, lookup}
use movie_reservation_agent.Contracts.{RunEvent}
use movie_reservation_agent.EventLog.{EventLog, ℤ, pos, events_after, list_events, list}
use movie_reservation_agent.EventLog.Numbering.{IsNumbered, IsValidStream, IsValid, Extends}

events_after_all :
    (k : Uuid) (m b : ℕ) (es : List RunEvent)
    → b < m
    → IsNumbered k m es
    → events_after (pos b) es ≡ es
unfolding events_after
events_after_all k m b [] lt h = refl
events_after_all k m b (e ∷ es) lt h =
    ground (arith, events_after_all k (suc m) b es (omega arith) h.2)

-- In a stream numbered from `b + 1`, the events after number `b + n` are all but the first `n`.
events_after-eq-drop :
    (k : Uuid) (b n : ℕ) (es : List RunEvent)
    → IsNumbered k (suc b) es
    → events_after (pos (b + n)) es ≡ drop n es
unfolding events_after
events_after-eq-drop k b zero es h = events_after_all k (suc b) (b + 0) es (omega arith) h
events_after-eq-drop k b (suc n) [] h = refl
events_after-eq-drop k b (suc n) (e ∷ es) h =
    let shift : b + suc n ≡ suc b + n = omega arith in
    ground (
      arith,
      ap (λ (m : ℕ). events_after (pos m) es) shift,
      events_after-eq-drop k (suc b) n es h.2,
    )

module _ (k : Uuid) (log : EventLog) (v : IsValid log) where
  list-eq-drop_at :
      (n : ℕ) {es : List RunEvent}
      → lookup k log.internal_run_events ≡ some es
      → list k (some (pos n)) log ≡ (ok (drop n es), log)
  unfolding list
  list-eq-drop_at n {es} found =
      let at : IsValidStream k (some es) (lookup k log.next_sequence_nr) =
        rw found at (v.stream k) in
      let from_start : 0 + n ≡ n = omega arith in
      let after : events_after (pos n) es ≡ drop n es =
        rw from_start at (events_after-eq-drop k 0 n es at.0) in
      rw (found, list_events) (ap (λ (xs : List RunEvent). (ok xs, log)) after)

  -- `list` after number `n` gives the whole stream without its first `n` events.
  pub list-eq-drop :
      (n : ℕ) {es : List RunEvent}
      → list k none log ≡ (ok es, log)
      → list k (some (pos n)) log ≡ (ok (drop n es), log)
  unfolding list
  list-eq-drop n {es} whole = list-eq-drop_at n (ground arith)

-- A client that has read `seen` and asks again, when the log has grown, for what comes after the
-- last number it saw gets exactly the events that are new.
pub list-resumes :
    (k : Uuid) (a b : EventLog) {seen : List RunEvent}
    → IsValid b
    → Extends a b
    → list k none a ≡ (ok seen, a)
    → (more : List RunEvent) × (list k none b ≡ (ok (seen ++ more), b))
      × (list k (some (pos (length seen))) b ≡ (ok more, b))
unfolding list
list-resumes k a b {seen} v ext whole =
    let (more, found) = ext.stream k seen (ground arith) in
    (
      more,
      rw (found, list_events) refl,
      list-eq-drop_at k b v (length seen) found
          ∙ ap (λ (xs : List RunEvent). (ok xs, b)) (drop-length seen more),
    )

-- Reading changes nothing.
pub list_unchanged : (k : Uuid) (after : Option ℤ) (log : EventLog) → (list k after log).1 ≡ log
unfolding list
list_unchanged k after log = ground arith

-- Reading a stream from its beginning.
pub list-whole :
    (k : Uuid) (log : EventLog) {es : List RunEvent}
    → lookup k log.internal_run_events ≡ some es
    → list k none log ≡ (ok es, log)
unfolding list
list-whole k log found = rw (found, list_events)
