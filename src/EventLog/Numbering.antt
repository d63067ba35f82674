-- ===== src/EventLog/Numbering.antt =====
-- The streams of the event log are numbered 1, 2, … without a gap, and only grow at their ends.
use movie_reservation_agent.Prelude.{
  ℕ, suc, ◌+◌, String, ◌≡◌, refl, Option, none, some, List, [], ◌∷◌, ◌++◌, arith, append_assoc,
  append-nil, length, length-append, Option-cases, inl, inr, ◌==◌, Bool-cases, is_some, true, ap,
  ◌∙◌,
}
use movie_reservation_agent.Exec.{ok}
use movie_reservation_agent.Dict.{Uuid, lookup, insert, lookup-insert, lookup-insert_self, contains}
use movie_reservation_agent.Contracts.{Payload, Timestamp, RunEvent}
use movie_reservation_agent.EventLog.{EventLog, empty_log, init_run_stream, append_event, append}

-- The events belong to one run and are numbered from `n` on.
abbrev pub IsNumbered : Uuid → ℕ → List RunEvent → Type 0
IsNumbered k n [] = Unit
IsNumbered k n (e ∷ es) = (e.run_id ≡ k) × (e.sequence_nr ≡ n) × IsNumbered k (suc n) es

-- A stream with its next number: numbered from 1, and the next number comes after the last.
abbrev pub IsValidStream : Uuid → Option (List RunEvent) → Option ℕ → Type 0
IsValidStream k none next = Unit
IsValidStream k (some es) next = IsNumbered k 1 es × (next ≡ some (suc (length es)))

-- Every stream of the log is valid.
pub record IsValid (log : EventLog) : Type 0 where
  pub stream :
      (k : Uuid)
      → IsValidStream k (lookup k log.internal_run_events) (lookup k log.next_sequence_nr)

pub empty_log-IsValid : IsValid empty_log
unfolding lookup
empty_log-IsValid = record { stream = λ k. tt }

IsNumbered-append :
    (k : Uuid) (n : ℕ) (es : List RunEvent) (e : RunEvent)
    → IsNumbered k n es
    → e.run_id ≡ k
    → e.sequence_nr ≡ n + length es
    → IsNumbered k n (es ++ e ∷ [])
IsNumbered-append k n [] e h own nr = (own, omega arith, tt)
IsNumbered-append k n (x ∷ es) e h own nr =
    (h.0, h.1, IsNumbered-append k (suc n) es e h.2 own (omega arith))

-- Writing a valid stream at one key keeps the log valid.
insert-IsValid :
    (k : Uuid) (es : List RunEvent) (n : ℕ) (log : EventLog)
    → IsNumbered k 1 es
    → n ≡ suc (length es)
    → IsValid log
    → IsValid (record {
      internal_run_events = insert k es log.internal_run_events;
      next_sequence_nr = insert k n log.next_sequence_nr;
    })
insert-IsValid k es n log h e v = record {
  stream = λ j. elim (Bool-cases (k == j)) [
    | inl same ↦
        let kj : k ≡ j = ground arith in
        rw (lookup-insert, lookup-insert, same)
          (rw kj at (let p : IsValidStream k (some es) (some n) = (h, ap some e) in p))
    | inr other ↦ rw (lookup-insert, lookup-insert, other) (v.stream j)
  ];
}

pub init_run_stream-IsValid :
    (k : Uuid) (log : EventLog) → IsValid log → IsValid (init_run_stream k log).1
unfolding init_run_stream
init_run_stream-IsValid k log v = elim (Option-cases (lookup k log.internal_run_events)) [
  | inl new ↦ rw (new, is_some) (insert-IsValid k [] 1 log tt refl v)
  | inr (es, old) ↦ rw (old, is_some) v
]

pub append-IsValid :
    (k : Uuid) (ty : String) (p : Payload) (now : Timestamp) (log : EventLog)
    → IsValid log
    → IsValid (append k ty p now log).1
unfolding append
append-IsValid k ty p now log v = elim (Option-cases (lookup k log.internal_run_events)) [
  | inl absent ↦ rw (absent, append_event) v
  | inr (es, found) ↦
      let at : IsValidStream k (some es) (lookup k log.next_sequence_nr) =
        rw found at (v.stream k) in
      rw (found, at.1, append_event)
        (insert-IsValid k _ _ log (IsNumbered-append k 1 es _ at.0 refl (omega arith))
          (omega (arith, length-append {0})) v)
]

-- `init_run_stream` never raises, and the stream is there afterwards.
pub init_run_stream_ok : (k : Uuid) (log : EventLog) → (init_run_stream k log).0 ≡ ok tt
unfolding init_run_stream
init_run_stream_ok k log = ground arith

pub contains-init_run_stream :
    (k : Uuid) (log : EventLog) → contains k (init_run_stream k log).1.internal_run_events ≡ true
unfolding init_run_stream
contains-init_run_stream k log = elim (Option-cases (lookup k log.internal_run_events)) [
  | inl new ↦ rw (new, is_some) (rw lookup-insert_self)
  | inr (es, old) ↦ rw (old, is_some) (rw (old, is_some))
]

-- In a valid log, appending to a stream that is there does not raise.
pub append_ok :
    (k : Uuid) (ty : String) (p : Payload) (now : Timestamp) (log : EventLog)
    → IsValid log
    → contains k log.internal_run_events ≡ true
    → (e : RunEvent) × ((append k ty p now log).0 ≡ ok e)
unfolding append
append_ok k ty p now log v c = elim (Option-cases (lookup k log.internal_run_events)) [
  | inl absent ↦ absurd (ground (arith, absent))
  | inr (es, found) ↦
      let at : IsValidStream k (some es) (lookup k log.next_sequence_nr) =
        rw found at (v.stream k) in
      rw (found, at.1, append_event) (_, refl)
]

-- `b` holds the streams of `a`, each with more events at its end.
pub record Extends (a b : EventLog) : Type 0 where
  pub stream :
      (k : Uuid) (es : List RunEvent)
      → lookup k a.internal_run_events ≡ some es
      → (more : List RunEvent) × (lookup k b.internal_run_events ≡ some (es ++ more))

pub Extends-refl : (a : EventLog) → Extends a a
Extends-refl a = record { stream = λ k es h. ([], rw append-nil h) }

pub Extends-trans : (a b c : EventLog) → Extends a b → Extends b c → Extends a c
Extends-trans a b c p q = record {
  stream = λ k es h.
      let (m, hb) = p.stream k es h in
      let (m', hc) = q.stream k (es ++ m) hb in (m ++ m', hc ∙ ap some (append_assoc es m m'));
}

pub init_run_stream-Extends : (k : Uuid) (log : EventLog) → Extends log (init_run_stream k log).1
unfolding init_run_stream
init_run_stream-Extends k log = elim (Option-cases (lookup k log.internal_run_events)) [
  | inl new ↦
      rw (new, is_some)
        (record {
          stream = λ j es h.
              ([], ground (arith, lookup-insert k j [] log.internal_run_events, append-nil es));
        })
  | inr (es, old) ↦ rw (old, is_some) (Extends-refl log)
]

insert_grown-Extends :
    (k : Uuid) (es more : List RunEvent) (n : ℕ) (log : EventLog)
    → lookup k log.internal_run_events ≡ some es
    → Extends log (record {
      internal_run_events = insert k (es ++ more) log.internal_run_events;
      next_sequence_nr = insert k n log.next_sequence_nr;
    })
insert_grown-Extends k es more n log found = record {
  stream = λ j xs h. elim (Bool-cases (k == j)) [
    | inl same ↦
        (more, ground (arith, found, lookup-insert k j (es ++ more) log.internal_run_events))
    | inr other ↦
        ([], ground (arith, append-nil xs, lookup-insert k j (es ++ more) log.internal_run_events))
  ];
}

-- Appending only grows streams.
pub append-Extends :
    (k : Uuid) (ty : String) (p : Payload) (now : Timestamp) (log : EventLog)
    → Extends log (append k ty p now log).1
unfolding append
append-Extends k ty p now log = elim (Option-cases (lookup k log.internal_run_events)) [
  | inl absent ↦ rw (absent, append_event) (Extends-refl log)
  | inr (es, found) ↦ elim (Option-cases (lookup k log.next_sequence_nr)) [
    | inl unnumbered ↦ rw (found, unnumbered, append_event) (Extends-refl log)
    | inr (n, numbered) ↦
        rw (found, numbered, append_event) (insert_grown-Extends k es _ _ log found)
  ]
]
