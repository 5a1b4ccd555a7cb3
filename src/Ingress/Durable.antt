-- ===== src/Ingress/Durable.antt =====
-- A record that event_ingress/processor.py handles leaves a stored row.
use factory_ops.Common.{
  ℕ, ◌≡◌, refl, ap, ◌∙◌, String, Option, none, some, List, [], ◌∷◌, Bool, true, ◌&&◌, ◌||◌, arith,
  =s_iff, any, find, Bool-cases, inl, inr,
}
use factory_ops.Session.{ok, World}
use factory_ops.Session.Keeps.{
  Guided, Keeps, TxKeeps, Keeps-bind, Keeps-attempt, Keeps-lift, Keeps-pure,
}
use factory_ops.Session.Ensures.{Ensures, Ensures-begin, Ensures-kept}
use factory_ops.Database.{Database}
use factory_ops.Ingress.Model.{
  KafkaRecord, DecodedEvent, DecodeFailure, IngressOutcome, accepted, duplicate_identical,
  ProcessingResult, InboxRow, RejectionRow,
}
use factory_ops.Ingress.Inbox.{
  same_bytes, inbox_row, has_event_id, rejection_source, inbox_keys_free, insert_rejection,
  compare_existing, accept_event, accept, reject_record, reject,
}
use factory_ops.Ingress.RuntimeConfig.{AgentRuntimeConfig}
use factory_ops.Ingress.Starter.{ensure_original_run}
use factory_ops.Ingress.Worker.{Decoded, event, failure, after_accept, process_decoded, process}
use factory_ops.Run.Model.{RunRow, RunTransition}
use factory_ops.Run.Repository.{insert_run_with_initial_transition}
use factory_ops.Run.Consistency.Writes.{
  IsBirth, insert_run-ok, insert_transition-ok, insert_run_with_initial_transition-ok,
}
use factory_ops.Run.Service.Calls.{Inputs}
use factory_ops.Run.Service.Keeps.{create_original_run-Keeps}

-- The inbox has the event with this content.
abbrev pub holds_event : DecodedEvent → InboxRow → Bool
holds_event e row =
    has_event_id e.event_id row && same_bytes row.canonical_sha256 e.canonical_sha256

-- The record has left a row: its event, or a rejection of it.
abbrev pub is_recorded : KafkaRecord → Decoded → Database → Bool
is_recorded source (failure f) db = any (rejection_source source) db.rejections
is_recorded source (event e) db =
    any (holds_event e) db.inbox || any (rejection_source e.source) db.rejections

same_bytes_refl : (b : List ℕ) → same_bytes b b ≡ true
same_bytes_refl [] = refl
same_bytes_refl (x ∷ xs) = ground (arith, same_bytes_refl xs)

rejection_source-own :
    (source : KafkaRecord) (row : RejectionRow)
    → row.topic ≡ source.topic
    → row.partition ≡ source.partition
    → row.offset ≡ source.offset
    → rejection_source source row ≡ true
rejection_source-own source row t p o = ground (arith, =s_iff row.topic source.topic)

insert_rejection-stores :
    (source : KafkaRecord) (code detail : String) (id : Option String) (sha : List ℕ)
    (db : Database)
    → any (rejection_source source) (insert_rejection source code detail id sha db).rejections
      ≡ true
unfolding insert_rejection any
insert_rejection-stores source code detail id sha db =
    elim (Bool-cases (any (rejection_source source) db.rejections)) [
      | inl known ↦ unfold any insert_rejection in rw known known
      | inr new ↦
          unfold any insert_rejection in
          rw (new, (=s_iff source.topic source.topic).1 refl) (ground arith)
    ]

find-any :
    (p q : InboxRow → Bool) (rows : List InboxRow) (row : InboxRow)
    → find p rows ≡ some row
    → q row ≡ true
    → any (λ x. p x && q x) rows ≡ true
unfolding find any
find-any p q [] row h k = cc
find-any p q (x ∷ xs) row h k = ground (arith, find-any p q xs row)

or-true : (a : Bool) → (a || true) ≡ true
or-true a = ground arith

accept_event-stores :
    (e : DecodedEvent) (source : KafkaRecord) (db : Database) (o : IngressOutcome)
    → (accept_event e db).0 ≡ ok o
    → is_recorded source (event e) (accept_event e db).1 ≡ true
unfolding accept_event
accept_event-stores e source db o h = elim (Bool-cases (inbox_keys_free e db)) [
  | inl free ↦ rw free (new_row free)
  | inr taken ↦ rw taken (seen (find (has_event_id e.event_id) db.inbox) refl (rw taken at h))
]
  where
    new_row :
        inbox_keys_free e db ≡ true
        → is_recorded source (event e) (record db { inbox = inbox_row e ∷ db.inbox }) ≡ true
    new_row free =
        unfold inbox_row any in
        rw ((=s_iff e.event_id e.event_id).1 refl, same_bytes_refl e.canonical_sha256) refl

    seen :
        (found : Option InboxRow)
        → find (has_event_id e.event_id) db.inbox ≡ found
        → (compare_existing e found db).0 ≡ ok o
        → is_recorded source (event e) (compare_existing e found db).1 ≡ true
    seen none f k = unfold compare_existing in cc
    seen (some row) f k = elim (Bool-cases (same_bytes row.canonical_sha256 e.canonical_sha256)) [
      | inl same ↦
          unfold compare_existing in
          rw
            (
              same,
              find-any (has_event_id e.event_id)
                  (λ x. same_bytes x.canonical_sha256 e.canonical_sha256) db.inbox row f same,
            )
            refl
      | inr differs ↦
          unfold compare_existing in
          rw
            (
              differs,
              insert_rejection-stores e.source "duplicate_conflicting"
                  "same event_id has different canonical content" (some e.event_id)
                  e.canonical_sha256 db,
            )
            (or-true _)
    ]

-- The other sessions delete no row of the inbox or of the rejections.
abbrev pub Retains : Database → Database → Type 0
Retains s s' =
    (source : KafkaRecord) (d : Decoded)
    → is_recorded source d s ≡ true
    → is_recorded source d s' ≡ true

abbrev IsRecorded : KafkaRecord → Decoded → Database → Type 0
IsRecorded source d s = is_recorded source d s ≡ true

births-TxKeeps :
    (source : KafkaRecord) (d : Decoded) (r : RunRow) (t : RunTransition)
    → IsBirth r t
    → TxKeeps (IsRecorded source d) (insert_run_with_initial_transition r t)
births-TxKeeps source d r t b = record {
  at = λ db h a e.
      let (mid, hr, ht) = insert_run_with_initial_transition-ok r t b db e in
      let last = (insert_transition-ok t mid (insert_run_with_initial_transition r t db).1 ht).3 in
      same db (insert_run_with_initial_transition r t db).1 (r ∷ db.runs) (t ∷ mid.run_transitions)
        (last
          ∙ ap (λ (m : Database). record m { run_transitions = t ∷ mid.run_transitions })
              (insert_run-ok r db mid hr).1)
        d h;
}
  where
    same :
        (db db' : Database) (rs : List RunRow) (ts : List RunTransition)
        → db' ≡ record db { runs = rs; run_transitions = ts }
        → (d : Decoded) → IsRecorded source d db
        → IsRecorded source d db'
    same db db' rs ts e (failure f) h = rw e h
    same db db' rs ts e (event x) h = rw e h

reject_record-stores :
    (source : KafkaRecord) (f : DecodeFailure) (s : Database)
    → is_recorded source (failure f) (reject_record source f s).1 ≡ true
unfolding reject_record
reject_record-stores source f s =
    insert_rejection-stores source f.code f.detail f.event_id f.payload_sha256 s

module _ (matches : String → String → Bool) (config : AgentRuntimeConfig) (inputs : Inputs)
    (source : KafkaRecord) where
  ensure_original_run-Keeps :
      (d : Decoded) (e : DecodedEvent)
      → Keeps Retains (IsRecorded source d) (ensure_original_run matches config inputs e)
  unfolding ensure_original_run
  ensure_original_run-Keeps d e =
      Keeps-bind _ _
        (Keeps-attempt _ (
          create_original_run-Keeps matches Retains (IsRecorded source d) (λ s s' g p. g source d p)
            (births-TxKeeps source d) inputs _))
        (λ r. Keeps-lift _)

  after_accept-Keeps :
      (d : Decoded) (e : DecodedEvent) (o : IngressOutcome)
      → Keeps Retains (IsRecorded source d) (after_accept matches config inputs e o)
  unfolding after_accept
  after_accept-Keeps d e accepted =
      Keeps-bind _ _ (ensure_original_run-Keeps d e) (λ r. Keeps-pure _)
  after_accept-Keeps d e duplicate_identical =
      Keeps-bind _ _ (ensure_original_run-Keeps d e) (λ r. Keeps-pure _)
  after_accept-Keeps d e _ = Keeps-pure _

  process_decoded-Ensures :
      (d : Decoded)
      → Ensures Retains
          (λ _. Unit {0})
          (λ _ s. is_recorded source d s ≡ true)
          (process_decoded matches config inputs source d)
  unfolding process_decoded accept reject
  process_decoded-Ensures (failure f) =
      Ensures-begin _ _ (IsRecorded source (failure f)) _ _ (λ s s' g p. tt)
        (λ s p o e. reject_record-stores source f s) (record { at = λ s p o e. tt }) _
        (λ o. Ensures-kept _ (Keeps-pure _))
  process_decoded-Ensures (event e) =
      Ensures-begin _ _ (IsRecorded source (event e)) _ _ (λ s s' g p. tt)
        (λ s p o h. accept_event-stores e source s o h) (record { at = λ s p o e. tt }) _
        (λ o. Ensures-kept _ (after_accept-Keeps (event e) e o))

-- A record that `process` handles without an exception has left a row: its event in the inbox, or
-- a rejection, when the other sessions delete none.
pub process_records :
    (matches : String → String → Bool) (config : AgentRuntimeConfig) (inputs : Inputs)
    (decode : KafkaRecord → Decoded) (source : KafkaRecord) (w : World Database)
    (r : ProcessingResult)
    → Guided Retains w.upcoming
    → (process matches config inputs decode source w).0 ≡ ok r
    → is_recorded source (decode source) (process matches config inputs decode source w).1.store
      ≡ true
unfolding process
process_records matches config inputs decode source w r g e =
    (process_decoded-Ensures matches config inputs source (decode source)).at w
      (record { now = tt; later = g }) r e
