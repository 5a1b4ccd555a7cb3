-- ===== src/Ingress/Offsets.antt =====
-- The worker of event_ingress/worker.py commits an offset only behind a stored row, and seeks back
-- to the record of a failed run.
use factory_ops.Common.{
  ◌≡◌, refl, ap, ◌∙◌, String, Option, none, some, List, [], ◌∷◌, Bool, true, arith, ◌⊎◌, inl, inr,
}
use factory_ops.Session.{Exception, Result, ok, err, World}
use factory_ops.Session.Keeps.{Guided}
use factory_ops.Database.{Database}
use factory_ops.Ingress.Model.{KafkaRecord, ProcessingResult}
use factory_ops.Ingress.RuntimeConfig.{AgentRuntimeConfig}
use factory_ops.Ingress.Worker.{
  Decoded, process, ConsumerCall, WorkerStep, commit, seek, after_process, run_once,
}
use factory_ops.Run.Service.Calls.{Inputs}
use factory_ops.Ingress.Durable.{is_recorded, Retains, process_records}

abbrev pub last : List ConsumerCall → Option ConsumerCall
last [] = none
last (call ∷ []) = some call
last (_ ∷ rest) = last rest

after_process-commits :
    (source : KafkaRecord) (committed : Result (Unit {0})) (r : Result ProcessingResult)
    (w : World Database) (rest : List ConsumerCall)
    → (after_process source committed (r, w)).0.consumer_calls ≡ commit source ∷ rest
    → ((p : ProcessingResult) × (r ≡ ok p)) × ((after_process source committed (r, w)).1 ≡ w)
unfolding after_process
after_process-commits source committed r w rest h = ground arith

-- `run_once` commits the offset of a record only when the record has left a row: its event in the
-- inbox, or a rejection, when the other sessions delete none.
pub commit-is_recorded :
    (matches : String → String → Bool) (config : AgentRuntimeConfig) (inputs : Inputs)
    (decode : KafkaRecord → Decoded) (source : KafkaRecord) (committed : Result (Unit {0}))
    (w : World Database) (rest : List ConsumerCall)
    → Guided Retains w.upcoming
    → (run_once matches config inputs decode (ok (some source)) committed w).0.consumer_calls
      ≡ commit source ∷ rest
    → is_recorded source
        (decode source)
        (run_once matches config inputs decode (ok (some source)) committed w).1.store
      ≡ true
unfolding run_once
commit-is_recorded matches config inputs decode source committed w rest g h =
    let done = process matches config inputs decode source w in
    let ((r, e), still) = after_process-commits source committed done.0 done.1 rest h in
    ap (λ (v : World Database). is_recorded source (decode source) v.store) still
    ∙ process_records matches config inputs decode source w r g e

-- What `run_once` leaves when it raises: the poll raised, and nothing was done, or a record was
-- polled and the last call of the consumer seeks back to it.
abbrev pub IsRetryable :
    Result (Option KafkaRecord) → Exception → World Database → WorkerStep × World Database → Type 0
IsRetryable polled e w done =
    ((polled ≡ err e) × (done.0.consumer_calls ≡ []) × (done.1 ≡ w))
    ⊎ ((source : KafkaRecord) × (polled ≡ ok (some source))
        × (last done.0.consumer_calls ≡ some (seek source)))

-- When `run_once` raises, then either `poll` raised that exception, and `run_once` has called
-- nothing else of the consumer and left the tables; or `poll` returned a record, and the last call
-- of the consumer is the seek back to it.
pub failure_seeks :
    (matches : String → String → Bool) (config : AgentRuntimeConfig) (inputs : Inputs)
    (decode : KafkaRecord → Decoded) (polled : Result (Option KafkaRecord))
    (committed : Result (Unit {0})) (w : World Database) (e : Exception)
    → (run_once matches config inputs decode polled committed w).0.result ≡ err e
    → IsRetryable polled e w (run_once matches config inputs decode polled committed w)
unfolding run_once after_process
failure_seeks matches config inputs decode (err x) committed w e h = inl (ground arith, refl, refl)
failure_seeks matches config inputs decode (ok none) committed w e h = absurd cc
failure_seeks matches config inputs decode (ok (some source)) committed w e h =
    inr (source, refl, seeks (process matches config inputs decode source w) committed h)
  where
    seeks :
        (done : Result ProcessingResult × World Database) (committed : Result (Unit {0}))
        → (after_process source committed done).0.result ≡ err e
        → last (after_process source committed done).0.consumer_calls ≡ some (seek source)
    seeks (ok r, v) (ok _) h = cc
    seeks (ok r, v) (err x) h = refl
    seeks (err x, v) committed h = refl
