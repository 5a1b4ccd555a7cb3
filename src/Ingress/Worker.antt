-- ===== src/Ingress/Worker.antt =====
-- event_ingress/processor.py and event_ingress/worker.py. What the decoder makes of a record, and
-- what the calls of the consumer do, are parameters.
use factory_ops.Common.{String, Option, none, some, List, [], ◌∷◌, Bool}
use factory_ops.Session.{Result, ok, err, World, pure, ◌>>=◌}
use factory_ops.Database.{Database, Action}
use factory_ops.Ingress.Model.{
  KafkaRecord, DecodedEvent, DecodeFailure, IngressOutcome, accepted, duplicate_identical,
  ProcessingResult, not_applicable,
}
use factory_ops.Ingress.Inbox.{accept, reject}
use factory_ops.Ingress.RuntimeConfig.{AgentRuntimeConfig}
use factory_ops.Ingress.Starter.{RunStartResult, ensure_original_run}
use factory_ops.Run.Service.Calls.{Inputs}

-- `decode` returns an event or raises a `DecodeFailure`.
pub data Decoded : Type 0 where
  event : DecodedEvent → Decoded
  failure : DecodeFailure → Decoded

abbrev unstarted : IngressOutcome → Option String → ProcessingResult
unstarted outcome event_id = record {
  outcome = outcome;
  event_id = event_id;
  run_id = none;
  run_start_outcome = not_applicable;
}

abbrev started_by : IngressOutcome → DecodedEvent → RunStartResult → ProcessingResult
started_by outcome e started = record {
  outcome = outcome;
  event_id = some e.event_id;
  run_id = some started.run_id;
  run_start_outcome = started.outcome;
}

module _ (matches : String → String → Bool) (config : AgentRuntimeConfig) (inputs : Inputs) where
  -- After `accept`.
  unfoldable pub after_accept : DecodedEvent → IngressOutcome → Action ProcessingResult
  after_accept e accepted = do
    started ← ensure_original_run matches config inputs e
    pure (started_by accepted e started)
  after_accept e duplicate_identical = do
    started ← ensure_original_run matches config inputs e
    pure (started_by duplicate_identical e started)
  after_accept e outcome = pure (unstarted outcome (some e.event_id))

  unfoldable pub process_decoded : KafkaRecord → Decoded → Action ProcessingResult
  process_decoded source (failure f) = do
    outcome ← reject source f
    pure (unstarted outcome f.event_id)
  process_decoded source (event e) = do outcome ← accept e; after_accept e outcome

  unfoldable pub process : (KafkaRecord → Decoded) → KafkaRecord → Action ProcessingResult
  process decode source = process_decoded source (decode source)

-- The calls that change the position of the consumer.
pub data ConsumerCall : Type 0 where
  commit seek : KafkaRecord → ConsumerCall

-- How `run_once` ends, with the calls it made of the consumer, in order.
pub record WorkerStep : Type 0 where
  pub result : Result (Option ProcessingResult)
  pub consumer_calls : List ConsumerCall

-- After `commit`.
abbrev after_commit : KafkaRecord → ProcessingResult → Result (Unit {0}) → WorkerStep
after_commit source result (ok _) = record {
  result = ok (some result);
  consumer_calls = commit source ∷ [];
}
after_commit source result (err e) = record {
  result = err e;
  consumer_calls = commit source ∷ seek source ∷ [];
}

unfoldable pub after_process :
    KafkaRecord
    → Result (Unit {0})
    → Result ProcessingResult × World Database
    → WorkerStep × World Database
after_process source committed (ok result, w) = (after_commit source result committed, w)
after_process source committed (err e, w) =
    (record { result = err e; consumer_calls = seek source ∷ [] }, w)

module _ (matches : String → String → Bool) (config : AgentRuntimeConfig) (inputs : Inputs)
    (decode : KafkaRecord → Decoded) where
  -- `run_once`, given what `poll` returns or raises, outside the `try`, and what `commit` does.
  unfoldable pub run_once :
      Result (Option KafkaRecord) → Result (Unit {0}) → World Database → WorkerStep × World Database
  run_once (err e) committed w = (record { result = err e; consumer_calls = [] }, w)
  run_once (ok none) committed w = (record { result = ok none; consumer_calls = [] }, w)
  run_once (ok (some source)) committed w =
      after_process source committed (process matches config inputs decode source w)
