-- ===== src/Run/Repository.antt =====
-- run_lifecycle/repository.py, with the constraints of migration 002 on the two tables.
--
-- A CHECK that fails is an OperationalError of the driver; a duplicate key or a missing parent row
-- is an IntegrityError. The widths of the columns are not modelled.
use factory_ops.Common.{
  ℕ, ◌+◌, String, Option, none, some, List, ◌∷◌, Bool, true, false, ◌&&◌, ◌||◌, not, if◌then◌else◌,
  ◌==◌, leb, ◌=s◌, same_option, any, find, select, update, length, text_length, present, absent,
}
use factory_ops.Session.{Result, ok, integrity_error, operational_error, conditional_update_miss}
use factory_ops.Session.Statements.{◌>>=◌, ◌>>◌, guard, statements}
use factory_ops.Database.{Database, Tx}
use factory_ops.Ingress.Model.{InboxRow}
use factory_ops.Run.Model.{
  Instant, RunKind, original, replay, RunStatus, pending, suspended, succeeded, failed, cancelled,
  same_status, RunRow, RunTransition,
}

abbrev pub has_run_id : String → RunRow → Bool
has_run_id id row = row.run_id =s id

unfoldable pub inbox_event_exists : String → Database → Bool
inbox_event_exists event_id db = any (λ (e : InboxRow). e.event_id =s event_id) db.inbox

unfoldable pub find_run : String → Database → Option RunRow
find_run run_id db = find (has_run_id run_id) db.runs

abbrev pub has_trigger : String → RunRow → Bool
has_trigger event_id row = same_option row.trigger_event_id (some event_id)

unfoldable pub find_run_by_trigger_event : String → Database → Option RunRow
find_run_by_trigger_event event_id db = find (has_trigger event_id) db.runs

abbrev pub has_replay_request : String → RunRow → Bool
has_replay_request request_id row = same_option row.replay_request_id (some request_id)

unfoldable pub find_run_by_replay_request : String → Database → Option RunRow
find_run_by_replay_request request_id db = find (has_replay_request request_id) db.runs

abbrev pub has_request : String → RunTransition → Bool
has_request request_id t = t.transition_request_id =s request_id

unfoldable pub find_transition_by_request : String → Database → Option RunTransition
find_transition_by_request request_id db = find (has_request request_id) db.run_transitions

-- chk_agent_runs_identity
identity_check : RunKind → RunRow → Bool
identity_check original r =
    r.original_run_id =s r.run_id
    && present r.trigger_event_id
    && absent r.replayed_from_run_id
    && absent r.replay_request_id
identity_check replay r =
    not (r.original_run_id =s r.run_id)
    && absent r.trigger_event_id
    && present r.replayed_from_run_id
    && not (same_option r.replayed_from_run_id (some r.run_id))
    && present r.replay_request_id

-- chk_agent_runs_lifecycle
lifecycle_check : RunStatus → RunRow → Bool
lifecycle_check pending r = absent r.started_at && absent r.ended_at
lifecycle_check succeeded r = present r.started_at && present r.ended_at
lifecycle_check failed r = present r.started_at && present r.ended_at
lifecycle_check cancelled r = present r.ended_at
lifecycle_check _ r = present r.started_at && absent r.ended_at

abbrev between_lengths : ℕ → ℕ → Option String → Bool
between_lengths lo hi none = false
between_lengths lo hi (some s) = leb lo (text_length s) && leb (text_length s) hi

-- chk_agent_runs_reason
reason_check : RunStatus → RunRow → Bool
reason_check pending r = absent r.status_reason_code && absent r.status_reason_message
reason_check _ r =
    between_lengths 3 128 r.status_reason_code
    && (absent r.status_reason_message || between_lengths 1 500 r.status_reason_message)

-- All CHECK constraints of agent_runs.
unfoldable pub run_checks : RunRow → Bool
unfolding identity_check lifecycle_check reason_check
run_checks r =
    identity_check r.run_kind r
    && lifecycle_check r.status r
    && reason_check r.status r
    && (not (same_status r.status suspended) || present r.latest_checkpoint_id)
    && leb r.completed_task_count r.task_count

-- A unique key over a column that may be NULL.
abbrev pub unique_option : (RunRow → Option String) → Option String → List RunRow → Bool
unique_option column none rows = true
unique_option column (some v) rows = not (any (λ r. same_option (column r) (some v)) rows)

abbrev refers : (String → Bool) → Option String → Bool
refers exists none = true
refers exists (some id) = exists id

abbrev pub run_exists : Database → String → Bool
run_exists db id = any (has_run_id id) db.runs

abbrev execution_exists : Database → String → Bool
execution_exists db id = any (λ e. e.execution_id =s id) db.executions

-- The primary and unique keys.
unfoldable pub run_keys_free : RunRow → Database → Bool
run_keys_free r db =
    not (run_exists db r.run_id)
    && unique_option (λ x. x.trigger_event_id) r.trigger_event_id db.runs
    && unique_option (λ x. x.replay_request_id) r.replay_request_id db.runs

-- The foreign keys; a row may refer to itself.
unfoldable pub run_parents_exist : RunRow → Database → Bool
run_parents_exist r db =
    refers (λ id. inbox_event_exists id db) r.trigger_event_id
    && (r.original_run_id =s r.run_id || run_exists db r.original_run_id)
    && refers (run_exists db) r.replayed_from_run_id
    && refers (execution_exists db) r.coordinator_execution_id

-- `_insert_run`
unfoldable pub insert_run : RunRow → Database → Result Database
insert_run r db = do
  guard (run_checks r) operational_error
  guard (run_keys_free r db) integrity_error
  guard (run_parents_exist r db) integrity_error
  ok (record db { runs = r ∷ db.runs })

abbrev steps_by_one : Option ℕ → ℕ → Bool
steps_by_one none to = false
steps_by_one (some from) to = to == from + 1

-- chk_run_transitions_revision and chk_run_transitions_suspended
unfoldable pub transition_checks : RunTransition → Bool
transition_checks t =
    ((absent t.from_status
        && absent t.from_revision
        && same_status t.to_status pending
        && t.to_revision == 0)
      || (present t.from_status && steps_by_one t.from_revision t.to_revision))
    && (not (same_status t.to_status suspended) || present t.checkpoint_id)

abbrev pub same_slot : String → ℕ → RunTransition → Bool
same_slot run_id revision t = t.run_id =s run_id && t.to_revision == revision

unfoldable pub transition_keys_free : RunTransition → Database → Bool
transition_keys_free t db =
    not (any (λ x. x.transition_id =s t.transition_id) db.run_transitions)
    && not (any (has_request t.transition_request_id) db.run_transitions)
    && not (any (same_slot t.run_id t.to_revision) db.run_transitions)

-- `_insert_transition`
unfoldable pub insert_transition : RunTransition → Database → Result Database
insert_transition t db = do
  guard (transition_checks t) operational_error
  guard (transition_keys_free t db) integrity_error
  guard (run_exists db t.run_id) integrity_error
  ok (record db { run_transitions = t ∷ db.run_transitions })

-- The parameters of the UPDATE in `apply_transition`.
pub record TransitionUpdate : Type 0 where
  pub run_id : String
  pub expected_status : RunStatus
  pub expected_revision : ℕ
  pub to_status : RunStatus
  pub to_revision : ℕ
  pub occurred_at : Instant
  pub started_at : Option Instant
  pub ended_at : Option Instant
  pub reason_code : String
  pub status_reason_message : String
  pub checkpoint_id : Option String

-- The WHERE clause.
unfoldable pub is_target : TransitionUpdate → RunRow → Bool
is_target u r =
    r.run_id =s u.run_id
    && same_status r.status u.expected_status
    && r.revision == u.expected_revision

-- The SET clause.
unfoldable pub updated_row : TransitionUpdate → RunRow → RunRow
updated_row u r = record r {
  status = u.to_status;
  revision = u.to_revision;
  updated_at = u.occurred_at;
  started_at = u.started_at;
  ended_at = u.ended_at;
  status_reason_code = some u.reason_code;
  status_reason_message = some u.status_reason_message;
  latest_checkpoint_id =
      if same_status u.to_status suspended then u.checkpoint_id else r.latest_checkpoint_id;
}

-- Whether an UPDATE would break a CHECK on a row that it changes.
unfoldable pub update_breaks_check : TransitionUpdate → List RunRow → Bool
update_breaks_check u rows = any (λ r. is_target u r && not (run_checks (updated_row u r))) rows

unfoldable pub update_run : TransitionUpdate → Database → Result Database
update_run u db = do
  guard (not (update_breaks_check u db.runs)) operational_error
  guard (length (select (is_target u) db.runs) == 1) conditional_update_miss
  ok (record db { runs = update (is_target u) (updated_row u) db.runs })

unfoldable pub apply_transition : TransitionUpdate → RunTransition → Tx (Unit {0})
apply_transition u t = statements (λ db. do changed ← update_run u db; insert_transition t changed)

unfoldable pub insert_run_with_initial_transition : RunRow → RunTransition → Tx (Unit {0})
insert_run_with_initial_transition r t =
    statements (λ db. do created ← insert_run r db; insert_transition t created)
