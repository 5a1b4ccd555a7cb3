-- ===== src/Task/Rules/Tests.antt =====
-- Plans of small Task commands.
use factory_ops.Common.{
  ◌≡◌, refl, some, none, pos, any, all, is_blank, matches_reason_code, code_pattern,
}
use factory_ops.Session.{ok}
use factory_ops.Task.Model.{running, TransitionCommand, TransitionPlan}
use factory_ops.Task.Rules.{
  legal, terminal, is_legal, is_terminal, Attempt, planned_attempt, planned_result, plan_transition,
}
use factory_ops.Task.Rules.Plan.{IsTaskPlan, plan_transition-IsTaskPlan}

abbrev retry : TransitionCommand
retry = record {
  transition_request_id = "TTR-1";
  task_id = "TSK-1";
  expected_status = running;
  expected_revision = pos 1;
  to_status = running;
  actor_kind = "worker";
  actor_id = "worker-1";
  reason_code = "TASK_RETRIED";
  reason_message = "second attempt";
  execution_id = some "EXE-2";
  completion_execution_id = none;
  failure_code = none;
  failure_message = none;
  failure_recoverability = none;
}

abbrev first : Attempt
first = record { started_at = some 100; execution = some "EXE-1"; attempts = 1 }

abbrev second : TransitionPlan
second = record {
  to_revision = pos 2;
  started_at = some 100;
  ended_at = none;
  current_execution_id = some "EXE-2";
  attempt_count = 2;
}

planned : plan_transition retry first 200 ≡ ok second
unfolding plan_transition planned_attempt planned_result is_legal is_terminal legal terminal
    is_blank matches_reason_code code_pattern any all
planned = refl

plan_transition-IsTaskPlan_example : IsTaskPlan retry first 200 second
plan_transition-IsTaskPlan_example = plan_transition-IsTaskPlan retry first 200 second planned
