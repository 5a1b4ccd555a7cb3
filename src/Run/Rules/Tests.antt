-- ===== src/Run/Rules/Tests.antt =====
-- Plans of small commands.
use factory_ops.Common.{
  ◌≡◌, ◌↔◌, refl, none, some, pos, any, all, is_blank, matches_reason_code, code_pattern,
}
use factory_ops.Session.{ok}
use factory_ops.Run.Model.{running, suspended, coordinator, TransitionCommand, TransitionPlan}
use factory_ops.Run.Rules.{
  is_legal, is_terminal, legal_transitions, terminal_statuses, member, planned_start, plan_from,
  plan_transition,
}
use factory_ops.Run.Rules.Plan.{
  IsAcceptable, IsPlan, plan_transition_accepts, plan_transition-IsPlan,
}

abbrev park : TransitionCommand
park = record {
  transition_request_id = "RTR-1";
  run_id = "RUN-1";
  expected_status = running;
  expected_revision = pos 3;
  to_status = suspended;
  actor_kind = coordinator;
  actor_id = "coordinator-1";
  reason_code = "AWAITING_PARTS";
  reason_message = none;
  checkpoint_id = some "CKP-1";
}

abbrev parked : TransitionPlan
parked = record {
  from_status = running;
  to_status = suspended;
  from_revision = 3;
  to_revision = 4;
  started_at = some 100;
  ended_at = none;
  occurred_at = 200;
  checkpoint_id = some "CKP-1";
}

planned : plan_transition park (some 100) 200 ≡ ok parked
unfolding plan_transition planned_start plan_from is_legal is_terminal legal_transitions
    terminal_statuses member is_blank matches_reason_code code_pattern any all
planned = refl

plan_transition_accepts_example :
    ((p : TransitionPlan) × (plan_transition park (some 100) 200 ≡ ok p))
    ↔ IsAcceptable park (some 100)
plan_transition_accepts_example = plan_transition_accepts park (some 100) 200

plan_transition-IsPlan_example : IsPlan park (some 100) 200 parked
plan_transition-IsPlan_example = plan_transition-IsPlan park (some 100) 200 parked planned
