-- ===== src/Execution/Rules/Plan.antt =====
-- What a plan of execution_lifecycle/rules.py says of the Execution that it is made for.
use factory_ops.Common.{
  ◌∙◌, ap, sym, ◌≡◌, ◌↔◌, Option, none, some, true, false, arith, if◌then◌else◌, ◌&&◌, present,
  is_blank, next, any,
}
use factory_ops.Session.{ok}
use factory_ops.Run.Model.{Instant}
use factory_ops.Execution.Model.{
  pending, running, succeeded, failed, same_status, TransitionCommand, TransitionPlan,
}
use factory_ops.Execution.Rules.{legal, is_legal, is_terminal, plan_transition}

-- A command that the rules allow: a legal arrow, named actors and a reason, a result exactly with
-- SUCCEEDED and a failure exactly with FAILED.
pub record IsAcceptable (c : TransitionCommand) : Type 0 where
  pub legal : is_legal c.expected_status c.to_status ≡ true
  pub kind : is_blank c.actor_kind ≡ false
  pub actor : is_blank c.actor_id ≡ false
  pub reason : is_blank c.reason_message ≡ false
  pub result : present c.result ≡ same_status c.to_status succeeded
  pub failure : present c.failure ≡ same_status c.to_status failed

-- The plan of a command that is allowed.
unfoldable pub planned : TransitionCommand → Option Instant → Instant → TransitionPlan
planned c started_at at = record {
  revision = next c.expected_revision;
  started_at =
      if same_status c.expected_status pending && same_status c.to_status running
      then some at
      else started_at;
  ended_at = if is_terminal c.to_status then some at else none;
}

pub plan_transition-legal :
    (c : TransitionCommand) (current : Option Instant) (at : Instant) (p : TransitionPlan)
    → plan_transition c current at ≡ ok p
    → is_legal c.expected_status c.to_status ≡ true
unfolding plan_transition
plan_transition-legal c current at p h = ground arith

plan_transition-IsAcceptable :
    (c : TransitionCommand) (current : Option Instant) (at : Instant) (p : TransitionPlan)
    → plan_transition c current at ≡ ok p
    → IsAcceptable c × (p ≡ planned c current at)
unfolding plan_transition planned is_legal legal any
plan_transition-IsAcceptable c current at p h = ground arith

IsAcceptable-plan_transition :
    (c : TransitionCommand) (current : Option Instant) (at : Instant)
    → IsAcceptable c
    → plan_transition c current at ≡ ok (planned c current at)
unfolding plan_transition planned
IsAcceptable-plan_transition c current at a =
    ground (arith, a.legal, a.kind, a.actor, a.reason, a.result, a.failure)

-- `plan_transition` returns exactly the planned row of the lifecycle, exactly for the commands that
-- the rules allow.
pub plan_transition_iff :
    (c : TransitionCommand) (current : Option Instant) (at : Instant) (p : TransitionPlan)
    → (plan_transition c current at ≡ ok p) ↔ (IsAcceptable c × (p ≡ planned c current at))
plan_transition_iff c current at p = (
  plan_transition-IsAcceptable c current at p,
  λ (a, e). IsAcceptable-plan_transition c current at a ∙ ap ok (sym e),
)
