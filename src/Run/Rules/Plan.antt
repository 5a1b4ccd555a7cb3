-- ===== src/Run/Rules/Plan.antt =====
-- What `plan_transition` accepts, and what it plans.
use factory_ops.Common.{
  ℕ, ◌+◌, ◌≡◌, ap, sym, ◌∙◌, ◌≢◌, ◌⊎◌, ◌↔◌, Option, none, some, true, false, ◌&&◌, arith, pos,
  truthy, is_blank, matches_reason_code, if◌then◌else◌,
}
use factory_ops.Session.{ok}
use factory_ops.Run.Model.{
  Instant, RunStatus, pending, running, suspended, same_status, same_status_iff, TransitionCommand,
  TransitionPlan,
}
use factory_ops.Run.Rules.{
  is_legal, is_terminal, blank_message, planned_start, plan_from, plan_transition,
}

-- A command that the rules allow on a Run with this `started_at`.
pub record IsAcceptable (c : TransitionCommand) (current : Option Instant) : Type 0 where
  pub legal : is_legal c.expected_status c.to_status ≡ true
  pub revision : (n : ℕ) × (c.expected_revision ≡ pos n)
  pub coded : matches_reason_code c.reason_code ≡ true
  pub acted : is_blank c.actor_id ≡ false
  pub explained : blank_message c.reason_message ≡ false
  pub parked : truthy c.checkpoint_id ≡ same_status c.to_status suspended
  pub fresh : c.expected_status ≡ pending → c.to_status ≡ running → current ≡ none

plan_transition-IsAcceptable :
    (c : TransitionCommand) (current : Option Instant) (at : Instant) (p : TransitionPlan)
    → plan_transition c current at ≡ ok p
    → IsAcceptable c current
unfolding plan_transition
plan_transition-IsAcceptable c current at p h = ground arith

IsAcceptable-plan_transition :
    (c : TransitionCommand) (current : Option Instant) (at : Instant)
    → IsAcceptable c current
    → (p : TransitionPlan) × (plan_transition c current at ≡ ok p)
unfolding plan_transition
IsAcceptable-plan_transition c current at a =
    let (n, e) = a.revision in
    (
      plan_from c current at n (
          if same_status c.expected_status pending && same_status c.to_status running
          then some at
          else current),
      ground (
        arith,
        a.legal,
        a.coded,
        a.acted,
        a.explained,
        a.parked,
        a.fresh,
        same_status_iff c.expected_status pending,
        same_status_iff c.to_status running,
      ),
    )

-- `plan_transition` returns a plan exactly for the commands that the rules allow.
pub plan_transition_accepts :
    (c : TransitionCommand) (current : Option Instant) (at : Instant)
    → ((p : TransitionPlan) × (plan_transition c current at ≡ ok p)) ↔ IsAcceptable c current
plan_transition_accepts c current at = (
  λ (p, e). plan_transition-IsAcceptable c current at p e,
  IsAcceptable-plan_transition c current at,
)

-- What a plan says of the Run that it is applied to at the instant `at`.
pub record IsPlan (c : TransitionCommand) (current : Option Instant) (at : Instant)
    (p : TransitionPlan) : Type 0 where
  pub from_status : p.from_status ≡ c.expected_status
  pub to_status : p.to_status ≡ c.to_status
  pub from_revision : c.expected_revision ≡ pos p.from_revision
  pub to_revision : p.to_revision ≡ p.from_revision + 1
  pub legal : is_legal p.from_status p.to_status ≡ true
  pub ended : p.ended_at ≡ (if is_terminal p.to_status then some at else none)
  pub first_start : p.from_status ≡ pending → p.to_status ≡ running → p.started_at ≡ some at
  pub kept_start : (p.from_status ≢ pending) ⊎ (p.to_status ≢ running) → p.started_at ≡ current
  pub occurred : p.occurred_at ≡ at
  pub parked : truthy p.checkpoint_id ≡ same_status p.to_status suspended

planned_start-first :
    (from to : RunStatus) (current : Option Instant) (at : Instant) (started : Option Instant)
    → planned_start from to current at ≡ ok started
    → from ≡ pending
    → to ≡ running
    → started ≡ some at
unfolding planned_start
planned_start-first from to current at started h f t =
    ground (arith, same_status_iff from pending, same_status_iff to running)

planned_start-kept :
    (from to : RunStatus) (current : Option Instant) (at : Instant) (started : Option Instant)
    → planned_start from to current at ≡ ok started
    → (from ≢ pending) ⊎ (to ≢ running)
    → started ≡ current
unfolding planned_start
planned_start-kept from to current at started h k =
    ground (arith, same_status_iff from pending, same_status_iff to running)

-- The plan that is returned, and the value that `started_at` gets in it.
plan_transition-from :
    (c : TransitionCommand) (current : Option Instant) (at : Instant) (p : TransitionPlan)
    → plan_transition c current at ≡ ok p
    → (planned_start c.expected_status c.to_status current at ≡ ok p.started_at)
      × (p ≡ plan_from c current at p.from_revision p.started_at)
      × (c.expected_revision ≡ pos p.from_revision)
unfolding plan_transition
plan_transition-from c current at p h = ground arith

-- A plan moves the Run by one revision along a legal transition, ends it exactly at a terminal
-- status, starts it exactly at the step from PENDING to RUNNING, and has a checkpoint exactly
-- for SUSPENDED.
pub plan_transition-IsPlan :
    (c : TransitionCommand) (current : Option Instant) (at : Instant) (p : TransitionPlan)
    → plan_transition c current at ≡ ok p
    → IsPlan c current at p
unfolding plan_from
plan_transition-IsPlan c current at p h =
    let a = plan_transition-IsAcceptable c current at p h in
    let (start, made, revision) = plan_transition-from c current at p h in
    let from : p.from_status ≡ c.expected_status =
      ap (λ (q : TransitionPlan). q.from_status) made in
    let to : p.to_status ≡ c.to_status = ap (λ (q : TransitionPlan). q.to_status) made in
    let started = planned_start-kept c.expected_status c.to_status current at p.started_at start in
    record {
      from_status = from;
      to_status = to;
      from_revision = revision;
      to_revision = ap (λ (q : TransitionPlan). q.to_revision) made;
      legal = rw (from, to) a.legal;
      ended = ap (λ (q : TransitionPlan). q.ended_at) made ∙ rw to;
      first_start = λ f t.
          planned_start-first c.expected_status c.to_status current at p.started_at start
            (sym from ∙ f) (sym to ∙ t);
      kept_start = λ k. started (rw (from, to) at k);
      occurred = ap (λ (q : TransitionPlan). q.occurred_at) made;
      parked = ap (λ (q : TransitionPlan). truthy q.checkpoint_id) made ∙ rw to a.parked;
    }
