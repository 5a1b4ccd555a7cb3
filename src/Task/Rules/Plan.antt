-- ===== src/Task/Rules/Plan.antt =====
-- What a plan of task_lifecycle/rules.py says of the Task that it is made for.
use factory_ops.Common.{
  ◌+◌, ◌≡◌, ◌≢◌, refl, sym, ap, ◌∙◌, none, some, true, arith, if◌then◌else◌, truthy,
  same_option_iff, next, ◌⊎◌, inl, inr,
}
use factory_ops.Session.{ok}
use factory_ops.Run.Model.{Instant}
use factory_ops.Task.Model.{
  TaskStatus, pending, running, succeeded, failed, cancelled, skipped, same_status_iff,
  TransitionCommand, TransitionPlan,
}
use factory_ops.Task.Rules.{
  is_legal, is_terminal, Attempt, planned_attempt, planned_result, plan_transition,
}

-- A plan for the Task in the attempt `a` at the instant `at`.
pub record IsTaskPlan (c : TransitionCommand) (a : Attempt) (at : Instant) (p : TransitionPlan)
    : Type 0 where
  pub legal : is_legal c.expected_status c.to_status ≡ true
  pub revision : p.to_revision ≡ next c.expected_revision
  pub ended : p.ended_at ≡ (if is_terminal c.to_status then some at else none)
  pub new_attempt :
      c.to_status ≡ running
      → (p.attempt_count ≡ a.attempts + 1)
        × (p.current_execution_id ≡ c.execution_id)
        × (p.current_execution_id ≢ a.execution)
        × (truthy p.current_execution_id ≡ true)
  pub same_attempt :
      c.to_status ≢ running
      → (p.attempt_count ≡ a.attempts)
        × (p.current_execution_id ≡ a.execution)
        × (p.started_at ≡ a.started_at)
  pub completed :
      c.to_status ≡ succeeded
      → (c.execution_id ≡ a.execution) × (c.completion_execution_id ≡ a.execution)
  pub broken :
      c.to_status ≡ failed
      → (c.execution_id ≡ a.execution)
        × (truthy c.failure_code ≡ true)
        × (c.failure_recoverability ≡ some "non_retryable")
  pub dropped : (c.to_status ≡ cancelled) ⊎ (c.to_status ≡ skipped) → c.execution_id ≡ none

-- The attempt that the plan was made of.
plan_transition-ok :
    (c : TransitionCommand) (a : Attempt) (at : Instant) (p : TransitionPlan)
    → plan_transition c a at ≡ ok p
    → (b : Attempt) × (is_legal c.expected_status c.to_status ≡ true)
      × (planned_attempt c at c.to_status a ≡ ok b)
      × (planned_result c at (ok b) ≡ ok p)
unfolding plan_transition planned_result
plan_transition-ok c a at p h = ground arith

planned_result-ok :
    (c : TransitionCommand) (at : Instant) (b : Attempt) (p : TransitionPlan)
    → planned_result c at (ok b) ≡ ok p
    → (p.to_revision ≡ next c.expected_revision)
      × (p.started_at ≡ b.started_at)
      × (p.ended_at ≡ (if is_terminal c.to_status then some at else none))
      × (p.current_execution_id ≡ b.execution)
      × (p.attempt_count ≡ b.attempts)
unfolding planned_result
planned_result-ok c at b p h = ground arith

module _ (c : TransitionCommand) (a b : Attempt) (at : Instant) where
  attempt-new :
      planned_attempt c at running a ≡ ok b
      → (b.attempts ≡ a.attempts + 1)
        × (b.execution ≡ c.execution_id)
        × (c.execution_id ≢ a.execution)
        × (truthy c.execution_id ≡ true)
  unfolding planned_attempt
  attempt-new h = ground (arith, same_option_iff c.execution_id a.execution)

  attempt-same : (s : TaskStatus) → s ≢ running → planned_attempt c at s a ≡ ok b → b ≡ a
  unfolding planned_attempt
  attempt-same pending other h = ground arith
  attempt-same running other h = absurd (other refl)
  attempt-same succeeded other h = ground arith
  attempt-same failed other h = ground arith
  attempt-same cancelled other h = ground arith
  attempt-same skipped other h = ground arith

  attempt-result :
      (s : TaskStatus)
      → (s ≡ succeeded) ⊎ (s ≡ failed)
      → planned_attempt c at s a ≡ ok b
      → c.execution_id ≡ a.execution
  unfolding planned_attempt
  attempt-result s e h = ground (arith, same_option_iff c.execution_id a.execution)

  attempt-dropped :
      (s : TaskStatus)
      → (s ≡ cancelled) ⊎ (s ≡ skipped)
      → planned_attempt c at s a ≡ ok b
      → c.execution_id ≡ none
  unfolding planned_attempt
  attempt-dropped s e h = ground arith

result-completed :
    (c : TransitionCommand) (at : Instant) (b : Attempt) (p : TransitionPlan)
    → planned_result c at (ok b) ≡ ok p
    → c.to_status ≡ succeeded
    → c.completion_execution_id ≡ b.execution
unfolding planned_result
result-completed c at b p h e = ground (
  arith,
  same_status_iff c.to_status succeeded,
  same_option_iff c.completion_execution_id b.execution,
)

result-failed :
    (c : TransitionCommand) (at : Instant) (b : Attempt) (p : TransitionPlan)
    → planned_result c at (ok b) ≡ ok p
    → c.to_status ≡ failed
    → (truthy c.failure_code ≡ true) × (c.failure_recoverability ≡ some "non_retryable")
unfolding planned_result
result-failed c at b p h e = ground (
  arith,
  same_status_iff c.to_status failed,
  same_option_iff c.failure_recoverability (some "non_retryable"),
)

-- A plan is made only for a legal transition. It moves the revision by one and ends the Task exactly
-- at a terminal status. RUNNING counts a new attempt with a new execution, and the other statuses
-- keep the attempt; SUCCEEDED and FAILED name its execution, SUCCEEDED as the completed one, FAILED
-- with a failure code and as not retryable; CANCELLED and SKIPPED name no execution.
pub plan_transition-IsTaskPlan :
    (c : TransitionCommand) (a : Attempt) (at : Instant) (p : TransitionPlan)
    → plan_transition c a at ≡ ok p
    → IsTaskPlan c a at p
plan_transition-IsTaskPlan c a at p h =
    let (b, legal, made, planned) = plan_transition-ok c a at p h in
    let (revision, started, ended, execution, attempts) = planned_result-ok c at b p planned in
    record {
      legal = legal;
      revision = revision;
      ended = ended;
      new_attempt = λ e.
          let (n, x, other, there) =
            attempt-new c a b at (ap (λ t. planned_attempt c at t a) (sym e) ∙ made) in
          (attempts ∙ n, execution ∙ x, rw (execution, x) other, rw (execution, x) there);
      same_attempt = λ e.
          let same = attempt-same c a b at c.to_status e made in
          (
            attempts ∙ ap (λ (q : Attempt). q.attempts) same,
            execution ∙ ap (λ (q : Attempt). q.execution) same,
            started ∙ ap (λ (q : Attempt). q.started_at) same,
          );
      completed = λ e.
          let same = attempt-same c a b at c.to_status (rw e (ground arith)) made in
          (
            attempt-result c a b at c.to_status (inl e) made,
            result-completed c at b p planned e ∙ ap (λ (q : Attempt). q.execution) same,
          );
      broken = λ e.
          let (code, kind) = result-failed c at b p planned e in
          (attempt-result c a b at c.to_status (inr e) made, code, kind);
      dropped = λ e. attempt-dropped c a b at c.to_status e made;
    }
