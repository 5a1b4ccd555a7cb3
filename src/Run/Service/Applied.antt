-- ===== src/Run/Service/Applied.antt =====
-- `transition_run` under interference: what APPLIED means, and what a retry returns. The other
-- sessions may do anything but overwrite stored transitions.
use factory_ops.Common.{
  ◌≡◌, refl, ◌∙◌, String, Option, none, some, Bool, true, arith, =s_iff, same_option_iff, find,
}
use factory_ops.Session.{ok}
use factory_ops.Session.Keeps.{IsStable}
use factory_ops.Session.Ensures.{Ensures, Ensures-lift, Ensures-bind, Ensures-connect}
use factory_ops.Session.Lookup.{found_or}
use factory_ops.Database.{Database, Action}
use factory_ops.Run.Model.{
  Instant, OperationOutcome, duplicate_identical, same_status_iff, same_actor_iff,
  TransitionCommand, TransitionPlan, RunTransition,
}
use factory_ops.Run.Rules.{plan_transition}
use factory_ops.Run.Rules.Plan.{plan_transition-IsPlan}
use factory_ops.Run.Repository.{find_transition_by_request, insert_transition, apply_transition}
use factory_ops.Run.Consistency.Writes.{apply_transition-ok, insert_transition-ok}
use factory_ops.Run.Service.Calls.{
  Inputs, RunOperationResult, duplicate_outcome, get_run, outcome_with_run,
}
use factory_ops.Run.Service.Keeps.{get_run-Keeps}
use factory_ops.Run.Service.Transition.{
  transition_matches, transition_update, transition_row, classify_existing_transition, existing_or,
  transition_run,
}

-- Stored transitions are not overwritten.
abbrev pub Extends : Database → Database → Type 0
Extends s s' =
    (id : String) (t : RunTransition)
    → find_transition_by_request id s ≡ some t
    → find_transition_by_request id s' ≡ some t

-- The transition of this very command is stored.
abbrev pub IsStored : TransitionCommand → Database → Type 0
IsStored c s =
    (t : RunTransition) × (find_transition_by_request c.transition_request_id s ≡ some t)
    × (transition_matches c t ≡ true)

pub IsStored-stable : (c : TransitionCommand) → IsStable Extends (IsStored c)
IsStored-stable c s s' g (t, f, m) = (t, g c.transition_request_id t f, m)

transition_row-matches :
    (inputs : Inputs) (c : TransitionCommand) (current : Option Instant) (at : Instant)
    (p : TransitionPlan)
    → plan_transition c current at ≡ ok p
    → transition_matches c (transition_row inputs c p at) ≡ true
unfolding transition_matches transition_row
transition_row-matches inputs c current at p h =
    let q = plan_transition-IsPlan c current at p h in
    ground (
      arith,
      q.from_revision,
      q.to_revision,
      =s_iff c.run_id c.run_id,
      same_status_iff c.expected_status c.expected_status,
      same_status_iff c.to_status c.to_status,
      same_actor_iff c.actor_kind c.actor_kind,
      =s_iff c.actor_id c.actor_id,
      =s_iff c.reason_code c.reason_code,
      same_option_iff c.reason_message c.reason_message,
      same_option_iff c.checkpoint_id c.checkpoint_id,
    )

insert_transition-finds :
    (t : RunTransition) (db db' : Database)
    → insert_transition t db ≡ ok db'
    → find_transition_by_request t.transition_request_id db' ≡ some t
unfolding find_transition_by_request find
insert_transition-finds t db db' h = rw (
  (insert_transition-ok t db db' h).3,
  (=s_iff t.transition_request_id t.transition_request_id).1 refl,
)

module _ (inputs : Inputs) (c : TransitionCommand) (current : Option Instant) (at : Instant)
    (p : TransitionPlan) (h : plan_transition c current at ≡ ok p) where
  pub apply_transition-IsStored :
      (s : Database) (a : Unit)
      → (apply_transition (transition_update c p at) (transition_row inputs c p at) s).0 ≡ ok a
      → IsStored c (apply_transition (transition_update c p at) (transition_row inputs c p at) s).1
  apply_transition-IsStored s a e =
      let t = transition_row inputs c p at in
      let (mid, hu, ht) = apply_transition-ok (transition_update c p at) t s e in
      (
        t,
        unfold transition_row in
            insert_transition-finds t mid (apply_transition (transition_update c p at) t s).1 ht,
        transition_row-matches inputs c current at p h,
      )

module _ (matches : String → String → Bool) {P : Database → Type 0} (stable : IsStable Extends P)
    {Q : RunOperationResult → Database → Type 0} where
  pub outcome_with_run-Ensures :
      (o : OperationOutcome) (id : String)
      → ((r : RunOperationResult) → r.outcome ≡ o → (s : Database) → P s → Q r s)
      → Ensures Extends P Q (outcome_with_run matches o id)
  unfolding outcome_with_run
  outcome_with_run-Ensures o id q =
      Ensures-bind (get_run matches id) _ (get_run-Keeps matches Extends P stable id) λ run.
        Ensures-lift (ok (record { outcome = o; run = run })) (λ r e s p. q r (ground arith) s p)

  -- A found transition with the request of `c` is classified by whether it matches `c`.
  pub existing_or-Ensures :
      (c : TransitionCommand) (k : Action RunOperationResult)
      → ((t : RunTransition) (s0 : Database)
          → P s0
          → find_transition_by_request c.transition_request_id s0 ≡ some t
          → (r : RunOperationResult) → r.outcome ≡ duplicate_outcome (transition_matches c t)
          → (s : Database) → P s
          → Q r s)
      → ((s0 : Database)
          → P s0
          → find_transition_by_request c.transition_request_id s0 ≡ none
          → Ensures Extends P Q k)
      → Ensures Extends P Q (existing_or matches c k)
  unfolding existing_or classify_existing_transition
  existing_or-Ensures c k found missing =
      Ensures-connect (find_transition_by_request c.transition_request_id) _ stable answered
    where
      answered :
          (o : Option RunTransition) (s : Database)
          → P s
          → find_transition_by_request c.transition_request_id s ≡ o
          → Ensures Extends P Q (found_or o (classify_existing_transition matches c) k)
      answered none s p e = missing s p e
      answered (some t) s p e =
          outcome_with_run-Ensures (duplicate_outcome (transition_matches c t)) t.run_id
            (found t s p e)

-- While the transition of a command is stored, whatever else the other sessions do to the database
-- and wherever a connection is lost, each call of `transition_run` with the command that returns
-- reports DUPLICATE_IDENTICAL.
pub retry :
    (matches : String → String → Bool) (inputs : Inputs) (c : TransitionCommand)
    → Ensures Extends
        (IsStored c)
        (λ r _. r.outcome ≡ duplicate_identical)
        (transition_run matches inputs c)
unfolding transition_run
retry matches inputs c =
    existing_or-Ensures matches (IsStored-stable c) c _
      (λ t s (t', f, m) e r o _ _. let same : t ≡ t' = cc in o ∙ rw (same, m) refl)
      (λ s (t, f, m) e. absurd cc)
