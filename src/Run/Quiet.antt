-- ===== src/Run/Quiet.antt =====
-- `transition_run` when no other session interferes and no connection is lost.
use factory_ops.Common.{
  ◌≡◌, ◌≢◌, ◌⊎◌, refl, ap, ◌∙◌, ℕ, ℤ, pos, negsuc, same_int, String, Option, none, some, List, [],
  ◌∷◌, Bool, true, false, arith, find, update, find-test, Bool-cases, inl, inr,
}
use factory_ops.Session.{ok, World, ◌>>=◌, connect, begin, step_at}
use factory_ops.Database.{Database}
use factory_ops.Run.Model.{
  Instant, applied, concurrency_conflict, TransitionCommand, TransitionPlan, RunRow, RunTransition,
  same_status_iff,
}
use factory_ops.Run.Rules.{plan_transition}
use factory_ops.Run.Rules.Plan.{plan_transition-IsPlan}
use factory_ops.Run.Contract.{RunContract, to_contract}
use factory_ops.Run.Repository.{
  find_run, has_run_id, find_transition_by_request, TransitionUpdate, is_target, updated_row,
  update_run, insert_transition, apply_transition,
}
use factory_ops.Run.Consistency.Writes.{update_run-ok, insert_transition-ok}
use factory_ops.Run.Service.Calls.{Inputs, aware, get_run, outcome_with_run}
use factory_ops.Run.Service.{
  candidate, transition_update, transition_row, existing_or, classify_failed_transition,
  after_apply, after_candidate, after_plan, with_current, is_stale, transition_run,
}

-- No one else uses the tables.
abbrev pub quiet : Database → World Database
quiet s = record { store = s; upcoming = [] }

same_int_eq : (n : ℕ) (z : ℤ) → same_int n z ≡ true → pos n ≡ z
same_int_eq n (pos m) h = ground arith
same_int_eq n (negsuc m) h = cc

differs-is_stale :
    (matches : String → String → Bool) (c : TransitionCommand) (row : RunRow)
    → (row.status ≢ c.expected_status) ⊎ (pos row.revision ≢ c.expected_revision)
    → is_stale matches c row ≡ true
differs-is_stale matches c row (inl other) =
    ground (arith, same_status_iff row.status c.expected_status)
differs-is_stale matches c row (inr other) =
    ground (arith, same_int_eq row.revision c.expected_revision)

-- With no other session, a command whose request is not stored and that expects another status or
-- another revision than its Run has reports CONCURRENCY_CONFLICT with the Run as it is, and changes
-- nothing, when the Run satisfies its Contract.
pub stale_conflicts :
    (matches : String → String → Bool) (inputs : Inputs) (c : TransitionCommand) (s : Database)
    (row : RunRow) (contract : RunContract)
    → find_transition_by_request c.transition_request_id s ≡ none
    → find_run c.run_id s ≡ some row
    → (row.status ≢ c.expected_status) ⊎ (pos row.revision ≢ c.expected_revision)
    → to_contract matches row ≡ ok contract
    → transition_run matches inputs c (quiet s)
      ≡ (ok (record { outcome = concurrency_conflict; run = some contract }), quiet s)
unfolding transition_run existing_or with_current classify_failed_transition outcome_with_run
    get_run ◌>>=◌ connect begin step_at
stale_conflicts matches inputs c s row contract new found other valid =
    rw (new, found, differs-is_stale matches c row other, new, found, valid) refl

some_injective : (a b : RunRow) → some a ≡ some b → a ≡ b
some_injective a b h = cc

target-own :
    (u : TransitionUpdate) (x : RunRow) → is_target u x ≡ true → has_run_id u.run_id x ≡ true
unfolding is_target
target-own u x h = ground arith

find-updated :
    (u : TransitionUpdate) (row : RunRow) (rows : List RunRow)
    → find (has_run_id u.run_id) rows ≡ some row
    → is_target u row ≡ true
    → find (has_run_id u.run_id) (update (is_target u) (updated_row u) rows)
      ≡ some (updated_row u row)
unfolding find update is_target updated_row
find-updated u row [] h t = cc
find-updated u row (x ∷ xs) h t = elim (Bool-cases (has_run_id u.run_id x)) [
  | inl here ↦ first (some_injective x row (rw here at h))
  | inr there ↦ rw (there, there) (find-updated u row xs (rw there at h) t)
]
  where
    first :
        x ≡ row
        → find (has_run_id u.run_id) (update (is_target u) (updated_row u) (x ∷ xs))
          ≡ some (updated_row u row)
    first same =
        let hit : is_target u x ≡ true = ap (is_target u) same ∙ t in
        let own : has_run_id u.run_id x ≡ true = target-own u x hit in
        rw (hit, own) (ap {B = Option RunRow} (λ r. some (updated_row u r)) same)

module _ (matches : String → String → Bool) (c : TransitionCommand) (s : Database) (row : RunRow)
    (at : Instant) (p : TransitionPlan) where
  planned_target :
      find_run c.run_id s ≡ some row
      → is_stale matches c row ≡ false
      → plan_transition c row.started_at at ≡ ok p
      → is_target (transition_update c p at) row ≡ true
  unfolding is_target find_run transition_update
  planned_target found current planned =
      let own = find-test (has_run_id c.run_id) s.runs row found in
      let revision = (plan_transition-IsPlan c row.started_at at p planned).from_revision in
      ground (arith, own, revision)

  -- The row that the transaction leaves is the candidate that was checked.
  updated-candidate : updated_row (transition_update c p at) row ≡ candidate c row p at
  unfolding updated_row transition_update candidate
  updated-candidate = refl

  found_candidate :
      (t : RunTransition) (mid db : Database)
      → find_run c.run_id s ≡ some row
      → is_target (transition_update c p at) row ≡ true
      → update_run (transition_update c p at) s ≡ ok mid
      → insert_transition t mid ≡ ok db
      → find_run c.run_id db ≡ some (candidate c row p at)
  unfolding find_run transition_update
  found_candidate t mid db found target changed inserted =
      let u = transition_update c p at in
      let runs : db.runs ≡ update (is_target u) (updated_row u) s.runs =
        ap (λ (d : Database). d.runs) (insert_transition-ok t mid db inserted).3
        ∙ ap (λ (d : Database). d.runs) (update_run-ok u s mid changed).1 in
      ap (find (has_run_id c.run_id)) runs
      ∙ find-updated u row s.runs found target
      ∙ ap {B = Option RunRow} some updated-candidate

apply_transition-goes :
    (u : TransitionUpdate) (t : RunTransition) (s mid db : Database)
    → update_run u s ≡ ok mid
    → insert_transition t mid ≡ ok db
    → apply_transition u t s ≡ (ok tt, db)
unfolding apply_transition
apply_transition-goes u t s mid db changed inserted = rw (changed, inserted) refl

-- The clock shows `at`.
abbrev pub reading : Inputs → Instant → Inputs
reading inputs at = record inputs { clock = aware at }

-- With no other session, a command whose request is not stored, on the status and revision of its
-- Run, is applied: when the rules make a plan, the candidate row satisfies the Contract and the two statements go through,
-- the call reports APPLIED with the candidate's contract and leaves what the statements left.
pub transition_applies :
    (matches : String → String → Bool) (inputs : Inputs) (c : TransitionCommand) (s : Database)
    (row : RunRow) (at : Instant) (p : TransitionPlan) (contract : RunContract) (mid db : Database)
    → find_transition_by_request c.transition_request_id s ≡ none
    → find_run c.run_id s ≡ some row
    → is_stale matches c row ≡ false
    → plan_transition c row.started_at at ≡ ok p
    → to_contract matches (candidate c row p at) ≡ ok contract
    → update_run (transition_update c p at) s ≡ ok mid
    → insert_transition (transition_row (reading inputs at) c p at) mid ≡ ok db
    → transition_run matches (reading inputs at) c (quiet s)
      ≡ (ok (record { outcome = applied; run = some contract }), quiet db)
unfolding transition_run existing_or with_current after_plan after_candidate after_apply get_run
    ◌>>=◌ connect begin step_at
transition_applies matches inputs c s row at p contract mid db new found current planned valid
      changed inserted =
    let goes =
      apply_transition-goes (transition_update c p at) (transition_row (reading inputs at) c p at) s
        mid db changed inserted in
    let stored =
      found_candidate matches c s row at p (transition_row (reading inputs at) c p at) mid db found
        (planned_target matches c s row at p found current planned) changed inserted in
    rw (new, found, current, planned, valid, goes, stored, valid) refl
