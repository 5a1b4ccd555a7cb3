-- ===== src/Run/Consistency.antt =====
-- The invariant of the two tables of Runs: keys are unique, every transition belongs to a stored
-- Run, and the history of every Run leads to its status and revision.
pub mod Writes
use factory_ops.Common.{
  ℕ, ◌+◌, ◌≡◌, refl, sym, ap, ◌∙◌, String, Option, none, some, List, [], ◌∷◌, Bool, true, false,
  not, ◌&&◌, arith, ◌=s◌, =s_iff, ◌==◌, same_option, same_option_iff, select, update, any, length,
  All, Bool-cases, inl, inr, if◌then◌else◌, ◌||◌,
}
use mathlib.Core.Path.{fun_ext, subst}
use factory_ops.Database.{Database}
use factory_ops.Run.Model.{RunStatus, RunRow, RunTransition, same_status_iff}
use factory_ops.Run.Rules.{is_legal}
use factory_ops.Run.Repository.{
  has_run_id, run_exists, has_request, same_slot, TransitionUpdate, is_target, updated_row,
}
use factory_ops.Run.History.{history, Leads, Leads-step, history-own, history-other}

-- No row clashes with one that stands behind it.
abbrev pub Apart : {A : Type 0} → (A → A → Bool) → List A → Type 0
Apart clash [] = Unit
Apart clash (r ∷ rs) = (any (clash r) rs ≡ false) × Apart clash rs

abbrev pub same_id : RunRow → RunRow → Bool
same_id r x = has_run_id r.run_id x

abbrev pub shares : Option String → Option String → Bool
shares none _ = false
shares (some s) o = same_option o (some s)

abbrev pub same_trigger : RunRow → RunRow → Bool
same_trigger r x = shares r.trigger_event_id x.trigger_event_id

abbrev pub same_replay_request : RunRow → RunRow → Bool
same_replay_request r x = shares r.replay_request_id x.replay_request_id

abbrev pub same_request : RunTransition → RunTransition → Bool
same_request t x = has_request t.transition_request_id x

-- Two transitions of one Run to one revision.
abbrev pub clashes : RunTransition → RunTransition → Bool
clashes t x = same_slot t.run_id t.to_revision x

abbrev pub IsRecorded : List RunTransition → RunRow → Type 0
IsRecorded ts r = Leads r.status r.revision (history r.run_id ts)

pub record IsConsistent (db : Database) : Type 0 where
  pub ids : Apart same_id db.runs
  pub triggers : Apart same_trigger db.runs
  pub replay_requests : Apart same_replay_request db.runs
  pub requests : Apart same_request db.run_transitions
  pub slots : Apart clashes db.run_transitions
  pub owned : All (λ t. run_exists db t.run_id ≡ true) db.run_transitions
  pub recorded : All (IsRecorded db.run_transitions) db.runs

-- An UPDATE that leaves the tested columns alone.
pub any-update :
    (p q : RunRow → Bool) (f : RunRow → RunRow) (rows : List RunRow)
    → ((r : RunRow) → p (f r) ≡ p r)
    → any p (update q f rows) ≡ any p rows
unfolding any update
any-update p q f [] h = refl
any-update p q f (r ∷ rs) h = ground (arith, h r, any-update p q f rs h)

pub Apart-update :
    (clash : RunRow → RunRow → Bool) (q : RunRow → Bool) (f : RunRow → RunRow) (rows : List RunRow)
    → ((r x : RunRow) → clash r (f x) ≡ clash r x)
    → ((r x : RunRow) → clash (f r) x ≡ clash r x)
    → Apart clash rows
    → Apart clash (update q f rows)
unfolding update
Apart-update clash q f [] h k a = tt
Apart-update clash q f (r ∷ rs) h k a = (head (q r), Apart-update clash q f rs h k a.1)
  where
    head : (b : Bool) → any (clash (if b then f r else r)) (update q f rs) ≡ false
    head true = any-update (clash (f r)) q f rs (h (f r)) ∙ ap (λ p. any p rs) (fun_ext (k r)) ∙ a.0
    head false = any-update (clash r) q f rs (h r) ∙ a.0

pub or-false : (a b : Bool) → (a || b) ≡ false → (a ≡ false) × (b ≡ false)
or-false a b h = ground arith

pub differ : (a b : String) → (a =s b) ≡ false → (b =s a) ≡ false
differ a b h = ground (arith, =s_iff a b, =s_iff b a)

-- The transition records the update, which is one legal step.
abbrev pub IsMove : TransitionUpdate → RunTransition → Type 0
IsMove u t =
    (t.run_id ≡ u.run_id)
    × (t.from_status ≡ some u.expected_status)
    × (t.from_revision ≡ some u.expected_revision)
    × (t.to_status ≡ u.to_status)
    × (t.to_revision ≡ u.to_revision)
    × (u.to_revision ≡ u.expected_revision + 1)
    × (is_legal u.expected_status u.to_status ≡ true)

module _ (u : TransitionUpdate) (t : RunTransition) (ts : List RunTransition) where
  not-target : (r : RunRow) → has_run_id u.run_id r ≡ false → is_target u r ≡ false
  unfolding is_target
  not-target r h = rw h

  no_target :
      (rows : List RunRow)
      → any (has_run_id u.run_id) rows ≡ false
      → length (select (is_target u) rows) ≡ 0
  unfolding any select
  no_target [] h = refl
  no_target (r ∷ rs) h = ground (arith, not-target r, no_target rs)

  other-IsRecorded :
      (r : RunRow)
      → IsMove u t
      → has_run_id u.run_id r ≡ false
      → IsRecorded ts r
      → IsRecorded (t ∷ ts) r
  other-IsRecorded r m h k =
      rw (history-other r.run_id t ts (rw (m.0) (differ r.run_id u.run_id h))) k

  target-facts :
      (r : RunRow)
      → is_target u r ≡ true
      → (r.run_id ≡ u.run_id) × (r.status ≡ u.expected_status) × (r.revision ≡ u.expected_revision)
  unfolding is_target
  target-facts r h =
      ground (arith, =s_iff r.run_id u.run_id, same_status_iff r.status u.expected_status)

  target-IsRecorded :
      (r : RunRow)
      → IsMove u t
      → is_target u r ≡ true
      → IsRecorded ts r
      → IsRecorded (t ∷ ts) (updated_row u r)
  unfolding updated_row
  target-IsRecorded r m h k =
      let (id, status, revision) = target-facts r h in
      let (own, from, from_revision, to, to_revision, step, legal) = m in
      rw (history-own r.run_id t ts (own ∙ sym id), step, ← revision)
        (Leads-step t (history r.run_id ts) r.status u.to_status r.revision k
          (from ∙ ap {B = Option RunStatus} some (sym status))
          (from_revision ∙ ap {B = Option ℕ} some (sym revision)) to
          (rw (to_revision, step, ← revision)) (rw status legal))

  -- Rows of other Runs.
  others-IsRecorded :
      (rows : List RunRow)
      → IsMove u t
      → any (has_run_id u.run_id) rows ≡ false
      → All (IsRecorded ts) rows
      → All (IsRecorded (t ∷ ts)) (update (is_target u) (updated_row u) rows)
  unfolding any update
  others-IsRecorded [] m h k = tt
  others-IsRecorded (r ∷ rs) m h k =
      let (here, there) = or-false (has_run_id u.run_id r) (any (has_run_id u.run_id) rs) h in
      (rw (not-target r here) (other-IsRecorded r m here k.0), others-IsRecorded rs m there k.1)

  -- The UPDATE of one row, with its transition, keeps every Run recorded.
  pub update-IsRecorded :
      (rows : List RunRow)
      → IsMove u t
      → Apart same_id rows
      → length (select (is_target u) rows) ≡ 1
      → All (IsRecorded ts) rows
      → All (IsRecorded (t ∷ ts)) (update (is_target u) (updated_row u) rows)
  unfolding select update
  update-IsRecorded [] m apart one k = tt
  update-IsRecorded (r ∷ rs) m apart one k = elim (Bool-cases (is_target u r)) [
    | inl hit ↦ (
      rw hit (target-IsRecorded r m hit k.0),
      others-IsRecorded rs m
          (subst (λ id. any (has_run_id id) rs ≡ false) (target-facts r hit).0 apart.0) k.1,
    )
    | inr miss ↦ elim (Bool-cases (has_run_id u.run_id r)) [
      | inl same ↦
          let behind = no_target rs (
            subst (λ id. any (has_run_id id) rs ≡ false) ((=s_iff r.run_id u.run_id).0 same)
              apart.0) in
          let one' : length (select (is_target u) rs) ≡ 1 = rw miss at one in absurd (omega arith)
      | inr other ↦ (
        rw miss (other-IsRecorded r m other k.0),
        update-IsRecorded rs m apart.1 (rw miss at one) k.1,
      )
    ]
  ]
