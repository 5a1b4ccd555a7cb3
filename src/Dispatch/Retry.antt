-- ===== src/Dispatch/Retry.antt =====
-- What a dispatch leaves and what its retry returns, under interference: the other sessions may move
-- a dispatched Task, but keep what its command had said.
use factory_ops.Common.{◌≡◌, ◌≢◌, ap, ◌∙◌, refl, String, some, Bool, ◌=s◌, arith}
use factory_ops.Session.{Exception, World, Result, ok, err, integrity_error, lift}
use factory_ops.Session.Keeps.{IsStable, Guided, Keeps-lift}
use factory_ops.Session.Ensures.{
  Ensures, Ensures-lift, Ensures-raise, Ensures-bind, Ensures-attempt,
}
use factory_ops.Session.Lookup.{found_or-Ensures}
use factory_ops.Database.{Database}
use factory_ops.Run.Model.{Instant, OperationOutcome, applied}
use factory_ops.Run.Service.Calls.{duplicate_outcome}
use factory_ops.Task.Contract.{TaskContract, to_contract}
use factory_ops.Task.Repository.{StoredTask, find_by_request}
use factory_ops.Task.Service.Calls.{now, get_task}
use factory_ops.Task.Service.Keeps.{get_task-Keeps}
use factory_ops.Dispatch.Repository.{dispatch}
use factory_ops.Dispatch.Stored.{HasOwners, dispatch-HasOwners, dispatch-find}
use factory_ops.Dispatch.Service.{
  DispatchCommand, DispatchResult, DispatchPayload, DispatchInputs, payload_of, payload_row,
  task_row, task_history, owner_history, outcome_with_dispatched, classify_dispatch, new_dispatch,
  after_dispatch, after_validated, dispatch_task,
}

-- A stored Task keeps its request and what was asked for.
abbrev pub KeepsPayloads : Database → Database → Type 0
KeepsPayloads s s' =
    (id : String) (t : StoredTask)
    → find_by_request id s ≡ some t
    → (t' : StoredTask) × (find_by_request id s' ≡ some t') × (payload_row t' ≡ payload_row t)

-- The other sessions keep that, and the foreign key of the dependencies.
abbrev pub RespectsTasks : Database → Database → Type 0
RespectsTasks s s' = KeepsPayloads s s' × (HasOwners s → HasOwners s')

-- A Task with this request and this payload is stored.
abbrev pub HasPayload : String → DispatchPayload → Database → Type 0
HasPayload id p s = (t : StoredTask) × (find_by_request id s ≡ some t) × (payload_row t ≡ p)

pub HasPayload-stable :
    (id : String) (p : DispatchPayload) → IsStable KeepsPayloads (HasPayload id p)
HasPayload-stable id p s s' g (t, f, m) = let (t', f', k) = g id t f in (t', f', k ∙ m)

module _ (matches : String → String → Bool) (sha256 : String → String)
    (digest : DispatchPayload → String) where
  module _ {rely : Database → Database → Type 0} {P : Database → Type 0} (stable : IsStable rely P)
      {Q : DispatchResult → Database → Type 0} where
    outcome-Ensures :
        (o : OperationOutcome) (id : String)
        → ((r : DispatchResult) → r.outcome ≡ o → (s : Database) → P s → Q r s)
        → Ensures rely P Q (outcome_with_dispatched matches sha256 digest o id)
    unfolding outcome_with_dispatched
    outcome-Ensures o id q =
        Ensures-bind (get_task matches sha256 id) _ (get_task-Keeps matches sha256 rely P stable id)
          λ task.
            Ensures-lift (ok (record { outcome = o; task = task }))
              (λ r h s p. q r (ground arith) s p)

  -- Whether the payload has the hash of the command's.
  abbrev same_payload : DispatchPayload → DispatchCommand → Bool
  same_payload p d = digest p =s digest (payload_of d)

  retried :
      (p : DispatchPayload) (inputs : DispatchInputs) (d : DispatchCommand)
      → Ensures KeepsPayloads
          (HasPayload d.task_request_id p)
          (λ r _. r.outcome ≡ duplicate_outcome (same_payload p d))
          (dispatch_task matches sha256 digest inputs d)
  unfolding dispatch_task classify_dispatch
  retried p inputs d =
      found_or-Ensures (find_by_request d.task_request_id) _ _
        (HasPayload-stable d.task_request_id p)
        (λ t s (t', f, m) e.
          let found : t ≡ t' = cc in
          outcome-Ensures (HasPayload-stable d.task_request_id p)
            (duplicate_outcome (same_payload (payload_row t) d)) t.row.task_id
            (λ r o _ _.
              o ∙ ap (λ x. duplicate_outcome (same_payload x d)) (ap payload_row found ∙ m)))
        (λ s (t, f, m) e. absurd cc)

  duplicate-not_applied : (b : Bool) (o : OperationOutcome) → o ≡ duplicate_outcome b → o ≢ applied
  duplicate-not_applied b o h = ground arith

  module _ (c : DispatchCommand) where
    abbrev IsDispatched : Database → Type 0
    IsDispatched = HasPayload c.task_request_id (payload_of c)

    -- APPLIED is reported with the Task stored.
    abbrev HonestDispatch : DispatchResult → Database → Type 0
    HonestDispatch r s = r.outcome ≡ applied → IsDispatched s

    owners-stable : IsStable RespectsTasks HasOwners
    owners-stable s s' g = g.1

    classify-Reports :
        (t : StoredTask)
        → Ensures RespectsTasks HasOwners HonestDispatch
            (classify_dispatch matches sha256 digest c t)
    unfolding classify_dispatch
    classify-Reports t =
        outcome-Ensures owners-stable (duplicate_outcome (same_payload (payload_row t) c))
          t.row.task_id
          (λ r o s p a.
            absurd (duplicate-not_applied (same_payload (payload_row t) c) r.outcome o a))

    module _ (inputs : DispatchInputs) where
      made-Reports :
          Ensures RespectsTasks IsDispatched HonestDispatch
            (after_dispatch matches sha256 digest inputs c (ok tt))
      unfolding after_dispatch
      made-Reports =
          outcome-Ensures
            (λ s s' g p. HasPayload-stable c.task_request_id (payload_of c) s s' g.0 p) applied
            inputs.task_id (λ r o s p a. p)

      failed-Reports :
          (e : Exception)
          → Ensures RespectsTasks HasOwners HonestDispatch
              (after_dispatch matches sha256 digest inputs c (err e))
      unfolding after_dispatch
      failed-Reports integrity_error =
          found_or-Ensures (find_by_request c.task_request_id)
            (classify_dispatch matches sha256 digest c) _ owners-stable
            (λ t s p e. classify-Reports t) (λ s p e. Ensures-raise _)
      failed-Reports _ = Ensures-raise _

      -- The transaction stores the payload of the command.
      dispatch-IsDispatched :
          (at : Instant) (s : Database) (a : Unit)
          → HasOwners s
          → (dispatch
              (task_row sha256 inputs c at)
              c.dependency_task_ids
              (task_history inputs c at)
              (owner_history inputs c at)
              s).0
            ≡ ok a
          → IsDispatched
              (dispatch
                (task_row sha256 inputs c at)
                c.dependency_task_ids
                (task_history inputs c at)
                (owner_history inputs c at)
                s).1
      dispatch-IsDispatched at s a owned e = (
        record { row = task_row sha256 inputs c at; dependency_task_ids = c.dependency_task_ids },
        unfold task_row in
            dispatch-find (task_row sha256 inputs c at) c.dependency_task_ids
              (task_history inputs c at) (owner_history inputs c at) s owned e,
        unfold payload_row payload_of task_row in refl,
      )

      validated-Reports :
          (at : Instant) (valid : Result TaskContract)
          → Ensures RespectsTasks HasOwners HonestDispatch
              (after_validated matches sha256 digest inputs c at valid)
      unfolding after_validated
      validated-Reports at (ok _) =
          Ensures-attempt RespectsTasks HasOwners IsDispatched HonestDispatch _ owners-stable
            (λ s owned a e. dispatch-IsDispatched at s a owned e)
            (dispatch-HasOwners (task_row sha256 inputs c at) c.dependency_task_ids
              (task_history inputs c at) (owner_history inputs c at))
            (after_dispatch matches sha256 digest inputs c) (λ a. made-Reports) failed-Reports
      validated-Reports at (err e) = Ensures-raise _

      dispatched :
          Ensures RespectsTasks HasOwners HonestDispatch
            (dispatch_task matches sha256 digest inputs c)
      unfolding dispatch_task
      dispatched =
          found_or-Ensures (find_by_request c.task_request_id)
            (classify_dispatch matches sha256 digest c) _ owners-stable
            (λ t s p e. classify-Reports t)
            (λ s p e. Ensures-bind (lift (now inputs.clock)) _ (Keeps-lift _) (λ at.
              validated-Reports at
                (to_contract matches sha256 (new_dispatch matches sha256 digest inputs c at))))

  -- A call of `dispatch` that reports APPLIED leaves a Task stored for the request of its command,
  -- with the payload of the command, its dependencies in order, when the dependencies before it
  -- belong to stored Tasks, and the other sessions keep that, the requests of stored Tasks and what
  -- was asked for.
  pub dispatch_task-HasPayload :
      (inputs : DispatchInputs) (c : DispatchCommand) (w : World Database) (r : DispatchResult)
      → HasOwners w.store
      → Guided RespectsTasks w.upcoming
      → (dispatch_task matches sha256 digest inputs c w).0 ≡ ok r
      → r.outcome ≡ applied
      → HasPayload c.task_request_id
          (payload_of c)
          (dispatch_task matches sha256 digest inputs c w).1.store
  dispatch_task-HasPayload inputs c w r owned g e a =
      (dispatched c inputs).at w (record { now = owned; later = g }) r e a

  -- After a call of `dispatch` has reported APPLIED, a later call with a command of the same request
  -- that returns reports DUPLICATE_IDENTICAL if the hashes of the payloads of the two commands
  -- agree, and DUPLICATE_CONFLICTING if not: when the dependencies before the first call belong to
  -- stored Tasks, and the other sessions keep that during it, and at all times the requests of
  -- stored Tasks and what was asked for.
  pub applied_dispatch_is_classified :
      (inputs inputs' : DispatchInputs) (c d : DispatchCommand) (w v : World Database)
      (r q : DispatchResult)
      → d.task_request_id ≡ c.task_request_id
      → HasOwners w.store
      → Guided RespectsTasks w.upcoming
      → (dispatch_task matches sha256 digest inputs c w).0 ≡ ok r
      → r.outcome ≡ applied
      → KeepsPayloads (dispatch_task matches sha256 digest inputs c w).1.store v.store
      → Guided KeepsPayloads v.upcoming
      → (dispatch_task matches sha256 digest inputs' d v).0 ≡ ok q
      → q.outcome ≡ duplicate_outcome (digest (payload_of c) =s digest (payload_of d))
  applied_dispatch_is_classified inputs inputs' c d w v r q same owned gw er ar lasts gv eq =
      let stored =
        HasPayload-stable c.task_request_id (payload_of c)
          (dispatch_task matches sha256 digest inputs c w).1.store v.store lasts
          (dispatch_task-HasPayload inputs c w r owned gw er ar) in
      (retried (payload_of c) inputs' d).at v (record { now = rw same stored; later = gv }) q eq
