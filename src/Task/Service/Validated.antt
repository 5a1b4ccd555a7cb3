-- ===== src/Task/Service/Validated.antt =====
-- What `transition_task` stores is what it has validated.
use factory_ops.Common.{◌≡◌, refl}
use factory_ops.Run.Model.{Instant}
use factory_ops.Task.Model.{TransitionCommand, TransitionPlan}
use factory_ops.Task.Repository.{StoredTask, updated_row}
use factory_ops.Task.Service.{candidate, transition_update}

-- The UPDATE of a transition turns the row of a Task into the candidate that was validated for it.
pub update_task-candidate :
    (c : TransitionCommand) (p : TransitionPlan) (at : Instant) (task : StoredTask)
    → updated_row (transition_update c p at) task.row ≡ (candidate c task p at).row
unfolding updated_row transition_update candidate
update_task-candidate c p at task = refl
