-- ===== src/Run/Ended.antt =====
-- A Run that has ended, in run_lifecycle/service.py: no transition leaves a terminal status.
use factory_ops.Common.{
  ◌≡◌, refl, ap, ◌∙◌, String, some, List, ◌∷◌, Bool, true, false, arith, find, any, update,
}
use factory_ops.Session.{World}
use factory_ops.Session.Keeps.{Guided, TxKeeps, IsStable}
use factory_ops.Database.{Database}
use factory_ops.Versioned.Lookup.{find-update, find-insert}
use factory_ops.Run.Model.{RunStatus, same_status_iff, RunRow, RunTransition}
use factory_ops.Run.Rules.{is_legal, is_terminal}
use factory_ops.Run.Repository.{
  find_run, has_run_id, run_keys_free, TransitionUpdate, is_target, updated_row, apply_transition,
  insert_run_with_initial_transition,
}
use factory_ops.Run.Consistency.{IsMove}
use factory_ops.Run.Consistency.Writes.{
  IsBirth, apply_transition-ok, insert_run_with_initial_transition-ok, insert_transition-ok,
  update_run-ok, insert_run-ok,
}
use factory_ops.Run.Guarantees.{Call, serve, serve-Keeps}

-- Other sessions leave the rows of Runs that have ended.
abbrev pub LeavesEnded : Database → Database → Type 0
LeavesEnded s s' =
    (id : String) (row : RunRow)
    → find_run id s ≡ some row
    → is_terminal row.status ≡ true
    → find_run id s' ≡ some row

abbrev HasEnded : String → RunRow → Database → Type 0
HasEnded id row s = (find_run id s ≡ some row) × (is_terminal row.status ≡ true)

HasEnded-stable : (id : String) (row : RunRow) → IsStable LeavesEnded (HasEnded id row)
HasEnded-stable id row s s' g (f, t) = (g id row f t, t)

-- No legal transition leaves a terminal status.
legal_source : (a b : RunStatus) → is_legal a b ≡ true → is_terminal a ≡ false
unfolding is_legal is_terminal
legal_source a b h = ground arith

-- An UPDATE for a legal transition misses a row that has ended.
target-running :
    (u : TransitionUpdate) (row : RunRow)
    → is_legal u.expected_status u.to_status ≡ true
    → is_terminal row.status ≡ true
    → is_target u row ≡ false
unfolding is_target
target-running u row legal ended = ground (
  arith,
  same_status_iff row.status u.expected_status,
  legal_source u.expected_status u.to_status legal,
)

-- A new Run has an identifier of its own.
fresh :
    (new : RunRow) (db : Database)
    → run_keys_free new db ≡ true
    → any (has_run_id new.run_id) db.runs ≡ false
unfolding run_keys_free
fresh new db h = ground arith

module _ (id : String) (row : RunRow) where
  moves-HasEnded :
      (u : TransitionUpdate) (t : RunTransition)
      → IsMove u t
      → TxKeeps (HasEnded id row) (apply_transition u t)
  unfolding find_run updated_row
  moves-HasEnded u t m = record {
    at = λ db (f, ended) a e.
        let (mid, hu, ht) = apply_transition-ok u t db e in
        let runs : (apply_transition u t db).1.runs ≡ update (is_target u) (updated_row u) db.runs =
          ap (λ (d : Database). d.runs) (insert_transition-ok t mid _ ht).3
          ∙ ap (λ (d : Database). d.runs) (update_run-ok u db mid hu).1 in
        let missed = target-running u row m.6 ended in
        (
          ap (find (has_run_id id)) runs
              ∙ find-update (has_run_id id) (is_target u) (updated_row u) db.runs row (λ r. refl)
                  missed f,
          ended,
        );
  }

  births-HasEnded :
      (r : RunRow) (t : RunTransition)
      → IsBirth r t
      → TxKeeps (HasEnded id row) (insert_run_with_initial_transition r t)
  unfolding find_run
  births-HasEnded r t b = record {
    at = λ db (f, ended) a e.
        let (mid, hr, ht) = insert_run_with_initial_transition-ok r t b db e in
        let runs : (insert_run_with_initial_transition r t db).1.runs ≡ r ∷ db.runs =
          ap (λ (d : Database). d.runs) (insert_transition-ok t mid _ ht).3
          ∙ ap (λ (d : Database). d.runs) (insert_run-ok r db mid hr).1 in
        (
          ap (find (has_run_id id)) runs
              ∙ find-insert (λ (x : RunRow). x.run_id) id r row db.runs
                  (fresh r db (insert_run-ok r db mid hr).0) f,
          ended,
        );
  }

-- Any sequence of calls of create_original_run, create_replay_run and transition_run leaves the row
-- of a Run with a terminal status as it is, whatever is requested of it, while the other sessions
-- leave the rows of such Runs.
pub serve_keeps_ended :
    (matches : String → String → Bool) (calls : List Call) (w : World Database) (id : String)
    (row : RunRow)
    → find_run id w.store ≡ some row
    → is_terminal row.status ≡ true
    → Guided LeavesEnded w.upcoming
    → find_run id (serve matches calls w).1.store ≡ some row
serve_keeps_ended matches calls w id row f ended g =
    let k =
      serve-Keeps matches LeavesEnded (HasEnded id row) (HasEnded-stable id row)
        (moves-HasEnded id row) (births-HasEnded id row) calls in
    ((k.at w (record { now = (f, ended); later = g })).now).0
