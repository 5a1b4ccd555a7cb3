-- ===== src/Run/Consistency/Writes.antt =====
-- The two write transactions of the Run repository keep the tables consistent.
use factory_ops.Common.{
  ◌≡◌, refl, sym, ap, ◌∙◌, String, Option, none, some, List, [], ◌∷◌, true, false, arith, ◌=s◌,
  =s_iff, select, update, any, length, All, All-map, Bool-cases, inl, inr,
}
use mathlib.Core.Bool.{false≢true}
use factory_ops.Session.{ok}
use factory_ops.Session.Keeps.{TxKeeps}
use factory_ops.Database.{Database}
use factory_ops.Run.Model.{pending, RunRow, RunTransition}
use factory_ops.Run.Repository.{
  has_run_id, run_exists, unique_option, run_keys_free, TransitionUpdate, is_target, updated_row,
  insert_run, insert_transition, transition_keys_free, update_run, apply_transition,
  insert_run_with_initial_transition,
}
use factory_ops.Run.History.{history, history-own, history-other}
use factory_ops.Run.Consistency.{
  IsConsistent, IsRecorded, IsMove, same_id, same_trigger, same_replay_request, same_request,
  clashes, differ, or-false, shares, Apart-update, update-IsRecorded, any-update,
}

-- What went through: the statements' guards and the tables that they left.
pub insert_transition-ok :
    (t : RunTransition) (db db' : Database)
    → insert_transition t db ≡ ok db'
    → (run_exists db t.run_id ≡ true)
      × (any (same_request t) db.run_transitions ≡ false)
      × (any (clashes t) db.run_transitions ≡ false)
      × (db' ≡ record db { run_transitions = t ∷ db.run_transitions })
unfolding insert_transition transition_keys_free
insert_transition-ok t db db' h = ground arith

pub update_run-ok :
    (u : TransitionUpdate) (db db' : Database)
    → update_run u db ≡ ok db'
    → (length (select (is_target u) db.runs) ≡ 1)
      × (db' ≡ record db { runs = update (is_target u) (updated_row u) db.runs })
unfolding update_run
update_run-ok u db db' h = ground arith

pub insert_run-ok :
    (r : RunRow) (db db' : Database)
    → insert_run r db ≡ ok db'
    → (run_keys_free r db ≡ true) × (db' ≡ record db { runs = r ∷ db.runs })
unfolding insert_run
insert_run-ok r db db' h = ground arith

pub apply_transition-ok :
    (u : TransitionUpdate) (t : RunTransition) (db : Database)
    → (apply_transition u t db).0 ≡ ok tt
    → (mid : Database) × (update_run u db ≡ ok mid)
      × (insert_transition t mid ≡ ok (apply_transition u t db).1)
unfolding apply_transition
apply_transition-ok u t db h = ground arith

any_id-update :
    (u : TransitionUpdate) (rows : List RunRow) (id : String)
    → any (has_run_id id) (update (is_target u) (updated_row u) rows) ≡ any (has_run_id id) rows
unfolding updated_row
any_id-update u rows id = any-update (has_run_id id) (is_target u) (updated_row u) rows (λ r. refl)

module _ (u : TransitionUpdate) (t : RunTransition) (m : IsMove u t) where
  applied-IsConsistent :
      (db mid db' : Database)
      → IsConsistent db
      → update_run u db ≡ ok mid
      → insert_transition t mid ≡ ok db'
      → IsConsistent db'
  unfolding updated_row
  applied-IsConsistent db mid db' c hu ht =
      let (one, em) = update_run-ok u db mid hu in
      let (exists, request, slot, e) = insert_transition-ok t mid db' ht in
      rw e (
        rw em (record {
          ids =
              Apart-update same_id (is_target u) (updated_row u) db.runs (λ r x. refl) (λ r x. refl)
                c.ids;
          triggers =
              Apart-update same_trigger (is_target u) (updated_row u) db.runs (λ r x. refl)
                (λ r x. refl) c.triggers;
          replay_requests =
              Apart-update same_replay_request (is_target u) (updated_row u) db.runs (λ r x. refl)
                (λ r x. refl) c.replay_requests;
          requests = (
            ap (λ (d : Database). any (same_request t) d.run_transitions) (sym em) ∙ request,
            c.requests,
          );
          slots =
              (ap (λ (d : Database). any (clashes t) d.run_transitions) (sym em) ∙ slot, c.slots);
          owned = (
            ap (λ (d : Database). run_exists d t.run_id) (sym em) ∙ exists,
            All-map (λ x. run_exists db x.run_id ≡ true)
                (λ x.
                  any (has_run_id x.run_id) (update (is_target u) (updated_row u) db.runs) ≡ true)
                (λ x known. any_id-update u db.runs x.run_id ∙ known) db.run_transitions c.owned,
          );
          recorded = update-IsRecorded u t db.run_transitions db.runs m c.ids one c.recorded;
        }))

  pub apply_transition-IsConsistent : TxKeeps IsConsistent (apply_transition u t)
  apply_transition-IsConsistent = record {
    at = λ db c a e.
        let (mid, hu, ht) = apply_transition-ok u t db e in
        applied-IsConsistent db mid (apply_transition u t db).1 c hu ht;
  }

unshared :
    (column : RunRow → Option String) (o : Option String) (rows : List RunRow)
    → unique_option column o rows ≡ true
    → any (λ x. shares o (column x)) rows ≡ false
unfolding any
unshared column none [] h = refl
unshared column none (x ∷ xs) h = unshared column none xs h
unshared column (some v) rows h = ground arith

run_exists-cons :
    (r : RunRow) (rows : List RunRow) (id : String)
    → any (has_run_id id) rows ≡ true
    → any (has_run_id id) (r ∷ rows) ≡ true
unfolding any
run_exists-cons r rows id h = ground arith

-- A new Run has no history yet.
unowned_history :
    (id : String) (db : Database) (ts : List RunTransition)
    → All (λ t. run_exists db t.run_id ≡ true) ts
    → run_exists db id ≡ false
    → history id ts ≡ []
unfolding history
unowned_history id db [] a h = refl
unowned_history id db (t ∷ ts) a h = elim (Bool-cases (t.run_id =s id)) [
  | inl same ↦
      absurd (false≢true (sym h ∙ ap (run_exists db) (sym ((=s_iff t.run_id id).0 same)) ∙ a.0))
  | inr other ↦ rw other (unowned_history id db ts a.1 h)
]

-- The first transition of a new Run.
abbrev pub IsBirth : RunRow → RunTransition → Type 0
IsBirth r t =
    (r.status ≡ pending)
    × (r.revision ≡ 0)
    × (t.run_id ≡ r.run_id)
    × (t.from_status ≡ none)
    × (t.to_status ≡ pending)
    × (t.to_revision ≡ 0)

module _ (r : RunRow) (t : RunTransition) (b : IsBirth r t) where
  keys_free-apart :
      (db : Database)
      → run_keys_free r db ≡ true
      → (run_exists db r.run_id ≡ false)
        × (any (same_trigger r) db.runs ≡ false)
        × (any (same_replay_request r) db.runs ≡ false)
  unfolding run_keys_free
  keys_free-apart db h =
      let triggers = unshared (λ x. x.trigger_event_id) r.trigger_event_id db.runs in
      let requests = unshared (λ x. x.replay_request_id) r.replay_request_id db.runs in
      ground (arith, triggers, requests)

  old-IsRecorded :
      (x : RunRow) (ts : List RunTransition)
      → (x.run_id =s r.run_id) ≡ false
      → IsRecorded ts x
      → IsRecorded (t ∷ ts) x
  old-IsRecorded x ts h k =
      rw (history-other x.run_id t ts (rw (b.2) (differ x.run_id r.run_id h))) k

  olds-IsRecorded :
      (rows : List RunRow) (ts : List RunTransition)
      → any (has_run_id r.run_id) rows ≡ false
      → All (IsRecorded ts) rows
      → All (IsRecorded (t ∷ ts)) rows
  unfolding any
  olds-IsRecorded [] ts h k = tt
  olds-IsRecorded (x ∷ xs) ts h k =
      let (here, there) = or-false (has_run_id r.run_id x) (any (has_run_id r.run_id) xs) h in
      (old-IsRecorded x ts here k.0, olds-IsRecorded xs ts there k.1)

  born : (ts : List RunTransition) → history r.run_id ts ≡ [] → IsRecorded (t ∷ ts) r
  born ts h = rw (history-own r.run_id t ts b.2, h) (b.4 ∙ sym b.0, b.5 ∙ sym b.1, b.0, b.1, b.3)

  inserted-IsConsistent :
      (db mid db' : Database)
      → IsConsistent db
      → insert_run r db ≡ ok mid
      → insert_transition t mid ≡ ok db'
      → IsConsistent db'
  inserted-IsConsistent db mid db' c hr ht =
      let (free, em) = insert_run-ok r db mid hr in
      let (exists, request, slot, e) = insert_transition-ok t mid db' ht in
      let (id, trigger, replay) = keys_free-apart db free in
      rw e (
        rw em (record {
          ids = (id, c.ids);
          triggers = (trigger, c.triggers);
          replay_requests = (replay, c.replay_requests);
          requests = (
            ap (λ (d : Database). any (same_request t) d.run_transitions) (sym em) ∙ request,
            c.requests,
          );
          slots =
              (ap (λ (d : Database). any (clashes t) d.run_transitions) (sym em) ∙ slot, c.slots);
          owned = (
            ap (λ (d : Database). run_exists d t.run_id) (sym em) ∙ exists,
            All-map (λ x. run_exists db x.run_id ≡ true)
                (λ x. any (has_run_id x.run_id) (r ∷ db.runs) ≡ true)
                (λ x known. run_exists-cons r db.runs x.run_id known) db.run_transitions c.owned,
          );
          recorded = (
            born db.run_transitions (unowned_history r.run_id db db.run_transitions c.owned id),
            olds-IsRecorded db.runs db.run_transitions id c.recorded,
          );
        }))

  pub insert_run_with_initial_transition-ok :
      (db : Database)
      → (insert_run_with_initial_transition r t db).0 ≡ ok tt
      → (mid : Database) × (insert_run r db ≡ ok mid)
        × (insert_transition t mid ≡ ok (insert_run_with_initial_transition r t db).1)
  unfolding insert_run_with_initial_transition
  insert_run_with_initial_transition-ok db h = ground arith

  pub insert_run-IsConsistent : TxKeeps IsConsistent (insert_run_with_initial_transition r t)
  insert_run-IsConsistent = record {
    at = λ db c a e.
        let (mid, hr, ht) = insert_run_with_initial_transition-ok db e in
        inserted-IsConsistent db mid (insert_run_with_initial_transition r t db).1 c hr ht;
  }
