-- ===== src/Run/Locking.antt =====
-- The optimistic lock of `transition_run`: of the commands that expect one revision of one Run,
-- at most one has its transition stored.
use factory_ops.Run.Consistency.Writes.{apply_transition-IsConsistent}
use factory_ops.Run.Service.Keeps.{transition_run-Keeps}
use factory_ops.Common.{
  ◌≢◌, ℕ, ◌≡◌, sym, ap, ◌∙◌, String, some, List, [], ◌∷◌, Bool, true, false, ◌&&◌, arith, =s_iff,
  ◌==◌, find, any, find-test, ℤ, and-true,
}
use factory_ops.Session.{ok, World}
use factory_ops.Session.Keeps.{Guided}
use factory_ops.Database.{Database}
use factory_ops.Run.Model.{applied, RunTransition, TransitionCommand}
use factory_ops.Run.Repository.{find_transition_by_request, has_request}
use factory_ops.Run.Consistency.{Apart, IsConsistent, clashes}
use factory_ops.Run.Service.{succeeds, transition_matches, transition_run}
use factory_ops.Run.Service.Calls.{Inputs, RunOperationResult}
use factory_ops.Run.Service.Applied.{Extends, IsStored}
use factory_ops.Run.Guarantees.{Respects, moves-KeepsTransition, KeepsTransition, applied-IsStored}

find-any-not :
    (p q : RunTransition → Bool) (ts : List RunTransition) (t : RunTransition)
    → find p ts ≡ some t
    → any q ts ≡ false
    → q t ≡ false
unfolding find any
find-any-not p q [] t h k = cc
find-any-not p q (x ∷ xs) t h k = ground (arith, find-any-not p q xs t)

and-intro : (a b : Bool) → a ≡ true → b ≡ true → (a && b) ≡ true
and-intro a b h k = ground arith

clashes-sym : (t u : RunTransition) → clashes t u ≡ true → clashes u t ≡ true
clashes-sym t u h = ground (arith, =s_iff u.run_id t.run_id, =s_iff t.run_id u.run_id)

-- Two lookups that answer transitions of one slot answer the same one.
same_found :
    (p q : RunTransition → Bool) (ts : List RunTransition) (t u : RunTransition)
    → Apart clashes ts
    → find p ts ≡ some t
    → find q ts ≡ some u
    → clashes t u ≡ true
    → t ≡ u
unfolding find
same_found p q [] t u apart ht hu k = cc
same_found p q (x ∷ xs) t u apart ht hu k = ground (
  arith,
  find-any-not p (clashes x) xs t,
  find-any-not q (clashes x) xs u,
  same_found p q xs t u apart.1,
  clashes-sym t u k,
  apart.0,
)

matches-succeeds :
    (c : TransitionCommand) (t : RunTransition)
    → transition_matches c t ≡ true
    → (t.run_id ≡ c.run_id) × (succeeds t.to_revision c.expected_revision ≡ true)
unfolding transition_matches
matches-succeeds c t h =
    let (h1, checkpoint) = and-true _ _ h in
    let (h2, message) = and-true _ _ h1 in
    let (h3, code) = and-true _ _ h2 in
    let (h4, actor) = and-true _ _ h3 in
    let (h5, kind) = and-true _ _ h4 in
    let (h6, revision) = and-true _ _ h5 in
    let (h7, from_revision) = and-true _ _ h6 in
    let (h8, to_status) = and-true _ _ h7 in
    ((=s_iff t.run_id c.run_id).0 (and-true _ _ h8).0, revision)

succeeds_unique : (a b : ℕ) (z : ℤ) → succeeds a z ≡ true → succeeds b z ≡ true → (a == b) ≡ true
succeeds_unique a b z h k = ground arith

matches-slot :
    (c d : TransitionCommand) (t u : RunTransition)
    → transition_matches c t ≡ true
    → transition_matches d u ≡ true
    → c.run_id ≡ d.run_id
    → c.expected_revision ≡ d.expected_revision
    → clashes t u ≡ true
matches-slot c d t u hc hd r e =
    let (rt, st) = matches-succeeds c t hc in
    let (ru, su) = matches-succeeds d u hd in
    and-intro _ _ ((=s_iff u.run_id t.run_id).1 (ru ∙ sym r ∙ sym rt))
      (succeeds_unique u.to_revision t.to_revision c.expected_revision (rw e su) st)

-- In consistent tables, commands on the same Run and revision whose transitions are both stored
-- have the same request.
one_winner :
    (db : Database) (c d : TransitionCommand)
    → IsConsistent db
    → IsStored c db
    → IsStored d db
    → c.run_id ≡ d.run_id
    → c.expected_revision ≡ d.expected_revision
    → c.transition_request_id ≡ d.transition_request_id
unfolding find_transition_by_request
one_winner db c d consistent (t, ft, mt) (u, fu, mu) r e =
    let same =
      same_found (has_request c.transition_request_id) (has_request d.transition_request_id)
        db.run_transitions t u consistent.slots ft fu (matches-slot c d t u mt mu r e) in
    let ct = find-test (has_request c.transition_request_id) db.run_transitions t ft in
    let du = find-test (has_request d.transition_request_id) db.run_transitions u fu in
    sym ((=s_iff t.transition_request_id c.transition_request_id).0 ct)
    ∙ ap (λ (x : RunTransition). x.transition_request_id) same
    ∙ (=s_iff u.transition_request_id d.transition_request_id).0 du

module _ (matches : String → String → Bool) (inputs : Inputs) (d : TransitionCommand)
    (v : World Database) (kept : Guided Extends v.upcoming) where
  transition_run-IsConsistent :
      IsConsistent v.store
      → Guided Respects v.upcoming
      → IsConsistent (transition_run matches inputs d v).1.store
  transition_run-IsConsistent c g =
      let k =
        transition_run-Keeps matches Respects IsConsistent (λ s s' r p. r p)
          apply_transition-IsConsistent inputs d in
      (k.at v (record { now = c; later = g })).now

  transition_run-IsStored :
      (c : TransitionCommand)
      → IsStored c v.store
      → IsStored c (transition_run matches inputs d v).1.store
  transition_run-IsStored c (t, f, m) =
      let k =
        transition_run-Keeps matches Extends (KeepsTransition c.transition_request_id t)
          (λ s s' r p. r c.transition_request_id t p)
          (moves-KeepsTransition c.transition_request_id t) inputs d in
      (t, (k.at v (record { now = f; later = kept })).now, m)

-- Once a call has reported APPLIED, no later call with another request for the same Run and
-- revision reports APPLIED: when it starts on consistent tables that still have what the first
-- call stored, and the other sessions keep the tables consistent and overwrite no stored
-- transition.
pub loser_is_not_applied :
    (matches : String → String → Bool) (inputs inputs' : Inputs) (c d : TransitionCommand)
    (w v : World Database) (r q : RunOperationResult)
    → c.run_id ≡ d.run_id
    → c.expected_revision ≡ d.expected_revision
    → c.transition_request_id ≢ d.transition_request_id
    → Guided Extends w.upcoming
    → (transition_run matches inputs c w).0 ≡ ok r
    → r.outcome ≡ applied
    → Extends (transition_run matches inputs c w).1.store v.store
    → IsConsistent v.store
    → Guided Extends v.upcoming
    → Guided Respects v.upcoming
    → (transition_run matches inputs' d v).0 ≡ ok q
    → q.outcome ≢ applied
loser_is_not_applied matches inputs inputs' c d w v r q run revision other gw er ar lasts consistent
      gv rv eq aq =
    let (t, f, m) = applied-IsStored matches inputs c w r gw er ar in
    other (
      one_winner (transition_run matches inputs' d v).1.store c d
        (transition_run-IsConsistent matches inputs' d v gv consistent rv)
        (transition_run-IsStored matches inputs' d v gv c (t, lasts c.transition_request_id t f, m))
        (applied-IsStored matches inputs' d v q gv eq aq) run revision)
