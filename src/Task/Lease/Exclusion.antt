-- ===== src/Task/Lease/Exclusion.antt =====
-- Leases of task_lease.py exclude each other: what other holders can do to a lease that is held,
-- and what a call that returns has stored.
use factory_ops.Common.{
  ℕ, ◌≡◌, refl, sym, ap, ◌∙◌, String, Option, none, some, List, [], ◌∷◌, Bool, true, false, not,
  arith, if◌then◌else◌, ltb, ◌=s◌, =s_iff, ℤ, find, select, update, is_blank, All, Bool-cases, inl,
  inr,
}
use mathlib.Core.Bool.{false≢true}
use factory_ops.Session.{ok, World, attempt, pure, ◌>>◌}
use factory_ops.Session.Statements.{statements}
use factory_ops.Session.Keeps.{
  Guided, Keeps, TxKeeps, keeps_rules, Keeps-bind, Keeps-begin, Keeps-pure, Keeps-attempt,
}
use factory_ops.Database.{Database, Action}
use factory_ops.Run.Model.{Instant}
use factory_ops.Task.Model.{LeaseRow}
use factory_ops.Task.LeaseTable.{
  Lease, leases_task, find_lease, is_held, write_lease, claim_statements, owns, is_live, extend,
  renew_statements, release_statements,
}
use factory_ops.Task.Lease.{new_lease, claim_for, claim, renew_for, renew, release, valid_ttl}

-- A call of the lease service with its clock.
pub data LeaseCall : Type 0 where
  claiming : (task_id owner_id : String) → ℤ → (token : String) → Instant → LeaseCall
  renewing : Lease → ℤ → Instant → LeaseCall
  releasing : Lease → LeaseCall

unfoldable pub run_call : LeaseCall → Action (Unit {0})
run_call (claiming task_id owner_id ttl token now) = do
  claim task_id owner_id ttl token now
  pure tt
run_call (renewing lease ttl now) = do renew lease ttl now; pure tt
run_call (releasing lease) = release lease

-- The calls in order; the sessions go on after an exception.
unfoldable pub serve : List LeaseCall → Action (Unit {0})
serve [] = pure tt
serve (call ∷ calls) = do attempt (run_call call); serve calls

-- A claim of the task before the lease expires, or a call that does not present its token.
abbrev pub IsForeign : LeaseRow → LeaseCall → Type 0
IsForeign row (claiming task_id owner_id ttl token now) =
    task_id ≡ row.task_id → ltb now row.expires_at ≡ true
IsForeign row (renewing lease ttl now) = owns lease row ≡ false
IsForeign row (releasing lease) = owns lease row ≡ false

abbrev IsKept : LeaseRow → Database → Type 0
IsKept row s = find_lease row.task_id s ≡ some row

-- The other sessions keep this lease.
abbrev pub Spares : LeaseRow → Database → Database → Type 0
Spares row s s' = find_lease row.task_id s ≡ some row → find_lease row.task_id s' ≡ some row

module _ (id : String) (row : LeaseRow) where
  find-update-other :
      (q : LeaseRow → Bool) (f : LeaseRow → LeaseRow) (rows : List LeaseRow)
      → q row ≡ false
      → ((x : LeaseRow) → q x ≡ true → leases_task id (f x) ≡ leases_task id x)
      → find (leases_task id) rows ≡ some row
      → find (leases_task id) (update q f rows) ≡ some row
  unfolding find update
  find-update-other q f [] miss same h = h
  find-update-other q f (x ∷ xs) miss same h =
      ground (arith, find-update-other q f xs miss same, same x)

  find-select-kept :
      (q : LeaseRow → Bool) (rows : List LeaseRow)
      → q row ≡ true
      → find (leases_task id) rows ≡ some row
      → find (leases_task id) (select q rows) ≡ some row
  unfolding find select
  find-select-kept q [] hit h = h
  find-select-kept q (x ∷ xs) hit h = ground (arith, find-select-kept q xs hit)

pub claim_statements-ok :
    (now : Instant) (new : LeaseRow) (s : Database) (a : Unit)
    → (statements (claim_statements now new) s).0 ≡ ok a
    → (is_held now (find_lease new.task_id s) ≡ false)
      × ((statements (claim_statements now new) s).1
          ≡ record s { leases = write_lease (find_lease new.task_id s) new s.leases })
unfolding claim_statements
claim_statements-ok now new s a e = ground arith

module _ (row : LeaseRow) where
  renew-TxKeeps :
      (lease : Lease) (now expires : Instant)
      → owns lease row ≡ false
      → TxKeeps (IsKept row) (statements (renew_statements lease now expires))
  unfolding renew_statements find_lease
  renew-TxKeeps lease now expires foreign = record {
    at = λ s h a e.
        let kept =
          find-update-other row.task_id row (is_live lease now) (extend expires) s.leases
            (rw foreign refl) (λ x live. refl) h in
        ground (arith, kept);
  }

  release-TxKeeps :
      (lease : Lease)
      → owns lease row ≡ false
      → TxKeeps (IsKept row) (statements (release_statements lease))
  unfolding release_statements find_lease
  release-TxKeeps lease foreign = record {
    at = λ s h a e.
        let kept =
          find-select-kept row.task_id row (λ x. not (owns lease x)) s.leases (rw foreign refl) h in
        ground (arith, kept);
  }

  -- A lease of another task.
  write_lease-other :
      (current : Option LeaseRow) (new : LeaseRow) (rows : List LeaseRow)
      → (new.task_id =s row.task_id) ≡ false
      → find (leases_task row.task_id) rows ≡ some row
      → find (leases_task row.task_id) (write_lease current new rows) ≡ some row
  unfolding find
  write_lease-other none new rows other h = rw other h
  write_lease-other (some _) new rows other h =
      find-update-other row.task_id row (leases_task new.task_id) (λ x. new) rows
        (ground (arith, =s_iff new.task_id row.task_id, =s_iff row.task_id new.task_id))
        (λ x hit. ap (λ id. id =s row.task_id) (sym ((=s_iff x.task_id new.task_id).0 hit))) h

  claim-TxKeeps :
      (now : Instant) (new : LeaseRow)
      → (new.task_id ≡ row.task_id → ltb now row.expires_at ≡ true)
      → TxKeeps (IsKept row) (statements (claim_statements now new))
  unfolding find_lease
  claim-TxKeeps now new foreign = record {
    at = λ s h a e.
        let (free, made) = claim_statements-ok now new s a e in
        elim (Bool-cases (new.task_id =s row.task_id)) [
          | inl same ↦
              let id = (=s_iff new.task_id row.task_id).0 same in
              absurd (
                false≢true
                  (sym free ∙ ap (is_held now) (ap (λ i. find_lease i s) id ∙ h) ∙ foreign id))
          | inr other ↦
              ap (λ (d : Database). find (leases_task row.task_id) d.leases) made
              ∙ write_lease-other (find_lease new.task_id s) new s.leases other h
        ];
  }

module _ (row : LeaseRow) where
  claim-Keeps :
      (task_id owner_id : String) (ttl : ℤ) (token : String) (now : Instant)
      → (task_id ≡ row.task_id → ltb now row.expires_at ≡ true)
      → Keeps (Spares row) (IsKept row) (claim task_id owner_id ttl token now)
  unfolding claim claim_for
  claim-Keeps task_id owner_id ttl token now foreign =
      granting (if is_blank owner_id then none else valid_ttl ttl)
    where
      granting :
          (o : Option ℕ) → Keeps (Spares row) (IsKept row) (claim_for task_id owner_id token now o)
      granting none = search keeps_rules
      granting (some seconds) =
          Keeps-bind _ _
            (Keeps-begin _ (λ s s' g p. g p)
              (claim-TxKeeps row now (new_lease task_id owner_id token now seconds) foreign))
            (λ _. Keeps-pure _)

  renew-Keeps :
      (lease : Lease) (ttl : ℤ) (now : Instant)
      → owns lease row ≡ false
      → Keeps (Spares row) (IsKept row) (renew lease ttl now)
  unfolding renew renew_for
  renew-Keeps lease ttl now foreign = renewed (valid_ttl ttl)
    where
      renewed : (o : Option ℕ) → Keeps (Spares row) (IsKept row) (renew_for lease now o)
      renewed none = search keeps_rules
      renewed (some seconds) =
          Keeps-bind _ _ (Keeps-begin _ (λ s s' g p. g p) (renew-TxKeeps row lease now _ foreign))
            (λ _. Keeps-pure _)

  run_call-Keeps :
      (call : LeaseCall) → IsForeign row call → Keeps (Spares row) (IsKept row) (run_call call)
  unfolding run_call release
  run_call-Keeps (claiming task_id owner_id ttl token now) foreign =
      Keeps-bind _ _ (claim-Keeps task_id owner_id ttl token now foreign) (λ _. Keeps-pure tt)
  run_call-Keeps (renewing lease ttl now) foreign =
      Keeps-bind _ _ (renew-Keeps lease ttl now foreign) (λ _. Keeps-pure tt)
  run_call-Keeps (releasing lease) foreign =
      Keeps-begin _ (λ s s' g p. g p) (release-TxKeeps row lease foreign)

  serve-Keeps :
      (calls : List LeaseCall)
      → All (IsForeign row) calls
      → Keeps (Spares row) (IsKept row) (serve calls)
  unfolding serve
  serve-Keeps [] foreign = Keeps-pure tt
  serve-Keeps (call ∷ calls) foreign =
      Keeps-bind _ _ (Keeps-attempt _ (run_call-Keeps call foreign.0))
        (λ _. serve-Keeps calls foreign.1)

-- A stored lease survives unchanged any sequence of calls that are foreign to it: claims of its
-- task by a clock before its expiry, claims of other tasks, and renewals and releases with another
-- owner, token or task; when the other sessions keep it too.
pub held_lease_is_kept :
    (row : LeaseRow) (calls : List LeaseCall) (w : World Database)
    → All (IsForeign row) calls
    → find_lease row.task_id w.store ≡ some row
    → Guided (Spares row) w.upcoming
    → find_lease row.task_id (serve calls w).1.store ≡ some row
held_lease_is_kept row calls w foreign h g =
    ((serve-Keeps row calls foreign).at w (record { now = h; later = g })).now
