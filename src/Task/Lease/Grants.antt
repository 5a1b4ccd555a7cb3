-- ===== src/Task/Lease/Grants.antt =====
-- What `claim` and `renew` of task_lease.py have stored when they return.
use factory_ops.Common.{
  ℕ, ◌≡◌, refl, sym, ap, ◌∙◌, String, Option, none, some, List, [], ◌∷◌, Bool, true, false, ◌&&◌,
  arith, if◌then◌else◌, ◌=s◌, =s_iff, ℤ, find, any, select, update, length, ◌==◌, is_blank,
}
use factory_ops.Session.{ok, World}
use factory_ops.Session.Statements.{statements}
use factory_ops.Session.Keeps.{Guided-any}
use factory_ops.Session.Ensures.{Ensures, Ensures-begin, Ensures-raise, Ensures-lift}
use factory_ops.Database.{Database}
use factory_ops.Run.Model.{Instant}
use factory_ops.Task.Model.{LeaseRow}
use factory_ops.Task.LeaseTable.{
  Lease, leases_task, find_lease, write_lease, claim_statements, owns, is_live, extend,
  renew_statements,
}
use factory_ops.Task.Lease.{
  new_lease, granted, claim_for, claim, renew_for, renew, valid_ttl, after_seconds,
}
use factory_ops.Task.Lease.Exclusion.{claim_statements-ok}

find-update-own :
    (id : String) (new current : LeaseRow) (rows : List LeaseRow)
    → (new.task_id =s id) ≡ true
    → find (leases_task id) rows ≡ some current
    → find (leases_task id) (update (leases_task id) (λ x. new) rows) ≡ some new
unfolding find update
find-update-own id new current [] own h = cc
find-update-own id new current (x ∷ xs) own h =
    ground (arith, find-update-own id new current xs own)

write_lease-own :
    (current : Option LeaseRow) (new : LeaseRow) (rows : List LeaseRow)
    → find (leases_task new.task_id) rows ≡ current
    → find (leases_task new.task_id) (write_lease current new rows) ≡ some new
unfolding find
write_lease-own none new rows h = rw ((=s_iff new.task_id new.task_id).1 refl)
write_lease-own (some current) new rows h =
    find-update-own new.task_id new current rows ((=s_iff new.task_id new.task_id).1 refl) h

claim_statements-stores :
    (now : Instant) (new : LeaseRow) (s : Database) (a : Unit)
    → (statements (claim_statements now new) s).0 ≡ ok a
    → find_lease new.task_id (statements (claim_statements now new) s).1 ≡ some new
unfolding find_lease
claim_statements-stores now new s a e =
    ap (λ (d : Database). find (leases_task new.task_id) d.leases)
      (claim_statements-ok now new s a e).1
    ∙ write_lease-own (find_lease new.task_id s) new s.leases refl

-- The lease is the one that the row describes, for a valid number of seconds.
abbrev pub IsGrant : String → String → ℤ → String → Instant → Lease → Database → Type 0
IsGrant task_id owner_id ttl token now lease s =
    (seconds : ℕ) × (valid_ttl ttl ≡ some seconds)
    × (lease ≡ granted (new_lease task_id owner_id token now seconds))
    × (find_lease task_id s ≡ some (new_lease task_id owner_id token now seconds))

claim-Ensures :
    (task_id owner_id : String) (ttl : ℤ) (token : String) (now : Instant)
    → Ensures
        (λ _ _. Unit {0})
        (λ _. Unit {0})
        (IsGrant task_id owner_id ttl token now)
        (claim task_id owner_id ttl token now)
unfolding claim claim_for
claim-Ensures task_id owner_id ttl token now = checked (is_blank owner_id) (valid_ttl ttl) refl
  where
    granting :
        (o : Option ℕ)
        → valid_ttl ttl ≡ o
        → Ensures
            (λ _ _. Unit {0})
            (λ _. Unit {0})
            (IsGrant task_id owner_id ttl token now)
            (claim_for task_id owner_id token now o)
    granting none h = Ensures-raise _
    granting (some seconds) h =
        let new = new_lease task_id owner_id token now seconds in
        Ensures-begin _ _ (λ s. find_lease task_id s ≡ some new) _ _ (λ s s' g p. tt)
          (λ s p a e. claim_statements-stores now new s a e) (record { at = λ s p a e. tt }) _
          (λ a. Ensures-lift (ok (granted new)) (λ l e s p. (seconds, h, ground (arith), p)))

    checked :
        (b : Bool) (o : Option ℕ)
        → valid_ttl ttl ≡ o
        → Ensures
            (λ _ _. Unit {0})
            (λ _. Unit {0})
            (IsGrant task_id owner_id ttl token now)
            (claim_for task_id owner_id token now (if b then none else o))
    checked true o h = Ensures-raise _
    checked false o h = granting o h

-- A claim that returns has stored the lease that it returns, under its owner and token, with an
-- expiry of the requested seconds after its clock, whatever the other sessions did before.
pub claim_grants :
    (task_id owner_id : String) (ttl : ℤ) (token : String) (now : Instant) (w : World Database)
    (lease : Lease)
    → (claim task_id owner_id ttl token now w).0 ≡ ok lease
    → IsGrant task_id owner_id ttl token now lease (claim task_id owner_id ttl token now w).1.store
claim_grants task_id owner_id ttl token now w lease e =
    (claim-Ensures task_id owner_id ttl token now).at w
      (record { now = tt; later = Guided-any w.upcoming }) lease e

-- A row of the lease's holder that expires when the lease says.
abbrev pub is_current : Lease → LeaseRow → Bool
is_current lease row = owns lease row && row.expires_at == lease.expires_at

any-extended :
    (lease : Lease) (now : Instant) (expires : Instant) (rows : List LeaseRow)
    → (length (select (is_live lease now) rows) == 1) ≡ true
    → any
        (is_current (record lease { expires_at = expires }))
        (update (is_live lease now) (extend expires) rows)
      ≡ true
unfolding any select update
any-extended lease now expires [] h = h
any-extended lease now expires (x ∷ xs) h = ground (arith, any-extended lease now expires xs)

renew_statements-stores :
    (lease : Lease) (now expires : Instant) (s : Database) (a : Unit)
    → (statements (renew_statements lease now expires) s).0 ≡ ok a
    → any
        (is_current (record lease { expires_at = expires }))
        (statements (renew_statements lease now expires) s).1.leases
      ≡ true
unfolding renew_statements
renew_statements-stores lease now expires s a e =
    let extended = any-extended lease now expires s.leases in ground (arith, extended)

-- The renewed lease has the holder of the old one, and expires the seconds after the clock.
abbrev pub IsRenewal : Lease → ℤ → Instant → Lease → Database → Type 0
IsRenewal lease ttl now renewed s =
    (seconds : ℕ) × (valid_ttl ttl ≡ some seconds)
    × (renewed ≡ record lease { expires_at = after_seconds now seconds })
    × (any (is_current renewed) s.leases ≡ true)

renew-Ensures :
    (lease : Lease) (ttl : ℤ) (now : Instant)
    → Ensures (λ _ _. Unit {0}) (λ _. Unit {0}) (IsRenewal lease ttl now) (renew lease ttl now)
unfolding renew renew_for
renew-Ensures lease ttl now = renewing (valid_ttl ttl) refl
  where
    renewing :
        (o : Option ℕ)
        → valid_ttl ttl ≡ o
        → Ensures
            (λ _ _. Unit {0})
            (λ _. Unit {0})
            (IsRenewal lease ttl now)
            (renew_for lease now o)
    renewing none h = Ensures-raise _
    renewing (some seconds) h =
        let renewed : Lease = record lease { expires_at = after_seconds now seconds } in
        Ensures-begin _ _ (λ s. any (is_current renewed) s.leases ≡ true) _ _ (λ s s' g p. tt)
          (λ s p a e. renew_statements-stores lease now (after_seconds now seconds) s a e)
          (record { at = λ s p a e. tt }) _
          (λ a. Ensures-lift (ok renewed) (λ l e s p.
            let same : renewed ≡ l = cc in
            (seconds, h, sym same, ap (λ (m : Lease). any (is_current m) s.leases) (sym same) ∙ p)))

-- A renewal that returns keeps task, owner and token, moves the expiry to the requested seconds
-- after its clock, and has stored that expiry for this holder, whatever the other sessions did
-- before.
pub renew_extends :
    (lease : Lease) (ttl : ℤ) (now : Instant) (w : World Database) (renewed : Lease)
    → (renew lease ttl now w).0 ≡ ok renewed
    → IsRenewal lease ttl now renewed (renew lease ttl now w).1.store
renew_extends lease ttl now w renewed e =
    (renew-Ensures lease ttl now).at w (record { now = tt; later = Guided-any w.upcoming }) renewed
      e
