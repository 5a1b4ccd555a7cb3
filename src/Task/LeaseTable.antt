-- ===== src/Task/LeaseTable.antt =====
-- The SQL statements of task_lease.py, on the table agent_task_leases (migration 006).
use factory_ops.Common.{
  String, Option, none, some, List, ◌∷◌, Bool, false, ◌&&◌, ◌||◌, not, ltb, ◌=s◌, find, all, select,
  update, length, ◌==◌,
}
use factory_ops.Session.{Result, ok, integrity_error, lease_rejected}
use factory_ops.Session.Statements.{◌>>◌, guard}
use factory_ops.Database.{Database}
use factory_ops.Run.Model.{Instant}
use factory_ops.Task.Model.{pending, TaskRow, LeaseRow, same_status}

pub record Lease : Type 0 where
  pub task_id : String
  pub owner_id : String
  pub lease_token : String
  pub expires_at : Instant

abbrev pub leases_task : String → LeaseRow → Bool
leases_task task_id row = row.task_id =s task_id

unfoldable pub find_lease : String → Database → Option LeaseRow
find_lease task_id db = find (leases_task task_id) db.leases

abbrev has_task_id : String → TaskRow → Bool
has_task_id task_id row = row.task_id =s task_id

-- The status of the locked Task row is PENDING.
abbrev is_claimable : Option TaskRow → Bool
is_claimable none = false
is_claimable (some task) = same_status task.status pending

abbrev pub is_held : Instant → Option LeaseRow → Bool
is_held now none = false
is_held now (some row) = ltb now row.expires_at

-- uk_task_lease_token
abbrev token_is_free : LeaseRow → LeaseRow → Bool
token_is_free new row = row.task_id =s new.task_id || not (row.lease_token =s new.lease_token)

-- The INSERT or the UPDATE.
abbrev pub write_lease : Option LeaseRow → LeaseRow → List LeaseRow → List LeaseRow
write_lease none new rows = new ∷ rows
write_lease (some _) new rows = update (leases_task new.task_id) (λ row. new) rows

-- The transaction of `claim`.
unfoldable pub claim_statements : Instant → LeaseRow → Database → Result Database
claim_statements now new db = do
  guard (is_claimable (find (has_task_id new.task_id) db.tasks))
      (lease_rejected "only existing PENDING Task can be claimed")
  let current = find_lease new.task_id db
  guard (not (is_held now current)) (lease_rejected "Task lease is held")
  guard (all (token_is_free new) db.leases) integrity_error
  ok (record db { leases = write_lease current new db.leases })

abbrev pub owns : Lease → LeaseRow → Bool
owns lease row =
    row.task_id =s lease.task_id
    && row.owner_id =s lease.owner_id
    && row.lease_token =s lease.lease_token

abbrev pub is_live : Lease → Instant → LeaseRow → Bool
is_live lease now row = owns lease row && ltb now row.expires_at

abbrev pub extend : Instant → LeaseRow → LeaseRow
extend expires row = record row { expires_at = expires }

-- The transaction of `renew`.
unfoldable pub renew_statements : Lease → Instant → Instant → Database → Result Database
renew_statements lease now expires db = do
  guard (length (select (is_live lease now) db.leases) == 1)
      (lease_rejected "lease owner/token is stale or expired")
  ok (record db { leases = update (is_live lease now) (extend expires) db.leases })

-- The transaction of `release`.
unfoldable pub release_statements : Lease → Database → Result Database
release_statements lease db = do
  guard (length (select (owns lease) db.leases) == 1)
      (lease_rejected "lease owner/token does not match")
  ok (record db { leases = select (λ row. not (owns lease row)) db.leases })
