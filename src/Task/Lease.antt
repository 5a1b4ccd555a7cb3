-- ===== src/Task/Lease.antt =====
-- task_lease.py. A call gets the instant that `now` stands for; the token that `claim` draws is a
-- parameter too.
pub mod Exclusion
pub mod Grants
mod Tests
use factory_ops.Common.{
  ℕ, ◌+◌, String, Option, none, some, List, ◌∷◌, Bool, true, false, ◌&&◌, ◌||◌, not, if◌then◌else◌,
  leb, ltb, ◌=s◌, ℤ, pos, negsuc, find, any, all, select, update, length, ◌==◌, is_blank,
}
use Prim.Native.Nat.{◌*◌}
use factory_ops.Session.{lease_rejected, raise, begin, pure, ◌>>=◌, ◌>>◌}
use factory_ops.Session.Statements.{statements}
use factory_ops.Database.{Action}
use factory_ops.Run.Model.{Instant}
use factory_ops.Task.Model.{LeaseRow}
use factory_ops.Task.LeaseTable.{Lease, claim_statements, renew_statements, release_statements}

-- `_valid_ttl`: the seconds that pass it.
unfoldable pub valid_ttl : ℤ → Option ℕ
valid_ttl (pos seconds) = if leb 1 seconds && leb seconds 3600 then some seconds else none
valid_ttl (negsuc _) = none

-- `now + timedelta(seconds=…)`
abbrev pub after_seconds : Instant → ℕ → Instant
after_seconds now seconds = now + seconds * 1000000

abbrev pub new_lease : String → String → String → Instant → ℕ → LeaseRow
new_lease task_id owner_id token now seconds = record {
  task_id = task_id;
  owner_id = owner_id;
  lease_token = token;
  leased_at = now;
  expires_at = after_seconds now seconds;
}

abbrev pub granted : LeaseRow → Lease
granted row = record {
  task_id = row.task_id;
  owner_id = row.owner_id;
  lease_token = row.lease_token;
  expires_at = row.expires_at;
}

unfoldable pub claim_for : String → String → String → Instant → Option ℕ → Action Lease
claim_for task_id owner_id token now none = raise (lease_rejected "owner and ttl are invalid")
claim_for task_id owner_id token now (some seconds) = do
  let new = new_lease task_id owner_id token now seconds
  begin (statements (claim_statements now new))
  pure (granted new)

unfoldable pub claim : String → String → ℤ → String → Instant → Action Lease
claim task_id owner_id ttl_seconds token now =
    claim_for task_id owner_id token now (if is_blank owner_id then none else valid_ttl ttl_seconds)

unfoldable pub renew_for : Lease → Instant → Option ℕ → Action Lease
renew_for lease now none = raise (lease_rejected "ttl is invalid")
renew_for lease now (some seconds) = do
  begin (statements (renew_statements lease now (after_seconds now seconds)))
  pure (record lease { expires_at = after_seconds now seconds })

unfoldable pub renew : Lease → ℤ → Instant → Action Lease
renew lease ttl_seconds now = renew_for lease now (valid_ttl ttl_seconds)

unfoldable pub release : Lease → Action (Unit {0})
release lease = begin (statements (release_statements lease))
