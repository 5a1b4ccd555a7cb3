-- ===== src/Versioned.antt =====
-- What agent_runs, agent_tasks and agent_executions have in common: rows with a status and a
-- revision, each moved under an optimistic lock, and a history table with one row for each move.
pub mod Chain
pub mod Locked
pub mod Lookup
use factory_ops.Common.{
  ℕ, ◌+◌, ◌≡◌, String, Option, none, some, List, [], ◌∷◌, Bool, true, false, ◌&&◌, ◌==◌, ◌=s◌, any,
  select, All,
}

-- The columns that the lock and the history read.
pub record Schema (Status Row Step : Type 0) : Type 0 where
  pub key : Row → String
  pub status : Row → Status
  pub revision : Row → ℕ
  pub owner : Step → String
  pub request : Step → String
  pub from_status : Step → Option Status
  pub to_status : Step → Status
  pub from_revision : Step → Option ℕ
  pub to_revision : Step → ℕ
  pub legal : Status → Status → Bool
  pub first : Status

-- No row clashes with one that stands behind it.
abbrev pub Apart : {A : Type 0} → (A → A → Bool) → List A → Type 0
Apart clash [] = Unit
Apart clash (r ∷ rs) = (any (clash r) rs ≡ false) × Apart clash rs

module _ {Status Row Step : Type 0} (v : Schema Status Row Step) where
  abbrev pub has_key : String → Row → Bool
  has_key id row = v.key row =s id

  abbrev pub has_request : String → Step → Bool
  has_request id step = v.request step =s id

  abbrev pub same_key : Row → Row → Bool
  same_key r x = has_key (v.key r) x

  abbrev pub same_request : Step → Step → Bool
  same_request t x = has_request (v.request t) x

  -- Two steps of one row to one revision.
  abbrev pub clashes : Step → Step → Bool
  clashes t x = v.owner x =s v.owner t && v.to_revision x == v.to_revision t

  -- The history of a row, the newest first.
  unfoldable pub history : String → List Step → List Step
  unfolding select
  history id steps = select (λ t. v.owner t =s id) steps

  -- The steps lead from the first status at revision 0 to this status at this revision, each along
  -- a legal arrow.
  abbrev pub Leads : Status → ℕ → List Step → Type 0
  Leads s n [] = ⊥
  Leads s n (t ∷ []) =
      (v.to_status t ≡ s)
      × (v.to_revision t ≡ n)
      × (s ≡ v.first)
      × (n ≡ 0)
      × (v.from_status t ≡ none)
  Leads s n (t ∷ u ∷ rest) =
      (v.to_status t ≡ s)
      × (v.to_revision t ≡ n)
      × (v.from_status t ≡ some (v.to_status u))
      × (v.from_revision t ≡ some (v.to_revision u))
      × (n ≡ v.to_revision u + 1)
      × (v.legal (v.to_status u) s ≡ true)
      × Leads (v.to_status u) (v.to_revision u) (u ∷ rest)

  abbrev pub IsRecorded : List Step → Row → Type 0
  IsRecorded steps row = Leads (v.status row) (v.revision row) (history (v.key row) steps)

-- Keys, requests and slots are unique, each step belongs to a row, and the history of each row
-- leads to its status and revision.
pub record IsConsistent {Status Row Step : Type 0} (v : Schema Status Row Step) (rows : List Row)
    (steps : List Step) : Type 0 where
  pub keys : Apart (same_key v) rows
  pub requests : Apart (same_request v) steps
  pub slots : Apart (clashes v) steps
  pub owned : All (λ t. any (has_key v (v.owner t)) rows ≡ true) steps
  pub recorded : All (IsRecorded v steps) rows

-- The row that the update hits makes the step `t`.
pub record IsMove {Status Row Step : Type 0} (v : Schema Status Row Step) (hits : Row → Bool)
    (f : Row → Row) (t : Step) : Type 0 where
  pub key : (r : Row) → v.key (f r) ≡ v.key r
  pub before :
      (r : Row)
      → hits r ≡ true
      → (v.key r ≡ v.owner t)
        × (v.from_status t ≡ some (v.status r))
        × (v.from_revision t ≡ some (v.revision r))
        × (v.to_revision t ≡ v.revision r + 1)
        × (v.legal (v.status r) (v.to_status t) ≡ true)
  pub after :
      (r : Row)
      → hits r ≡ true
      → (v.status (f r) ≡ v.to_status t) × (v.revision (f r) ≡ v.to_revision t)

-- The first step of a new row.
abbrev pub IsBirth : {Status Row Step : Type 0} → Schema Status Row Step → Row → Step → Type 0
IsBirth v r t =
    (v.status r ≡ v.first)
    × (v.revision r ≡ 0)
    × (v.owner t ≡ v.key r)
    × (v.from_status t ≡ none)
    × (v.to_status t ≡ v.first)
    × (v.to_revision t ≡ 0)
