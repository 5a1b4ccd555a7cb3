-- ===== src/Dispatch/Links.antt =====
-- The dependencies that coordinator_task_dispatch/repository.py writes for a new Task, in the order
-- in which a query by ordinal reads them back.
use factory_ops.Common.{
  ℕ, suc, ◌<◌, ◌≡◌, refl, sym, ap, ◌∙◌, String, List, [], ◌∷◌, ◌++◌, map, Bool, true, false, ◌=s◌,
  =s_iff, any, select, arith, All, All-map, Bool-cases, inl, inr,
}
use mathlib.Core.List.{append_assoc, append-nil}
use mathlib.Core.Bool.{false≢true}
use factory_ops.Task.Model.{TaskRow, TaskDependency}
use factory_ops.Task.Constraints.{has_task_id}
use factory_ops.Task.Repository.{insert_by_ordinal, by_ordinal}

-- A dependency row.
abbrev pub link_to : String → ℕ → String → TaskDependency
link_to task n d = record { task_id = task; dependency_task_id = d; ordinal = n }

-- The rows after the loop over the dependencies, the newest first.
unfoldable pub linked : String → ℕ → List String → List TaskDependency → List TaskDependency
linked task n [] rows = rows
linked task n (d ∷ ds) rows = linked task (suc n) ds (link_to task n d ∷ rows)

-- The rows of the loop, the first dependency first.
forward : String → ℕ → List String → List TaskDependency
forward task n [] = []
forward task n (d ∷ ds) = link_to task n d ∷ forward task (suc n) ds

forward-names :
    (task : String) (n : ℕ) (ds : List String)
    → map (λ (x : TaskDependency). x.dependency_task_id) (forward task n ds) ≡ ds
unfolding forward
forward-names task n [] = refl
forward-names task n (d ∷ ds) = ap (λ xs. d ∷ xs) (forward-names task (suc n) ds)

abbrev Below : ℕ → TaskDependency → Type 0
Below n x = x.ordinal < n

-- The highest ordinal goes to the end.
insert-last :
    (d : TaskDependency) (rows : List TaskDependency)
    → All (Below d.ordinal) rows
    → insert_by_ordinal d rows ≡ rows ++ d ∷ []
insert-last d [] below = refl
insert-last d (x ∷ xs) below = ground (arith, insert-last d xs, below.0)

Below-last :
    (n : ℕ) (d : TaskDependency) (rows : List TaskDependency)
    → All (Below n) rows
    → d.ordinal ≡ n
    → All (Below (suc n)) (rows ++ d ∷ [])
Below-last n d [] below e = (omega arith, tt)
Below-last n d (x ∷ xs) below e = (omega (arith, below.0), Below-last n d xs below.1 e)

ordered :
    (task : String) (n : ℕ) (ds : List String) (rows : List TaskDependency)
    → All (Below n) (by_ordinal rows)
    → by_ordinal (linked task n ds rows) ≡ by_ordinal rows ++ forward task n ds
unfolding linked forward
ordered task n [] rows below = sym (append-nil (by_ordinal rows))
ordered task n (d ∷ ds) rows below =
    let new = link_to task n d in
    let last : by_ordinal (new ∷ rows) ≡ by_ordinal rows ++ new ∷ [] =
      insert-last new (by_ordinal rows) below in
    ordered task (suc n) ds (new ∷ rows) (rw (last) (Below-last n new (by_ordinal rows) below refl))
    ∙ ap (λ xs. xs ++ forward task (suc n) ds) last
    ∙ append_assoc (by_ordinal rows) (new ∷ []) (forward task (suc n) ds)

abbrev is_link_of : String → TaskDependency → Bool
is_link_of task d = d.task_id =s task

select-linked :
    (task : String) (n : ℕ) (ds : List String) (rows : List TaskDependency)
    → select (is_link_of task) (linked task n ds rows)
      ≡ linked task n ds (select (is_link_of task) rows)
unfolding linked select
select-linked task n [] rows = refl
select-linked task n (d ∷ ds) rows =
    select-linked task (suc n) ds (link_to task n d ∷ rows)
    ∙ ap (linked task (suc n) ds) (rw ((=s_iff task task).1 refl) refl)

-- The foreign key of a dependency on the Task that it belongs to.
abbrev pub IsOwned : List TaskRow → TaskDependency → Type 0
IsOwned tasks d = any (has_task_id d.task_id) tasks ≡ true

-- A Task that is not stored has no dependencies.
none-owned :
    (task : String) (tasks : List TaskRow) (rows : List TaskDependency)
    → any (has_task_id task) tasks ≡ false
    → All (IsOwned tasks) rows
    → select (is_link_of task) rows ≡ []
unfolding select
none-owned task tasks [] fresh owned = refl
none-owned task tasks (x ∷ xs) fresh owned = elim (Bool-cases (x.task_id =s task)) [
  | inl same ↦ absurd (
      false≢true (
        sym fresh
        ∙ ap (λ id. any (has_task_id id) tasks) (sym ((=s_iff x.task_id task).0 same))
        ∙ owned.0))
  | inr other ↦ rw other (none-owned task tasks xs fresh owned.1)
]

-- The dependencies of a new Task read back as they were given.
pub linked-read :
    (task : String) (ds : List String) (tasks : List TaskRow) (rows : List TaskDependency)
    → any (has_task_id task) tasks ≡ false
    → All (IsOwned tasks) rows
    → map
        (λ (x : TaskDependency). x.dependency_task_id)
        (by_ordinal (select (is_link_of task) (linked task 0 ds rows)))
      ≡ ds
linked-read task ds tasks rows fresh owned =
    ap (λ xs. map (λ (x : TaskDependency). x.dependency_task_id) (by_ordinal xs))
      (select-linked task 0 ds rows
        ∙ ap (linked task 0 ds) (none-owned task tasks rows fresh owned))
    ∙ ap (map (λ (x : TaskDependency). x.dependency_task_id)) (ordered task 0 ds [] tt)
    ∙ forward-names task 0 ds

-- The loop keeps the foreign key, once its Task is stored.
pub linked-IsOwned :
    (task : String) (n : ℕ) (ds : List String) (tasks : List TaskRow) (rows : List TaskDependency)
    → any (has_task_id task) tasks ≡ true
    → All (IsOwned tasks) rows
    → All (IsOwned tasks) (linked task n ds rows)
unfolding linked
linked-IsOwned task n [] tasks rows known owned = owned
linked-IsOwned task n (d ∷ ds) tasks rows known owned =
    linked-IsOwned task (suc n) ds tasks (link_to task n d ∷ rows) known (known, owned)

pub IsOwned-cons :
    (r : TaskRow) (tasks : List TaskRow) (rows : List TaskDependency)
    → All (IsOwned tasks) rows
    → All (IsOwned (r ∷ tasks)) rows
unfolding any
IsOwned-cons r tasks rows owned =
    All-map (IsOwned tasks) (IsOwned (r ∷ tasks)) (λ d h. ground arith) rows owned
