-- ===== src/Run/History.antt =====
-- The history of a Run: its rows of agent_run_transitions, the newest first, as a chain of legal
-- transitions from PENDING at revision 0.
use factory_ops.Common.{
  ℕ, ◌+◌, ◌≡◌, sym, ap, ◌∙◌, String, Option, none, some, List, [], ◌∷◌, Bool, true, false, arith,
  ◌=s◌, =s_iff, select,
}
use mathlib.Core.Path.{subst, subst₂}
use factory_ops.Run.Model.{RunStatus, pending, RunTransition}
use factory_ops.Run.Rules.{is_legal}

abbrev pub of_run : String → RunTransition → Bool
of_run id t = t.run_id =s id

unfoldable pub history : String → List RunTransition → List RunTransition
unfolding select
history id ts = select (of_run id) ts

-- The rows lead from PENDING at revision 0 to this status at this revision.
abbrev pub Leads : RunStatus → ℕ → List RunTransition → Type 0
Leads s n [] = ⊥
Leads s n (t ∷ []) =
    (t.to_status ≡ s) × (t.to_revision ≡ n) × (s ≡ pending) × (n ≡ 0) × (t.from_status ≡ none)
Leads s n (t ∷ u ∷ rest) =
    (t.to_status ≡ s)
    × (t.to_revision ≡ n)
    × (t.from_status ≡ some u.to_status)
    × (t.from_revision ≡ some u.to_revision)
    × (n ≡ u.to_revision + 1)
    × (is_legal u.to_status s ≡ true)
    × Leads u.to_status u.to_revision (u ∷ rest)

Leads-head :
    (u : RunTransition) (rest : List RunTransition) (s : RunStatus) (n : ℕ)
    → Leads s n (u ∷ rest)
    → (s ≡ u.to_status) × (n ≡ u.to_revision)
Leads-head u [] s n h = (sym h.0, sym h.1)
Leads-head u (v ∷ rest) s n h = (sym h.0, sym h.1)

pub Leads-step :
    (t : RunTransition) (ts : List RunTransition) (s s' : RunStatus) (n : ℕ)
    → Leads s n ts
    → t.from_status ≡ some s
    → t.from_revision ≡ some n
    → t.to_status ≡ s'
    → t.to_revision ≡ n + 1
    → is_legal s s' ≡ true
    → Leads s' (n + 1) (t ∷ ts)
Leads-step t [] s s' n h f r to k l = absurd h
Leads-step t (u ∷ rest) s s' n h f r to k l =
    let (es, en) = Leads-head u rest s n h in
    (
      to,
      k,
      f ∙ ap {B = Option RunStatus} some es,
      r ∙ ap {B = Option ℕ} some en,
      ap (λ m. m + 1) en,
      subst (λ q. is_legal q s' ≡ true) es l,
      subst₂ (λ q m. Leads q m (u ∷ rest)) es en h,
    )

pub history-own :
    (id : String) (t : RunTransition) (ts : List RunTransition)
    → t.run_id ≡ id
    → history id (t ∷ ts) ≡ t ∷ history id ts
unfolding history
history-own id t ts e = ground (arith, =s_iff t.run_id id)

pub history-other :
    (id : String) (t : RunTransition) (ts : List RunTransition)
    → (t.run_id =s id) ≡ false
    → history id (t ∷ ts) ≡ history id ts
unfolding history
history-other id t ts e = rw e
