-- ===== src/Versioned/Chain.antt =====
-- The chain of a history: one more step, and the steps of other rows.
use factory_ops.Common.{
  ℕ, ◌+◌, ◌≡◌, sym, ap, ◌∙◌, String, Option, some, List, [], ◌∷◌, true, false, arith, ◌=s◌, =s_iff,
}
use mathlib.Core.Path.{subst, subst₂}
use factory_ops.Versioned.{Schema, history, Leads}

module _ {Status Row Step : Type 0} (v : Schema Status Row Step) where
  Leads-head :
      (u : Step) (rest : List Step) (s : Status) (n : ℕ)
      → Leads v s n (u ∷ rest)
      → (s ≡ v.to_status u) × (n ≡ v.to_revision u)
  Leads-head u [] s n h = (sym h.0, sym h.1)
  Leads-head u (w ∷ rest) s n h = (sym h.0, sym h.1)

  pub Leads-step :
      (t : Step) (ts : List Step) (s s' : Status) (n : ℕ)
      → Leads v s n ts
      → v.from_status t ≡ some s
      → v.from_revision t ≡ some n
      → v.to_status t ≡ s'
      → v.to_revision t ≡ n + 1
      → v.legal s s' ≡ true
      → Leads v s' (n + 1) (t ∷ ts)
  Leads-step t [] s s' n h f r to k l = absurd h
  Leads-step t (u ∷ rest) s s' n h f r to k l =
      let (es, en) = Leads-head u rest s n h in
      (
        to,
        k,
        f ∙ ap {B = Option Status} some es,
        r ∙ ap {B = Option ℕ} some en,
        ap (λ m. m + 1) en,
        subst (λ q. v.legal q s' ≡ true) es l,
        subst₂ (λ q m. Leads v q m (u ∷ rest)) es en h,
      )

  pub history-own :
      (id : String) (t : Step) (ts : List Step)
      → v.owner t ≡ id
      → history v id (t ∷ ts) ≡ t ∷ history v id ts
  unfolding history
  history-own id t ts e = ground (arith, =s_iff (v.owner t) id)

  pub history-other :
      (id : String) (t : Step) (ts : List Step)
      → (v.owner t =s id) ≡ false
      → history v id (t ∷ ts) ≡ history v id ts
  unfolding history
  history-other id t ts e = rw e
