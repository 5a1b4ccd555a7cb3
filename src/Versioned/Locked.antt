-- ===== src/Versioned/Locked.antt =====
-- An update of one row with its step, and a new row with its first step, keep the tables consistent.
use factory_ops.Common.{
  ◌≡◌, refl, sym, ap, ◌∙◌, String, List, [], ◌∷◌, Bool, true, false, ◌||◌, arith, ◌=s◌, =s_iff,
  select, update, any, length, All, All-map, Bool-cases, inl, inr, if◌then◌else◌,
}
use mathlib.Core.Path.{fun_ext, subst}
use mathlib.Core.Bool.{false≢true}
use factory_ops.Versioned.{
  Schema, Apart, has_key, same_key, same_request, clashes, history, IsRecorded, IsConsistent,
  IsMove, IsBirth,
}
use factory_ops.Versioned.Chain.{Leads-step, history-own, history-other}

-- An update that leaves the tested columns alone.
pub any-update :
    {A : Type 0} (p q : A → Bool) (f : A → A) (rows : List A)
    → ((r : A) → p (f r) ≡ p r)
    → any p (update q f rows) ≡ any p rows
unfolding any update
any-update p q f [] h = refl
any-update p q f (r ∷ rs) h = ground (arith, h r, any-update p q f rs h)

pub Apart-update :
    {A : Type 0} (clash : A → A → Bool) (q : A → Bool) (f : A → A) (rows : List A)
    → ((r x : A) → clash r (f x) ≡ clash r x)
    → ((r x : A) → clash (f r) x ≡ clash r x)
    → Apart clash rows
    → Apart clash (update q f rows)
unfolding update
Apart-update clash q f [] h k a = tt
Apart-update clash q f (r ∷ rs) h k a = (head (q r), Apart-update clash q f rs h k a.1)
  where
    head : (b : Bool) → any (clash (if b then f r else r)) (update q f rs) ≡ false
    head true = any-update (clash (f r)) q f rs (h (f r)) ∙ ap (λ p. any p rs) (fun_ext (k r)) ∙ a.0
    head false = any-update (clash r) q f rs (h r) ∙ a.0

pub or-false : (a b : Bool) → (a || b) ≡ false → (a ≡ false) × (b ≡ false)
or-false a b h = ground arith

pub differ : (a b : String) → (a =s b) ≡ false → (b =s a) ≡ false
differ a b h = ground (arith, =s_iff a b, =s_iff b a)

module _ {Status Row Step : Type 0} (v : Schema Status Row Step) where
  pub has_key-update :
      (q : Row → Bool) (f : Row → Row) (rows : List Row) (id : String)
      → ((r : Row) → v.key (f r) ≡ v.key r)
      → any (has_key v id) (update q f rows) ≡ any (has_key v id) rows
  has_key-update q f rows id k = any-update (has_key v id) q f rows (λ r. ap (λ s. s =s id) (k r))

  module _ (hits : Row → Bool) (f : Row → Row) (t : Step) (ts : List Step)
      (m : IsMove v hits f t) where
    missed : (r : Row) → has_key v (v.owner t) r ≡ false → hits r ≡ false
    missed r h = ground (arith, =s_iff (v.key r) (v.owner t), m.before r)

    all_missed :
        (rows : List Row) → any (has_key v (v.owner t)) rows ≡ false → length (select hits rows) ≡ 0
    unfolding any select
    all_missed [] h = refl
    all_missed (r ∷ rs) h = ground (arith, missed r, all_missed rs)

    other-IsRecorded :
        (r : Row) → has_key v (v.owner t) r ≡ false → IsRecorded v ts r → IsRecorded v (t ∷ ts) r
    other-IsRecorded r h k = rw (history-other v (v.key r) t ts (differ (v.key r) (v.owner t) h)) k

    hit-IsRecorded : (r : Row) → hits r ≡ true → IsRecorded v ts r → IsRecorded v (t ∷ ts) (f r)
    hit-IsRecorded r h k =
        let (own, from, from_revision, step, legal) = m.before r h in
        let (to, to_revision) = m.after r h in
        rw (m.key r, history-own v (v.key r) t ts (sym own), to, to_revision, step)
          (Leads-step v t (history v (v.key r) ts) (v.status r) (v.to_status t) (v.revision r) k
            from from_revision refl step legal)

    others-IsRecorded :
        (rows : List Row)
        → any (has_key v (v.owner t)) rows ≡ false
        → All (IsRecorded v ts) rows
        → All (IsRecorded v (t ∷ ts)) (update hits f rows)
    unfolding any update
    others-IsRecorded [] h k = tt
    others-IsRecorded (r ∷ rs) h k =
        let (here, there) = or-false (has_key v (v.owner t) r) (any (has_key v (v.owner t)) rs) h in
        (rw (missed r here) (other-IsRecorded r here k.0), others-IsRecorded rs there k.1)

    -- The rows behind one with the owner's key.
    behind :
        (r : Row) (rs : List Row)
        → v.key r ≡ v.owner t
        → Apart (same_key v) (r ∷ rs)
        → any (has_key v (v.owner t)) rs ≡ false
    behind r rs same a = subst (λ id. any (has_key v id) rs ≡ false) same a.0

    rows-IsRecorded :
        (rows : List Row)
        → Apart (same_key v) rows
        → length (select hits rows) ≡ 1
        → All (IsRecorded v ts) rows
        → All (IsRecorded v (t ∷ ts)) (update hits f rows)
    unfolding select update
    rows-IsRecorded [] apart one k = tt
    rows-IsRecorded (r ∷ rs) apart one k = elim (Bool-cases (hits r)) [
      | inl hit ↦ (
        rw hit (hit-IsRecorded r hit k.0),
        others-IsRecorded rs (behind r rs (m.before r hit).0 apart) k.1,
      )
      | inr miss ↦ elim (Bool-cases (has_key v (v.owner t) r)) [
        | inl same ↦
            let none_behind =
              all_missed rs (behind r rs ((=s_iff (v.key r) (v.owner t)).0 same) apart) in
            let one' : length (select hits rs) ≡ 1 = rw miss at one in absurd (omega arith)
        | inr other ↦ (
          rw miss (other-IsRecorded r other k.0),
          rows-IsRecorded rs apart.1 (rw miss at one) k.1,
        )
      ]
    ]

    pub move-IsConsistent :
        (rows : List Row)
        → length (select hits rows) ≡ 1
        → any (same_request v t) ts ≡ false
        → any (clashes v t) ts ≡ false
        → any (has_key v (v.owner t)) rows ≡ true
        → IsConsistent v rows ts
        → IsConsistent v (update hits f rows) (t ∷ ts)
    move-IsConsistent rows one request slot exists c = record {
      keys =
          Apart-update (same_key v) hits f rows (λ r x. ap (λ s. s =s v.key r) (m.key x))
            (λ r x. ap (λ s. v.key x =s s) (m.key r)) c.keys;
      requests = (request, c.requests);
      slots = (slot, c.slots);
      owned = (
        has_key-update hits f rows (v.owner t) m.key ∙ exists,
        All-map (λ x. any (has_key v (v.owner x)) rows ≡ true)
            (λ x. any (has_key v (v.owner x)) (update hits f rows) ≡ true)
            (λ x known. has_key-update hits f rows (v.owner x) m.key ∙ known) ts c.owned,
      );
      recorded = rows-IsRecorded rows c.keys one c.recorded;
    }

  unowned_history :
      (id : String) (rows : List Row) (ts : List Step)
      → All (λ t. any (has_key v (v.owner t)) rows ≡ true) ts
      → any (has_key v id) rows ≡ false
      → history v id ts ≡ []
  unfolding history select
  unowned_history id rows [] a h = refl
  unowned_history id rows (t ∷ ts) a h = elim (Bool-cases (v.owner t =s id)) [
    | inl same ↦ absurd (
        false≢true
          (sym h ∙ ap (λ s. any (has_key v s) rows) (sym ((=s_iff (v.owner t) id).0 same)) ∙ a.0))
    | inr other ↦ rw other (unowned_history id rows ts a.1 h)
  ]

  module _ (r : Row) (t : Step) (b : IsBirth v r t) where
    old-IsRecorded :
        (ts : List Step) (x : Row)
        → has_key v (v.key r) x ≡ false
        → IsRecorded v ts x
        → IsRecorded v (t ∷ ts) x
    old-IsRecorded ts x h k =
        rw (history-other v (v.key x) t ts (rw (b.2) (differ (v.key x) (v.key r) h))) k

    olds-IsRecorded :
        (rows : List Row) (ts : List Step)
        → any (has_key v (v.key r)) rows ≡ false
        → All (IsRecorded v ts) rows
        → All (IsRecorded v (t ∷ ts)) rows
    unfolding any
    olds-IsRecorded [] ts h k = tt
    olds-IsRecorded (x ∷ xs) ts h k =
        let (here, there) = or-false (has_key v (v.key r) x) (any (has_key v (v.key r)) xs) h in
        (old-IsRecorded ts x here k.0, olds-IsRecorded xs ts there k.1)

    born : (ts : List Step) → history v (v.key r) ts ≡ [] → IsRecorded v (t ∷ ts) r
    born ts h =
        rw (history-own v (v.key r) t ts b.2, h) (b.4 ∙ sym b.0, b.5 ∙ sym b.1, b.0, b.1, b.3)

    known-cons :
        (rows : List Row) (id : String)
        → any (has_key v id) rows ≡ true
        → any (has_key v id) (r ∷ rows) ≡ true
    unfolding any
    known-cons rows id h = ground arith

    own-cons : (rows : List Row) → any (has_key v (v.owner t)) (r ∷ rows) ≡ true
    unfolding any
    own-cons rows = rw (b.2, (=s_iff (v.key r) (v.key r)).1 refl) refl

    pub birth-IsConsistent :
        (rows : List Row) (ts : List Step)
        → any (has_key v (v.key r)) rows ≡ false
        → any (same_request v t) ts ≡ false
        → any (clashes v t) ts ≡ false
        → IsConsistent v rows ts
        → IsConsistent v (r ∷ rows) (t ∷ ts)
    birth-IsConsistent rows ts fresh request slot c = record {
      keys = (fresh, c.keys);
      requests = (request, c.requests);
      slots = (slot, c.slots);
      owned = (
        own-cons rows,
        All-map (λ x. any (has_key v (v.owner x)) rows ≡ true)
            (λ x. any (has_key v (v.owner x)) (r ∷ rows) ≡ true)
            (λ x known. known-cons rows (v.owner x) known) ts c.owned,
      );
      recorded = (
        born ts (unowned_history (v.key r) rows ts c.owned fresh),
        olds-IsRecorded rows ts fresh c.recorded,
      );
    }
