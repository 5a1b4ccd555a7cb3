-- ===== src/Session/Ensures.antt =====
-- What a call that returns has established, under interference.
use factory_ops.Common.{◌≡◌, refl, List, [], ◌∷◌, Bool, true, false, if◌then◌else◌}
use factory_ops.Session.{
  Exception, Result, ok, err, Fault, healthy, lost_before, lost_after, Slot, World, Action, Tx,
  raise, lift, attempt, begin, connect, ◌>>=◌, settle, step_at, continue,
}
use factory_ops.Session.Keeps.{Guided, IsStable, Holds, Keeps, TxKeeps, step_at-keeps}

-- From `P`, a result `a` of `m` has `Q a` of the store that it leaves.
pub record Ensures {S A : Type 0} (rely : S → S → Type 0) (P : S → Type 0) (Q : A → S → Type 0)
    (m : Action S A) : Type 0 where
  pub at : (w : World S) → Holds rely P w → (a : A) → (m w).0 ≡ ok a → Q a (m w).1.store

module _ {S A : Type 0} {rely : S → S → Type 0} {P : S → Type 0} {Q : A → S → Type 0} where
  pub Ensures-lift :
      (r : Result A) → ((a : A) → r ≡ ok a → (s : S) → P s → Q a s) → Ensures rely P Q (lift r)
  Ensures-lift r q = record { at = λ w h a e. q a e w.store h.now }

  pub Ensures-raise : (e : Exception) → Ensures rely P Q (raise e)
  Ensures-raise e = record { at = λ w h a e. cc }

  pub Ensures-if :
      (b : Bool) (m n : Action S A)
      → Ensures rely P Q m
      → Ensures rely P Q n
      → Ensures rely P Q (if b then m else n)
  Ensures-if true m n km kn = km
  Ensures-if false m n km kn = kn

module _ {S A B : Type 0} {rely : S → S → Type 0} {P : S → Type 0} {Q : B → S → Type 0} where
  ensure-continue :
      (r : Result A) (w : World S) (f : A → Action S B) (b : B)
      → ((a : A) → r ≡ ok a → Ensures rely P Q (f a))
      → Holds rely P w
      → (continue (r, w) f).0 ≡ ok b
      → Q b (continue (r, w) f).1.store
  ensure-continue (ok a) w f b k h e = (k a refl).at w h b e
  ensure-continue (err x) w f b k h e = cc

  pub Ensures-bind :
      (m : Action S A) (f : A → Action S B)
      → Keeps rely P m
      → ((a : A) → Ensures rely P Q (f a))
      → Ensures rely P Q (m >>= f)
  unfolding ◌>>=◌
  Ensures-bind m f km kf = record {
    at = λ w h b e. ensure-continue (m w).0 (m w).1 f b (λ a _. kf a) (km.at w h) e;
  }

module _ {S A B : Type 0} (rely : S → S → Type 0) (P R : S → Type 0) (Q : B → S → Type 0) where
  settle-establishes :
      (f : Fault) (s : S) (r : Result A × S) (a : A)
      → ((b : A) → r.0 ≡ ok b → R r.1)
      → (settle f s r).0 ≡ ok a
      → R (settle f s r).1
  settle-establishes lost_before s r a k e = cc
  settle-establishes healthy s (ok b, s') a k e = k b refl
  settle-establishes healthy s (err x, s') a k e = cc
  settle-establishes lost_after s (ok b, s') a k e = cc
  settle-establishes lost_after s (err x, s') a k e = cc

  module _ (body : Tx S A) (stable : IsStable rely P)
      (makes : (s : S) → P s → (a : A) → (body s).0 ≡ ok a → R (body s).1) where
    step_at-establishes :
        (slots : List (Slot S)) (s : S) (a : A)
        → P s
        → Guided rely slots
        → (step_at slots body s).0 ≡ ok a
        → R (step_at slots body s).1.store
    unfolding step_at
    step_at-establishes [] s a p g e = settle-establishes healthy s (body s) a (makes s p) e
    step_at-establishes (slot ∷ rest) s a p g e =
        let now = slot.others s in
        settle-establishes slot.fault now (body now) a (makes now (stable s now (g.0 s) p)) e

    module _ (keeps : TxKeeps P body) (k : Result A → Action S B)
        (done : (a : A) → Ensures rely R Q (k (ok a)))
        (failed : (e : Exception) → Ensures rely P Q (k (err e))) where
      finish :
          (r : Result A) (w : World S) (b : B)
          → Holds rely P w
          → ((a : A) → r ≡ ok a → R w.store)
          → (k r w).0 ≡ ok b
          → Q b (k r w).1.store
      finish (ok a) w b h made e = (done a).at w (record { now = made a refl; later = h.later }) b e
      finish (err x) w b h made e = (failed x).at w h b e

      -- A transaction that goes through has made `R`, which the rest may start from.
      pub Ensures-attempt : Ensures rely P Q (attempt (begin body) >>= k)
      unfolding ◌>>=◌ begin
      Ensures-attempt = record {
        at = λ w h b e.
            finish (step_at w.upcoming body w.store).0 (step_at w.upcoming body w.store).1 b
              (step_at-keeps w.upcoming body w.store stable keeps h.now h.later)
              (λ a made. step_at-establishes w.upcoming w.store a h.now h.later made) e;
      }

    module _ (keeps : TxKeeps P body) (k : A → Action S B)
        (done : (a : A) → Ensures rely R Q (k a)) where
      finish-continue :
          (r : Result A) (w : World S) (b : B)
          → Guided rely w.upcoming
          → ((a : A) → r ≡ ok a → R w.store)
          → (continue (r, w) k).0 ≡ ok b
          → Q b (continue (r, w) k).1.store
      finish-continue (ok a) w b g made e =
          (done a).at w (record { now = made a refl; later = g }) b e
      finish-continue (err x) w b g made e = cc

      -- The same, for a transaction whose exceptions pass through.
      pub Ensures-begin : Ensures rely P Q (begin body >>= k)
      unfolding ◌>>=◌ begin
      Ensures-begin = record {
        at = λ w h b e.
            finish-continue (step_at w.upcoming body w.store).0 (step_at w.upcoming body w.store).1
              b (step_at-keeps w.upcoming body w.store stable keeps h.now h.later).later
              (λ a made. step_at-establishes w.upcoming w.store a h.now h.later made) e;
      }

module _ {S A : Type 0} (rely : S → S → Type 0) (P : S → Type 0) (query : S → A) where
  settle-answer :
      (f : Fault) (s : S) (a : A)
      → P s
      → (settle f s (ok (query s), s)).0 ≡ ok a
      → (x : S) × P x × (query x ≡ a)
  settle-answer lost_before s a p e = cc
  settle-answer healthy s a p e = (s, p, cc)
  settle-answer lost_after s a p e = cc

  step_at-answer :
      (slots : List (Slot S)) (s : S) (a : A)
      → IsStable rely P
      → P s
      → Guided rely slots
      → (step_at slots (λ x. (ok (query x), x)) s).0 ≡ ok a
      → (x : S) × P x × (query x ≡ a)
  unfolding step_at
  step_at-answer [] s a stable p g e = settle-answer healthy s a p e
  step_at-answer (slot ∷ rest) s a stable p g e =
      settle-answer slot.fault (slot.others s) a (stable s (slot.others s) (g.0 s) p) e

module _ {S A B : Type 0} {rely : S → S → Type 0} {P : S → Type 0} {Q : B → S → Type 0} where
  -- What a query answers, it has read from a store with `P`.
  pub Ensures-connect :
      (query : S → A) (f : A → Action S B)
      → IsStable rely P
      → ((a : A) → (s : S) → P s → query s ≡ a → Ensures rely P Q (f a))
      → Ensures rely P Q (connect query >>= f)
  unfolding ◌>>=◌ begin connect
  Ensures-connect query f stable k = record {
    at = λ w h b e.
        let body : Tx S A = λ x. (ok (query x), x) in
        ensure-continue (step_at w.upcoming body w.store).0 (step_at w.upcoming body w.store).1 f b
          (λ a found.
            let (x, p, q) =
              step_at-answer rely P query w.upcoming w.store a stable h.now h.later found in
            k a x p q)
          (step_at-keeps w.upcoming body w.store stable (record { at = λ s p a q. p }) h.now
            h.later)
          e;
  }

-- A last check, which passes the result on or raises.
abbrev Passes : {S A : Type 0} → (A → Action S A) → Type 0
Passes {S} {A} f = (a : A) (w : World S) (b : A) → (f a w).0 ≡ ok b → (a ≡ b) × ((f a w).1 ≡ w)

module _ {S A : Type 0} (Q : A → S → Type 0) where
  ensure-checked :
      (r : Result A) (w : World S) (f : A → Action S A) (b : A)
      → Passes f
      → ((a : A) → r ≡ ok a → Q a w.store)
      → (continue (r, w) f).0 ≡ ok b
      → Q b (continue (r, w) f).1.store
  ensure-checked (ok a) w f b p q e = let (same, still) = p a w b e in rw (still, ← same) (q a refl)
  ensure-checked (err x) w f b p q e = cc

  pub Ensures-check :
      {rely : S → S → Type 0} {P : S → Type 0} (m : Action S A) (f : A → Action S A)
      → Ensures rely P Q m
      → Passes f
      → Ensures rely P Q (m >>= f)
  unfolding ◌>>=◌
  Ensures-check m f k p = record {
    at = λ w h b e. ensure-checked (m w).0 (m w).1 f b p (λ a q. k.at w h a q) e;
  }

-- What a call keeps, holds at its end.
pub Ensures-kept :
    {S A : Type 0} {rely : S → S → Type 0} {P : S → Type 0} (m : Action S A)
    → Keeps rely P m
    → Ensures rely P (λ _ s. P s) m
Ensures-kept m k = record { at = λ w h a e. (k.at w h).now }
