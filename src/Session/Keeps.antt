-- ===== src/Session/Keeps.antt =====
-- Invariants of actions under interference: what holds of the store before a call, and is kept by
-- what the other sessions do, holds of the store after the call.
use factory_ops.Common.{◌≡◌, refl, List, [], ◌∷◌, Bool, true, false, if◌then◌else◌, All}
use factory_ops.Session.{
  Exception, Result, ok, err, Fault, healthy, lost_before, lost_after, Slot, World, Action, Tx,
  pure, raise, lift, attempt, begin, connect, ◌>>=◌, settle, step_at, continue,
}

-- What the other sessions may do to the store.
abbrev pub Guided : {S : Type 0} → (S → S → Type 0) → List (Slot S) → Type 0
Guided {S} rely = All (λ slot. (s : S) → rely s (slot.others s))

abbrev pub IsStable : {S : Type 0} → (S → S → Type 0) → (S → Type 0) → Type 0
IsStable {S} rely P = (s s' : S) → rely s s' → P s → P s'

pub record Holds {S : Type 0} (rely : S → S → Type 0) (P : S → Type 0) (w : World S) : Type 0 where
  pub now : P w.store
  pub later : Guided rely w.upcoming

-- `m` keeps `P`, whether it returns or raises.
pub record Keeps {S A : Type 0} (rely : S → S → Type 0) (P : S → Type 0) (m : Action S A)
    : Type 0 where
  pub at : (w : World S) → Holds rely P w → Holds rely P (m w).1

-- The statements of a transaction keep `P` where they go through.
pub record TxKeeps {S A : Type 0} (P : S → Type 0) (body : Tx S A) : Type 0 where
  pub at : (s : S) → P s → (a : A) → (body s).0 ≡ ok a → P (body s).1

settle-keeps :
    {S A : Type 0} (P : S → Type 0) (f : Fault) (s : S) (r : Result A × S)
    → P s
    → ((a : A) → r.0 ≡ ok a → P r.1)
    → P (settle f s r).1
settle-keeps P lost_before s r before after = before
settle-keeps P healthy s (ok a, s') before after = after a refl
settle-keeps P healthy s (err e, s') before after = before
settle-keeps P lost_after s (ok a, s') before after = after a refl
settle-keeps P lost_after s (err e, s') before after = before

module _ {S A : Type 0} {rely : S → S → Type 0} {P : S → Type 0} where
  pub Keeps-pure : (a : A) → Keeps rely P (pure a)
  Keeps-pure a = record { at = λ w h. h }

  pub Keeps-raise : (e : Exception) → Keeps rely P (raise {A = A} e)
  Keeps-raise e = record { at = λ w h. h }

  pub Keeps-lift : (r : Result A) → Keeps rely P (lift r)
  Keeps-lift r = record { at = λ w h. h }

  pub Keeps-attempt : (m : Action S A) → Keeps rely P m → Keeps rely P (attempt m)
  Keeps-attempt m k = record { at = λ w h. k.at w h }

  pub Keeps-if :
      (b : Bool) (m n : Action S A)
      → Keeps rely P m
      → Keeps rely P n
      → Keeps rely P (if b then m else n)
  Keeps-if true m n km kn = km
  Keeps-if false m n km kn = kn

  pub step_at-keeps :
      (slots : List (Slot S)) (body : Tx S A) (s : S)
      → IsStable rely P
      → TxKeeps P body
      → P s
      → Guided rely slots
      → Holds rely P (step_at slots body s).1
  unfolding step_at
  step_at-keeps [] body s stable k h later = record {
    now = settle-keeps P healthy s (body s) h (k.at s h);
    later = tt;
  }
  step_at-keeps (slot ∷ rest) body s stable k h later =
      let h' = stable s (slot.others s) (later.0 s) h in
      record {
        now =
            settle-keeps P slot.fault (slot.others s) (body (slot.others s)) h'
              (k.at (slot.others s) h');
        later = later.1;
      }

  pub Keeps-begin : (body : Tx S A) → IsStable rely P → TxKeeps P body → Keeps rely P (begin body)
  unfolding begin
  Keeps-begin body stable k = record {
    at = λ w h. step_at-keeps w.upcoming body w.store stable k h.now h.later;
  }

  pub Keeps-connect : (query : S → A) → IsStable rely P → Keeps rely P (connect query)
  unfolding connect
  Keeps-connect query stable =
      Keeps-begin (λ s. (ok (query s), s)) stable (record { at = λ s h a e. h })

module _ {S A B : Type 0} {rely : S → S → Type 0} {P : S → Type 0} where
  Keeps-continue :
      (r : Result A) (w : World S) (f : A → Action S B)
      → ((a : A) → Keeps rely P (f a))
      → Holds rely P w
      → Holds rely P (continue (r, w) f).1
  Keeps-continue (ok a) w f kf h = (kf a).at w h
  Keeps-continue (err e) w f kf h = h

  pub Keeps-bind :
      (m : Action S A) (f : A → Action S B)
      → Keeps rely P m
      → ((a : A) → Keeps rely P (f a))
      → Keeps rely P (m >>= f)
  unfolding ◌>>=◌
  Keeps-bind m f km kf = record { at = λ w h. Keeps-continue (m w).0 (m w).1 f kf (km.at w h) }

pub ruleset keeps_rules = (
  Keeps-pure, Keeps-raise, Keeps-lift, Keeps-attempt, Keeps-if, Keeps-begin, Keeps-connect,
  Keeps-bind,
)

-- Sessions without any promise.
pub Guided-any : {S : Type 0} (slots : List (Slot S)) → Guided (λ _ _. Unit {0}) slots
Guided-any [] = tt
Guided-any (slot ∷ rest) = (λ s. tt, Guided-any rest)
