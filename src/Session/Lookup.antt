-- ===== src/Session/Lookup.antt =====
-- A lookup whose result, if there is one, is answered at once.
use factory_ops.Common.{◌≡◌, Option, none, some}
use factory_ops.Session.{Action, connect, ◌>>=◌}
use factory_ops.Session.Keeps.{IsStable, Keeps}
use factory_ops.Session.Ensures.{Ensures, Ensures-connect}

-- `if existing is not None: return …`
abbrev pub found_or : {S A B : Type 0} → Option A → (A → Action S B) → Action S B → Action S B
found_or (some a) found k = found a
found_or none found k = k

module _ {S : Type 0} (rely : S → S → Type 0) (P : S → Type 0) where
  pub found_or-Keeps :
      {A B : Type 0} (o : Option A) (f : A → Action S B) (k : Action S B)
      → ((a : A) → Keeps rely P (f a))
      → Keeps rely P k
      → Keeps rely P (found_or o f k)
  found_or-Keeps none f k kf kk = kk
  found_or-Keeps (some a) f k kf kk = kf a

module _ {S A B : Type 0} {rely : S → S → Type 0} {P : S → Type 0} {Q : B → S → Type 0} where
  -- A lookup in a store with `P` finds a row, which is answered, or the rest follows.
  pub found_or-Ensures :
      (query : S → Option A) (f : A → Action S B) (k : Action S B)
      → IsStable rely P
      → ((a : A) (s : S) → P s → query s ≡ some a → Ensures rely P Q (f a))
      → ((s : S) → P s → query s ≡ none → Ensures rely P Q k)
      → Ensures rely P Q (connect query >>= λ o. found_or o f k)
  found_or-Ensures query f k stable found missing = Ensures-connect query _ stable answered
    where
      answered : (o : Option A) (s : S) → P s → query s ≡ o → Ensures rely P Q (found_or o f k)
      answered none s p e = missing s p e
      answered (some a) s p e = found a s p e
