-- ===== src/Session/Statements.antt =====
-- SQL statements inside a transaction: each returns the changed tables or raises.
use factory_ops.Common.{Bool, true, false, ◌≡◌, refl}
use factory_ops.Session.{Exception, Result, ok, err, Tx}

infixl 5 ◌>>=◌ ◌>>◌
abbrev pub ◌>>=◌ : {A B : Type 0} → Result A → (A → Result B) → Result B
ok a >>= f = f a
err e >>= f = err e

abbrev pub ◌>>◌ : {B : Type 0} → Result (Unit {0}) → Result B → Result B
m >> k = m >>= λ _. k

-- The statement goes through only under the condition.
abbrev pub guard : Bool → Exception → Result (Unit {0})
guard true e = ok tt
guard false e = err e

abbrev pub commit : {S : Type 0} → S → Result S → Result (Unit {0}) × S
commit s (ok s') = (ok tt, s')
commit s (err e) = (err e, s)

-- A transaction that is a sequence of statements.
abbrev pub statements : {S : Type 0} → (S → Result S) → Tx S (Unit {0})
statements f s = commit s (f s)

-- What went through, went through step by step.
pub bind-ok :
    {A B : Type 0} (m : Result A) (f : A → Result B) (b : B)
    → (m >>= f) ≡ ok b
    → (a : A) × (m ≡ ok a) × (f a ≡ ok b)
bind-ok (ok a) f b h = (a, refl, h)
bind-ok (err e) f b h = cc
