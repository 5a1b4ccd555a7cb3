-- ===== src/Versioned/Lookup.antt =====
-- Lookups of a row by its key, after an UPDATE that misses the row and after an INSERT.
use factory_ops.Common.{
  ◌≡◌, sym, ap, ◌∙◌, String, some, List, [], ◌∷◌, Bool, true, false, arith, ◌=s◌, =s_iff, find, any,
  update, Bool-cases, inl, inr,
}
use mathlib.Core.Bool.{false≢true}

module _ {Row : Type 0} (has : Row → Bool) where
  -- An UPDATE that misses the row that is found.
  pub find-update :
      (hits : Row → Bool) (f : Row → Row) (rows : List Row) (row : Row)
      → ((r : Row) → has (f r) ≡ has r)
      → hits row ≡ false
      → find has rows ≡ some row
      → find has (update hits f rows) ≡ some row
  unfolding find update
  find-update hits f [] row same missed h = cc
  find-update hits f (x ∷ xs) row same missed h =
      ground (arith, same x, find-update hits f xs row same missed)

  find-known : (rows : List Row) (row : Row) → find has rows ≡ some row → any has rows ≡ true
  unfolding find any
  find-known [] row h = cc
  find-known (x ∷ xs) row h = ground (arith, find-known xs row)

-- A new row has a key of its own.
pub find-insert :
    {Row : Type 0} (key : Row → String) (id : String) (new row : Row) (rows : List Row)
    → any (λ r. key r =s key new) rows ≡ false
    → find (λ r. key r =s id) rows ≡ some row
    → find (λ r. key r =s id) (new ∷ rows) ≡ some row
unfolding find
find-insert key id new row rows fresh h = elim (Bool-cases (key new =s id)) [
  | inl same ↦ absurd (
      false≢true (
        sym fresh
        ∙ ap (λ i. any (λ r. key r =s i) rows) ((=s_iff (key new) id).0 same)
        ∙ find-known (λ r. key r =s id) rows row h))
  | inr other ↦ rw other h
]
