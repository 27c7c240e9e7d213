-- ===== src/Store.antt =====
-- Maps of cw_storage_plus whose values hold their own key: the list of the values in the order of
-- the keys, as `range` gives it. `same` compares the keys of two values, `before` orders them.
pub mod Laws
pub mod Order
use joe_liquid_staking.Prelude.{
  ℕ, ◌+◌, ◌≡◌, refl, Bool, not, List, [], ◌∷◌, Option, none, some, any, retain, find, total, arith,
  if◌then◌else◌, Bool-cases, inl, inr,
}

module _ {ℓ} {A : Type ℓ} (same before : A → A → Bool) where
  replace : A → List A → List A
  replace v [] = []
  replace v (x ∷ xs) = if same x v then v ∷ xs else x ∷ replace v xs

  insert : A → List A → List A
  insert v [] = v ∷ []
  insert v (x ∷ xs) = if before v x then v ∷ x ∷ xs else x ∷ insert v xs

  -- `save`: the value under its key.
  unfoldable pub put : A → List A → List A
  unfolding replace insert
  put v xs = if any (λ x. same x v) xs then replace v xs else insert v xs

-- What the value found first measures, and 0 where there is none.
abbrev pub measure {ℓ} : {A : Type ℓ} → (A → ℕ) → Option A → ℕ
measure f none = 0
measure f (some a) = f a

module _ {ℓ} {A : Type ℓ} (same before : A → A → Bool) (f : A → ℕ) where
  replace-total :
      (v : A) (xs : List A)
      → any (λ x. same x v) xs ≡ Bool.true
      → total f (replace same before v xs) + measure f (find (λ x. same x v) xs) ≡ total f xs + f v
  unfolding replace
  replace-total v [] h = cc
  replace-total v (x ∷ xs) h = ground (arith, replace-total v xs)

  insert-total : (v : A) (xs : List A) → total f (insert same before v xs) ≡ total f xs + f v
  unfolding insert
  insert-total v [] = omega arith
  insert-total v (x ∷ xs) = ground (arith, insert-total v xs)

  find-none :
      (v : A) (xs : List A) → any (λ x. same x v) xs ≡ Bool.false → find (λ x. same x v) xs ≡ none
  find-none v [] h = refl
  find-none v (x ∷ xs) h = ground (arith, find-none v xs)

  -- A save adds the new measure and takes away that of the value it replaces.
  pub put-total :
      (v : A) (xs : List A)
      → total f (put same before v xs) + measure f (find (λ x. same x v) xs) ≡ total f xs + f v
  unfolding put
  put-total v xs = ground (arith, replace-total v xs, insert-total v xs, find-none v xs)
