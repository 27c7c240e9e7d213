-- ===== src/Store/Laws.antt =====
-- Laws of the maps: what a save and a removal do to a search, to a count and to a total.
use joe_liquid_staking.Prelude.{
  ℕ, ◌+◌, ◌≤◌, ◌≡◌, ◌⊎◌, inl, inr, refl, Bool, true, false, not, List, [], ◌∷◌, none, some, any,
  retain, find, total, All, arith, if◌then◌else◌, Bool-cases,
}
use joe_liquid_staking.Store.{put, replace, insert, measure}

-- How many values pass a test.
abbrev pub count {ℓ} : {A : Type ℓ} → (A → Bool) → List A → ℕ
count p xs = total (λ x. if p x then 1 else 0) xs

-- Membership, by recursion.
abbrev pub In : {A : Type 0} → A → List A → Type 0
In x [] = ⊥
In x (y ∷ ys) = (y ≡ x) ⊎ In x ys

module _ {A : Type 0} (p : A → Bool) where
  pub count_of_find-none : (xs : List A) → find p xs ≡ none → count p xs ≡ 0
  count_of_find-none [] h = refl
  count_of_find-none (x ∷ xs) h = ground (arith, count_of_find-none xs)

  pub find_of_count_zero : (xs : List A) → count p xs ≡ 0 → find p xs ≡ none
  find_of_count_zero [] h = refl
  find_of_count_zero (x ∷ xs) h = ground (arith, find_of_count_zero xs)

  pub find-some_test : (xs : List A) (x : A) → find p xs ≡ some x → p x ≡ true
  find-some_test [] x h = cc
  find-some_test (y ∷ xs) x h = ground (arith, find-some_test xs x)

  count_pos_of_In : (x : A) (xs : List A) → In x xs → p x ≡ true → 1 ≤ count p xs
  count_pos_of_In x [] h e = absurd h
  count_pos_of_In x (y ∷ xs) (inl h) e = ground arith
  count_pos_of_In x (y ∷ xs) (inr h) e = omega (arith, count_pos_of_In x xs h e)

  -- Where at most one value passes, the search finds whichever does.
  pub find_of_In :
      (x : A) (xs : List A) → count p xs ≤ 1 → In x xs → p x ≡ true → find p xs ≡ some x
  find_of_In x [] one h e = absurd h
  find_of_In x (y ∷ xs) one (inl h) e = ground arith
  find_of_In x (y ∷ xs) one (inr h) e = ground (arith, count_pos_of_In x xs h e, find_of_In x xs)

  retain-total_none :
      (f : A → ℕ) (xs : List A) → count p xs ≡ 0 → total f (retain (λ x. not (p x)) xs) ≡ total f xs
  retain-total_none f [] h = refl
  retain-total_none f (x ∷ xs) h = ground (arith, retain-total_none f xs)

  -- The removal of the one value that passes takes its measure away.
  pub retain-total :
      (f : A → ℕ) (xs : List A)
      → count p xs ≤ 1
      → total f (retain (λ x. not (p x)) xs) + measure f (find p xs) ≡ total f xs
  retain-total f [] h = omega arith
  retain-total f (x ∷ xs) h = ground (arith, retain-total_none f xs, retain-total f xs)

  pub find-retain_self : (xs : List A) → find p (retain (λ x. not (p x)) xs) ≡ none
  find-retain_self [] = refl
  find-retain_self (x ∷ xs) = ground (arith, find-retain_self xs)

  pub All-retain :
      (P : A → Type 0) (xs : List A) → ((x : A) → In x xs → p x ≡ true → P x) → All P (retain p xs)
  All-retain P [] h = tt
  All-retain P (x ∷ xs) h =
      let rest = All-retain P xs (λ y i e. h y (inr i) e) in
      elim (Bool-cases (p x)) [ inl e ↦ rw e (h x (inl refl) e, rest) | inr e ↦ rw e rest ]

module _ {A : Type 0} (f : A → ℕ) (q : A → Bool) where
  pub retain-total_le : (xs : List A) → total f (retain q xs) ≤ total f xs
  retain-total_le [] = omega arith
  retain-total_le (x ∷ xs) = ground (arith, retain-total_le xs)

module _ {A : Type 0} (p q : A → Bool) (apart : (x : A) → p x ≡ true → q x ≡ true) where
  -- A removal of other values leaves the search alone.
  pub find-retain_ne : (xs : List A) → find p (retain q xs) ≡ find p xs
  find-retain_ne [] = refl
  find-retain_ne (x ∷ xs) = ground (arith, apart x, find-retain_ne xs)

-- The search after a save, for a test that passes the saved value's key alone or not at all.
module _ {A : Type 0} (same before : A → A → Bool) (p : A → Bool) (v : A)
    (agree : (x : A) → p v ≡ true → p x ≡ same x v)
    (differ : (x : A) → p v ≡ false → same x v ≡ true → p x ≡ false) where
  find-replace :
      (xs : List A)
      → any (λ x. same x v) xs ≡ true
      → find p (replace same before v xs) ≡ (if p v then some v else find p xs)
  unfolding replace
  find-replace [] h = cc
  find-replace (x ∷ xs) h = ground (arith, agree x, differ x, find-replace xs)

  find-insert :
      (xs : List A)
      → any (λ x. same x v) xs ≡ false
      → find p (insert same before v xs) ≡ (if p v then some v else find p xs)
  unfolding insert
  find-insert [] h = refl
  find-insert (x ∷ xs) h = ground (arith, agree x, find-insert xs)

  pub find-put : (xs : List A) → find p (put same before v xs) ≡ (if p v then some v else find p xs)
  unfolding put
  find-put xs = ground (arith, find-replace xs, find-insert xs)

pub All-map {ℓ κ} :
    {A : Type ℓ} {P Q : A → Type κ} → ((a : A) → P a → Q a) → (xs : List A) → All P xs → All Q xs
All-map f [] h = tt
All-map f (x ∷ xs) h = (f x h.0, All-map f xs h.1)

module _ {A : Type 0} (P : A → Type 0) where
  pub All-of_In : (xs : List A) → ((x : A) → In x xs → P x) → All P xs
  All-of_In [] h = tt
  All-of_In (x ∷ xs) h = (h x (inl refl), All-of_In xs (λ y i. h y (inr i)))

  pub All-retain_weak : (q : A → Bool) (xs : List A) → All P xs → All P (retain q xs)
  All-retain_weak q [] h = tt
  All-retain_weak q (x ∷ xs) h = elim (Bool-cases (q x)) [
    | inl e ↦ rw e (h.0, All-retain_weak q xs h.1)
    | inr e ↦ rw e (All-retain_weak q xs h.1)
  ]
