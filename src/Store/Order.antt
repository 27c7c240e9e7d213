-- ===== src/Store/Order.antt =====
-- The maps in key order: `put` and `retain` keep the order of the values.
use joe_liquid_staking.Prelude.{
  ◌≡◌, refl, ap, ◌++◌, Bool, true, false, List, [], ◌∷◌, any, retain, All, arith, Bool-cases, inl,
  inr,
}
use joe_liquid_staking.Store.{put, replace, insert}
use joe_liquid_staking.Store.Laws.{All-retain_weak}

-- Each value stands before all later ones.
abbrev pub Ascending : {A : Type 0} → (A → A → Bool) → List A → Type 0
Ascending before [] = Unit
Ascending before (x ∷ xs) = All (λ y. before x y ≡ true) xs × Ascending before xs

-- `before` is a strict order of the keys that `same` compares.
pub record IsOrder {A : Type 0} (same before : A → A → Bool) : Type 0 where
  pub trans : (x y z : A) → before x y ≡ true → before y z ≡ true → before x z ≡ true
  pub total : (x y : A) → same x y ≡ false → before y x ≡ false → before x y ≡ true
  pub right : (x y z : A) → same y z ≡ true → before x y ≡ true → before x z ≡ true
  pub left : (x y z : A) → same x z ≡ true → before x y ≡ true → before z y ≡ true

module _ {A : Type 0} (before : A → A → Bool) where
  pub retain-Ascending :
      (p : A → Bool) (xs : List A) → Ascending before xs → Ascending before (retain p xs)
  retain-Ascending p [] h = tt
  retain-Ascending p (x ∷ xs) h =
      let rest = retain-Ascending p xs h.1 in
      elim (Bool-cases (p x)) [
        | inl e ↦ rw e (All-retain_weak (λ y. before x y ≡ true) p xs h.0, rest)
        | inr e ↦ rw e rest
      ]

module _ {A : Type 0} {same before : A → A → Bool} (order : IsOrder same before) (v : A) where
  All-before :
      (x y : A)
      → before x y ≡ true
      → (xs : List A) → All (λ z. before y z ≡ true) xs
      → All (λ z. before x z ≡ true) xs
  All-before x y h [] all = tt
  All-before x y h (z ∷ xs) all = (order.trans x y z h all.0, All-before x y h xs all.1)

  All-same :
      (x : A)
      → same x v ≡ true
      → (xs : List A) → All (λ z. before x z ≡ true) xs
      → All (λ z. before v z ≡ true) xs
  All-same x h [] all = tt
  All-same x h (z ∷ xs) all = (order.left x z v h all.0, All-same x h xs all.1)

  All-replace :
      (x : A) (xs : List A)
      → All (λ z. before x z ≡ true) xs
      → All (λ z. before x z ≡ true) (replace same before v xs)
  unfolding replace
  All-replace x [] all = tt
  All-replace x (z ∷ xs) all = elim (Bool-cases (same z v)) [
    | inl e ↦ rw e (order.right x z v e all.0, all.1)
    | inr e ↦ rw e (all.0, All-replace x xs all.1)
  ]

  All-insert :
      (x : A)
      → before x v ≡ true
      → (xs : List A) → All (λ z. before x z ≡ true) xs
      → All (λ z. before x z ≡ true) (insert same before v xs)
  unfolding insert
  All-insert x h [] all = (h, tt)
  All-insert x h (z ∷ xs) all = elim (Bool-cases (before v z)) [
    | inl e ↦ rw e (h, (all.0, all.1))
    | inr e ↦ rw e (all.0, All-insert x h xs all.1)
  ]

  replace-Ascending :
      (xs : List A) → Ascending before xs → Ascending before (replace same before v xs)
  unfolding replace
  replace-Ascending [] h = tt
  replace-Ascending (x ∷ xs) h = elim (Bool-cases (same x v)) [
    | inl e ↦ rw e (All-same x e xs h.0, h.1)
    | inr e ↦ rw e (All-replace x xs h.0, replace-Ascending xs h.1)
  ]

  insert-Ascending :
      (xs : List A)
      → any (λ x. same x v) xs ≡ false
      → Ascending before xs
      → Ascending before (insert same before v xs)
  unfolding insert
  insert-Ascending [] new h = (tt, tt)
  insert-Ascending (x ∷ xs) new h = elim (Bool-cases (before v x)) [
    | inl e ↦ rw e ((e, All-before v x e xs h.0), h)
    | inr e ↦
        let apart : same x v ≡ false = ground arith in
        let fresh : any (λ y. same y v) xs ≡ false = ground arith in
        rw e (All-insert x (order.total x v apart e) xs h.0, insert-Ascending xs fresh h.1)
  ]

  -- A save keeps the order.
  pub put-Ascending : (xs : List A) → Ascending before xs → Ascending before (put same before v xs)
  unfolding put
  put-Ascending xs h = elim (Bool-cases (any (λ x. same x v) xs)) [
    | inl e ↦ rw e (replace-Ascending xs h)
    | inr e ↦ rw e (insert-Ascending xs e h)
  ]

-- A value that stands after all others is saved at the end.
module _ {A : Type 0} (same before : A → A → Bool) (v : A) where
  abbrev pub IsEarlier : A → Type 0
  IsEarlier x = (same x v ≡ false) × (before v x ≡ false)

  any-IsEarlier : (xs : List A) → All IsEarlier xs → any (λ x. same x v) xs ≡ false
  any-IsEarlier [] all = refl
  any-IsEarlier (x ∷ xs) all = rw all.0.0 (any-IsEarlier xs all.1)

  insert-last : (xs : List A) → All IsEarlier xs → insert same before v xs ≡ xs ++ (v ∷ [])
  unfolding insert
  insert-last [] all = refl
  insert-last (x ∷ xs) all = rw all.0.1 (ap (◌∷◌ x) (insert-last xs all.1))

  pub put-last : (xs : List A) → All IsEarlier xs → put same before v xs ≡ xs ++ (v ∷ [])
  unfolding put
  put-last xs all = rw (any-IsEarlier xs all) (insert-last xs all)
