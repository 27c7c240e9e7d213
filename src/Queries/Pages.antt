-- ===== src/Queries/Pages.antt =====
-- A client that walks the pages of a range query of contracts/hub/src/queries.rs gets every value.
use joe_liquid_staking.Prelude.{
  ℕ, zero, suc, ◌≤◌, ◌<◌, ◌≡◌, refl, sym, ap, ◌∙◌, Bool, true, false, Option, some, none, List, [],
  ◌∷◌, ◌++◌, map, Result, ok, ◌>>=◌, retain, take, drop, take-append-drop, length, All, arith,
  Bool-cases, Option-cases, inl, inr,
}
use mathlib.Core.Path.{subst}
use mathlib.Core.Option.{map as map_option}
use joe_liquid_staking.Store.Order.{Ascending, retain-Ascending}
use joe_liquid_staking.Store.Laws.{All-retain_weak}

-- The last value of a list.
abbrev pub last_of {ℓ} : {A : Type ℓ} → List A → Option A
last_of [] = none
last_of (x ∷ []) = some x
last_of (x ∷ y ∷ xs) = last_of (y ∷ xs)

-- The pages up to this one, given by its last item, and the pages after it; an empty page ends the walk.
unfoldable with_rest : {B : Type 0} → (B → Result (List B)) → List B → Option B → Result (List B)
with_rest rest page none = ok []
with_rest rest page (some b) = do later ← rest b; ok (page ++ later)

-- Page after page, each from the key of the last item of the page before; at most `fuel` pages.
unfoldable pub walk :
    {K B : Type 0} → (Option K → Result (List B)) → (B → K) → ℕ → Option K → Result (List B)
unfolding with_rest
walk ask key zero start = ok []
walk ask key (suc fuel) start = do
  page ← ask start
  with_rest (λ b. walk ask key fuel (some (key b))) page (last_of page)

answered :
    {V W : Type 0} {r : Result V} {v : V} (f : V → Result W) {out : Result W}
    → r ≡ ok v
    → f v ≡ out
    → (r >>= f) ≡ out
answered f e h = rw e h

take-nil : {A : Type 0} (n : ℕ) → take {A = A} n [] ≡ []
take-nil zero = refl
take-nil (suc n) = refl

drop-nil : {A : Type 0} (n : ℕ) → drop {A = A} n [] ≡ []
drop-nil zero = refl
drop-nil (suc n) = refl

last_of-map :
    {A B : Type 0} (f : A → B) (xs : List A) → last_of (map f xs) ≡ map_option f (last_of xs)
last_of-map f [] = refl
last_of-map f (x ∷ []) = refl
last_of-map f (x ∷ y ∷ xs) = last_of-map f (y ∷ xs)

map-append : {A B : Type 0} (f : A → B) (xs ys : List A) → map f (xs ++ ys) ≡ map f xs ++ map f ys
map-append f [] ys = refl
map-append f (x ∷ xs) ys = ap (◌∷◌ (f x)) (map-append f xs ys)

-- A page that is not empty shortens what is left.
shorter : {A : Type 0} (n : ℕ) (xs : List A) → length (drop n xs) ≤ length xs
shorter zero xs = omega arith
shorter (suc n) [] = omega arith
shorter (suc n) (x ∷ xs) = omega (arith, shorter n xs)

some_last : {A : Type 0} (n : ℕ) (x : A) (xs : List A) → last_of (x ∷ take n xs) ≡ none → ⊥
some_last zero x xs h = cc h
some_last (suc n) x [] h = cc h
some_last (suc n) x (y ∷ xs) h = some_last n y xs h

length-drop :
    {A : Type 0} (n : ℕ) (xs : List A) (a : A)
    → last_of (take n xs) ≡ some a
    → suc (length (drop n xs)) ≤ length xs
length-drop zero xs a h = absurd (cc h)
length-drop (suc n) [] a h = absurd (cc h)
length-drop (suc n) (x ∷ xs) a h = omega (arith, shorter n xs)

-- An empty page of positive size is that of an empty list.
none_left : {A : Type 0} (n : ℕ) (xs : List A) → 1 ≤ n → last_of (take n xs) ≡ none → xs ≡ []
none_left zero xs h e = absurd (omega arith)
none_left (suc n) [] h e = refl
none_left (suc n) (x ∷ xs) h e = absurd (some_last n x xs e)

module _ {K A : Type 0} (key : A → K) (lt : K → K → Bool) (irrefl : (k : K) → lt k k ≡ false)
    (trans : (k l m : K) → lt k l ≡ true → lt l m ≡ true → lt k m ≡ true) where
  abbrev before : A → A → Bool
  before a b = lt (key a) (key b)

  abbrev after : K → A → Bool
  after k a = lt k (key a)

  All-retain : (p : A → Bool) (xs : List A) → All (λ x. p x ≡ true) (retain p xs)
  All-retain p [] = tt
  All-retain p (x ∷ xs) = elim (Bool-cases (p x)) [
    | inl e ↦ rw e (e, All-retain p xs)
    | inr e ↦ rw e (All-retain p xs)
  ]

  retain-All : (a : A) (xs : List A) → All (λ y. before a y ≡ true) xs → retain (before a) xs ≡ xs
  retain-All a [] h = refl
  retain-All a (x ∷ xs) h = rw (h.0, retain-All a xs h.1) refl

  asymmetric : (x a : A) → before x a ≡ true → before a x ≡ false
  asymmetric x a h = ground (arith, trans (key x) (key a) (key x), irrefl (key x))

  All-last_of :
      (P : A → Type 0) (n : ℕ) (xs : List A) (a : A) → All P xs → last_of (take n xs) ≡ some a → P a
  All-last_of P zero xs a h e = absurd (cc e)
  All-last_of P (suc n) [] a h e = absurd (cc e)
  All-last_of P (suc n) (x ∷ []) a h e = subst P (ground (arith, e, take-nil {A = A} n)) h.0
  All-last_of P (suc zero) (x ∷ y ∷ xs) a h e = subst P (ground (arith, e)) h.0
  All-last_of P (suc (suc n)) (x ∷ y ∷ xs) a h e = All-last_of P (suc n) (y ∷ xs) a h.1 e

  -- What comes after the last value of a page is what the page left.
  retain-last_of :
      (n : ℕ) (xs : List A) (a : A)
      → Ascending before xs
      → last_of (take n xs) ≡ some a
      → retain (before a) xs ≡ drop n xs
  retain-last_of zero xs a h e = cc
  retain-last_of (suc n) [] a h e = cc
  retain-last_of (suc n) (x ∷ []) a h e =
      let same : x ≡ a = ground (arith, e, take-nil {A = A} n) in
      rw (← same, irrefl (key x)) (sym (drop-nil n))
  retain-last_of (suc zero) (x ∷ y ∷ xs) a h e =
      let same : x ≡ a = ground (arith, e) in
      subst (λ z. retain (before z) (x ∷ y ∷ xs) ≡ y ∷ xs) same
        (rw (irrefl (key x)) (retain-All x (y ∷ xs) h.0))
  retain-last_of (suc (suc n)) (x ∷ y ∷ xs) a h e =
      let first = All-last_of (λ z. before x z ≡ true) (suc n) (y ∷ xs) a h.0 e in
      let rest = retain-last_of (suc n) (y ∷ xs) a h.1 e in
      let kept : before a x ≡ false = asymmetric x a first in rw kept rest

  retain_twice :
      (k : K) (a : A) (xs : List A)
      → lt k (key a) ≡ true
      → retain (before a) (retain (after k) xs) ≡ retain (before a) xs
  retain_twice k a [] h = refl
  retain_twice k a (x ∷ xs) h = ground (arith, trans k (key a) (key x), retain_twice k a xs)

  module _ {B : Type 0} (item : A → B) (key_of : B → K) (keys : (a : A) → key_of (item a) ≡ key a)
      (Good : K → Type 0) (xs : List A) (good : All (λ a. Good (key a)) xs)
      (order : Ascending before xs) (n : ℕ) (positive : 1 ≤ n) (ask : Option K → Result (List B))
      (first : ask none ≡ ok (map item (take n xs)))
      (next : (k : K) → Good k → ask (some k) ≡ ok (map item (take n (retain (after k) xs)))) where
    -- A step of the walk, when the answer and its last item are known.
    walk_step :
        (fuel : ℕ) (start : Option K) (ys : List A)
        → ask start ≡ ok (map item (take n ys))
        → length ys < suc fuel
        → ((a : A)
            → last_of (take n ys) ≡ some a
            → walk ask key_of fuel (some (key a)) ≡ ok (map item (drop n ys)))
        → walk ask key_of (suc fuel) start ≡ ok (map item ys)
    unfolding walk with_rest
    walk_step fuel start ys answer enough rest =
        let page = map item (take n ys) in
        let go = (λ (b : B). walk ask key_of fuel (some (key_of b))) in
        let last = last_of-map item (take n ys) in
        elim (Option-cases (last_of (take n ys))) [
          | inl e ↦
              let done = ap (with_rest go page) (last ∙ ap (map_option item) e) in
              answered _ answer (done ∙ rw (none_left n ys positive e) refl)
          | inr (a, e) ↦
              let more = ap (with_rest go page) (last ∙ ap (map_option item) e) in
              let joined = sym (map-append item (take n ys) (drop n ys)) in
              let whole = joined ∙ ap (map item) (take-append-drop n ys) in
              answered _ answer (more ∙ rw (keys a) (rw (rest a e) (ap ok whole)))
        ]

    page_after :
        (fuel : ℕ) (a : A) (ys : List A)
        → retain (before a) xs ≡ drop n ys
        → last_of (take n ys) ≡ some a
        → length ys < suc fuel
        → (length (retain (before a) xs) < fuel
            → walk ask key_of fuel (some (key a)) ≡ ok (map item (retain (before a) xs)))
        → walk ask key_of fuel (some (key a)) ≡ ok (map item (drop n ys))
    page_after fuel a ys left e enough rest =
        let fewer : length (retain (before a) xs) < fuel =
          rw left (omega (arith, length-drop n ys a e)) in
        rest fewer ∙ ap (λ zs. ok (map item zs)) left

    -- From a key of the map on, the walk gives what stands after the key.
    walk-after :
        (fuel : ℕ) (k : K)
        → Good k
        → length (retain (after k) xs) < fuel
        → walk ask key_of fuel (some k) ≡ ok (map item (retain (after k) xs))
    walk-after zero k g enough = absurd (omega arith)
    walk-after (suc fuel) k g enough =
        let ys = retain (after k) xs in
        walk_step fuel (some k) ys (next k g) enough (λ a e.
          let later = All-last_of (λ z. lt k (key z) ≡ true) n ys a (All-retain (after k) xs) e in
          let sorted = retain-Ascending before (after k) xs order in
          let left = sym (retain_twice k a xs later) ∙ retain-last_of n ys a sorted e in
          let stored =
            All-last_of (λ z. Good (key z)) n ys a (All-retain_weak _ (after k) xs good) e in
          page_after fuel a ys left e enough (walk-after fuel (key a) stored))

    -- The walk from the start gives the whole map.
    pub walk_all : (fuel : ℕ) → length xs < fuel → walk ask key_of fuel none ≡ ok (map item xs)
    walk_all zero enough = absurd (omega arith)
    walk_all (suc fuel) enough = walk_step fuel none xs first enough (λ a e.
        let left = retain-last_of n xs a order e in
        let stored = All-last_of (λ z. Good (key z)) n xs a good e in
        page_after fuel a xs left e enough (walk-after fuel (key a) stored))
