-- ===== src/Queries/Walks.antt =====
-- The clients of the range queries of contracts/hub/src/queries.rs, page after page.
use joe_liquid_staking.Prelude.{
  ℕ, ◌≤◌, ◌<◌, ◌≡◌, refl, String, true, Option, none, List, [], ◌∷◌, map, ap, sym, ◌∙◌, Result, ok,
  length, All, take, arith, ltb, str_lt, str_lt_irrefl, str_lt_trans, ◌==◌, Bool-cases, inl, inr,
}
use joe_liquid_staking.Types.{
  Cosmwasm, Batch, UnbondRequest, UnbondRequestsByBatchResponseItem, by_batch_item,
  ValidatorMiningPower,
}
use joe_liquid_staking.Store.Order.{Ascending}
use joe_liquid_staking.Store.Laws.{All-retain_weak}
use joe_liquid_staking.State.{State}
use joe_liquid_staking.State.Order.{request_before}
use joe_liquid_staking.Contract.Invariant.{IsSound}
use joe_liquid_staking.Queries.{
  limit_of, range_after, previous_batches, in_batch, power_item, validator_mining_powers,
  unbond_requests_by_batch, start_address,
}
use joe_liquid_staking.Queries.Pages.{walk, walk_all}

-- Every client that takes the key of the last item as the next bound.
abbrev pub walk_batches : Option ℕ → ℕ → State → Result (List Batch)
walk_batches limit pages s = walk (λ start. previous_batches start limit s) (λ b. b.id) pages none

abbrev pub walk_powers : Option ℕ → ℕ → State → Result (List ValidatorMiningPower)
walk_powers limit pages s =
    walk (λ start. validator_mining_powers start limit s) (λ p. p.address) pages none

abbrev pub walk_requests :
    Cosmwasm → ℕ → Option ℕ → ℕ → State → Result (List UnbondRequestsByBatchResponseItem)
walk_requests cw id limit pages s =
    walk (λ start. unbond_requests_by_batch cw id start limit s) (λ r. r.user) pages none

map_same : {A : Type 0} (xs : List A) → map (λ x. x) xs ≡ xs
map_same [] = refl
map_same (x ∷ xs) = ap (◌∷◌ x) (map_same xs)

-- Within a batch the order of the keys is that of the users.
All-in_batch :
    (id : ℕ) (r : UnbondRequest) (rs : List UnbondRequest)
    → (r.id == id) ≡ true
    → All (λ q. request_before r q ≡ true) rs
    → All (λ q. str_lt r.user q.user ≡ true) (in_batch id rs)
unfolding in_batch
All-in_batch id r [] e h = tt
All-in_batch id r (q ∷ rs) e h = elim (Bool-cases (q.id == id)) [
  | inl f ↦ rw f (ground arith, All-in_batch id r rs e h.1)
  | inr f ↦ rw f (All-in_batch id r rs e h.1)
]

in_batch-Ascending :
    (id : ℕ) (rs : List UnbondRequest)
    → Ascending request_before rs
    → Ascending (λ r q. str_lt r.user q.user) (in_batch id rs)
unfolding in_batch
in_batch-Ascending id [] h = tt
in_batch-Ascending id (r ∷ rs) h = elim (Bool-cases (r.id == id)) [
  | inl e ↦ rw e (All-in_batch id r rs e h.0, in_batch-Ascending id rs h.1)
  | inr e ↦ rw e (in_batch-Ascending id rs h.1)
]

no_hypothesis : {A : Type 0} (xs : List A) → All (λ x. Unit {0}) xs
no_hypothesis [] = tt
no_hypothesis (x ∷ xs) = (tt, no_hypothesis xs)

module _ (s : State) (limit : Option ℕ) (pages : ℕ) (sound : IsSound s)
    (positive : 1 ≤ limit_of limit) where
  batches_cover :
      length s.previous_batches < pages → walk_batches limit pages s ≡ ok s.previous_batches
  unfolding previous_batches range_after
  batches_cover enough =
      let all = s.previous_batches in
      let same = λ (bs : List Batch). ap ok (sym (map_same bs)) in
      walk_all (λ (b : Batch). b.id) ltb (λ k. ground arith) (λ k l m h g. ground arith)
        (λ (b : Batch). b) (λ (b : Batch). b.id) (λ b. refl) (λ k. Unit {0}) all (no_hypothesis all)
        sound.order.0 (limit_of limit) positive (λ start. previous_batches start limit s)
        (same (take (limit_of limit) all)) (λ k g. same _) pages enough
      ∙ ap ok (map_same all)

  powers_cover :
      length s.validator_mining_powers < pages
      → walk_powers limit pages s ≡ ok (map power_item s.validator_mining_powers)
  unfolding validator_mining_powers range_after power_item
  powers_cover enough =
      let all = s.validator_mining_powers in
      walk_all (λ (p : String × ℕ). p.0) str_lt str_lt_irrefl str_lt_trans power_item
        (λ (p : ValidatorMiningPower). p.address) (λ p. refl) (λ k. Unit {0}) all
        (no_hypothesis all) sound.powers_order (limit_of limit) positive
        (λ start. validator_mining_powers start limit s) refl (λ k g. refl) pages enough

  requests_cover :
      (cw : Cosmwasm) (id : ℕ)
      → All (λ r. cw.addr_validate r.user ≡ ok r.user) s.unbond_requests
      → length (in_batch id s.unbond_requests) < pages
      → walk_requests cw id limit pages s ≡ ok (map by_batch_item (in_batch id s.unbond_requests))
  unfolding unbond_requests_by_batch range_after in_batch start_address by_batch_item
  requests_cover cw id valid enough =
      let all = in_batch id s.unbond_requests in
      walk_all (λ (r : UnbondRequest). r.user) str_lt str_lt_irrefl str_lt_trans by_batch_item
        (λ (r : UnbondRequestsByBatchResponseItem). r.user) (λ r. refl)
        (λ u. cw.addr_validate u ≡ ok u) all
        (All-retain_weak _ (λ r. r.id == id) s.unbond_requests valid)
        (in_batch-Ascending id s.unbond_requests sound.order.1) (limit_of limit) positive
        (λ start. unbond_requests_by_batch cw id start limit s) refl (λ k g. rw g refl) pages enough

-- In a sound state whose stored users are all valid addresses, with a page of at least one item and
-- more pages than there are batches, mining powers, or requests of the batch asked for, the pages of
-- the batches are all batches, those of the mining powers are all powers, and those of the requests
-- of the batch are all its requests; each value once and in order.
pub walks_cover :
    (cw : Cosmwasm) (s : State) (limit : Option ℕ) (pages id : ℕ)
    → IsSound s
    → All (λ r. cw.addr_validate r.user ≡ ok r.user) s.unbond_requests
    → 1 ≤ limit_of limit
    → length s.previous_batches < pages
    → length s.validator_mining_powers < pages
    → length (in_batch id s.unbond_requests) < pages
    → (walk_batches limit pages s ≡ ok s.previous_batches)
      × (walk_powers limit pages s ≡ ok (map power_item s.validator_mining_powers))
      × (walk_requests cw id limit pages s ≡ ok (map by_batch_item (in_batch id s.unbond_requests)))
walks_cover cw s limit pages id sound valid positive b p r = (
  batches_cover s limit pages sound positive b,
  powers_cover s limit pages sound positive p,
  requests_cover s limit pages sound positive cw id valid r,
)
