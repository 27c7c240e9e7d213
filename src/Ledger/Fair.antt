-- ===== src/Ledger/Fair.antt =====
-- One user's `withdraw_unbonded` of contracts/hub/src/execute.rs and what the other users are owed.
use joe_liquid_staking.Prelude.{
  ℕ, ◌+◌, ◌-◌, ◌*◌, ◌/◌, ◌≤◌, ◌<◌, ◌≡◌, refl, String, true, false, Bool, Option, none, some, List,
  [], ◌∷◌, ok, arith, ◌==◌, str_eq, if◌then◌else◌, Bool-cases, inl, inr, All, u128_mod,
}
use joe_liquid_staking.Types.{
  Cosmwasm, IsCosmwasm, Env, PendingBatch, Batch, UnbondRequest, Response,
}
use joe_liquid_staking.Store.Laws.{All-map}
use joe_liquid_staking.State.{State, find_batch, find_request, requests_of}
use joe_liquid_staking.Ledger.{IsBalanced, BooksOf, Balanced}
use joe_liquid_staking.Ledger.Maps.{remove_request-one}
use mathlib.Core.Path.{subst}
use joe_liquid_staking.Math.Reconcile.{unclaimed}
use joe_liquid_staking.Execute.Withdraw.{withdraw_unbonded}
use joe_liquid_staking.Ledger.Withdraw.{start, start-Stored}
use joe_liquid_staking.Ledger.Exact.{owed, PaidExactly, withdraw-PaidExactly}
use joe_liquid_staking.Ledger.Payout.{is_due, part_of, worth, payout, paid_batch, requests-le}
use native.Mathlib.Nat.{
  div-le_of_le-mul, le_of_mul-le-mul_right, div-mul-le_self, le-div_iff_mul-le, mul-le-mul_left,
  mul_comm,
}

cross :
    (k V p D r q : ℕ)
    → 0 < D
    → k * (D + r) ≤ (V + p) * q
    → p * (D + r) ≤ (V + p) * r
    → k * D ≤ V * q
cross k V p D r q positive below h =
    let first = mul-le-mul_left D below in
    let kept : (V + p) * D ≤ V * (D + r) = omega (arith, h) in
    let second = mul-le-mul_left q kept in
    le_of_mul-le-mul_right {k = D + r} (omega (arith, first, second)) (omega arith)

-- When a part of a heap leaves with its share of the amount, rounded down, no other part is worth
-- less.
rest_worth :
    (amount heap leaving part : ℕ)
    → leaving < heap
    → amount * part / heap ≤ (amount - amount * leaving / heap) * part / (heap - leaving)
rest_worth amount heap leaving part fits =
    let rest : ℕ = heap - leaving in
    let paid : ℕ = amount * leaving / heap in
    let k : ℕ = amount * part / heap in
    let le : paid ≤ amount =
      div-le_of_le-mul heap (rw (mul_comm heap amount) (mul-le-mul_left amount (omega arith))) in
    let whole : rest + leaving ≡ heap = omega arith in
    let sum : amount - paid + paid ≡ amount = omega (arith, le) in
    (le-div_iff_mul-le {k = rest} {x = k} {y = (amount - paid) * part} (omega arith)).1 (
      cross k (amount - paid) paid rest leaving part (omega arith)
        (rw (whole, sum) (div-mul-le_self (amount * part) heap))
        (rw (whole, sum) (div-mul-le_self (amount * leaving) heap)))

if-le : (test : Bool) {x y : ℕ} → x ≤ y → (if test then x else 0) ≤ (if test then y else 0)
if-le false h = omega arith
if-le true h = h

worth_kept :
    (time later : ℕ) (b : Batch) (r q : UnbondRequest)
    → q.shares + r.shares ≤ b.total_shares
    → worth later (some b) q ≤ worth later (paid_batch time (some b) (some r)) q
worth_kept time later b r q within = elim (Bool-cases (is_due time b)) [
  | inl due ↦ rw due (elim (Bool-cases ((b.total_shares - r.shares) == 0)) [
    | inl e ↦
        let nothing : q.shares ≡ 0 = ground arith in
        let none_left : part_of b q ≤ 0 =
          div-le_of_le-mul b.total_shares (rw (nothing) (omega arith)) in
        rw e (ground (arith, none_left))
    | inr e ↦
        let le = rest_worth b.amount_unclaimed b.total_shares r.shares q.shares (ground arith) in
        rw e (if-le (is_due later b) le)
  ])
  | inr early ↦ rw early (omega arith)
]

worth_after :
    (time later : ℕ) (b : Option Batch) (request : Option UnbondRequest) (q : UnbondRequest)
    → ((x : Batch) (r : UnbondRequest)
        → b ≡ some x
        → request ≡ some r
        → q.shares + r.shares ≤ x.total_shares)
    → worth later b q ≤ worth later (paid_batch time b request) q
worth_after time later none request q h = omega arith
worth_after time later (some b) none q h = omega arith
worth_after time later (some b) (some r) q h = worth_kept time later b r q (h b r refl refl)

payout-le :
    (later : ℕ) (bs bs' : List Batch) (rs : List UnbondRequest)
    → All
        (λ (q : UnbondRequest).
          worth later (find_batch q.id bs) q ≤ worth later (find_batch q.id bs') q)
        rs
    → payout later bs rs ≤ payout later bs' rs
payout-le later bs bs' [] h = omega arith
payout-le later bs bs' (q ∷ rs) h = omega (arith, h.0, payout-le later bs bs' rs h.1)

module _ {cw : Cosmwasm} (law : IsCosmwasm cw) (env : Env) (user receiver other : String)
    (s : State) (pending : PendingBatch) where
  -- No request of another user loses by a withdrawal.
  request_kept :
      (denom : String) (later : ℕ) (out : State × Response) (q : UnbondRequest)
      → IsBalanced pending s.previous_batches s.unbond_requests
      → PaidExactly env.time user receiver denom s out
      → str_eq other user ≡ false
      → find_request q.id other s.unbond_requests ≡ some q
      → worth later (find_batch q.id s.previous_batches) q
        ≤ worth later (find_batch q.id out.0.previous_batches) q
  request_kept denom later out q books exact apart found = rw (exact.batches q.id) (
      worth_after env.time later (find_batch q.id s.previous_batches)
        (find_request q.id user s.unbond_requests) q
        λ x r eb er. rw (← books.shared q.id x eb) (
          requests-le q.id user other s.unbond_requests r q (books.one_request q.id user)
            (remove_request-one q.id user s.unbond_requests q.id other
              (books.one_request q.id other))
            apart er found))

  -- A user's withdrawal never lowers what another user is owed: for balanced books in which the
  -- user's requests have shares and the unclaimed amounts fit in 128 bits, after a withdrawal that
  -- succeeds each other user is owed, at any time, at least what they were owed before it.
  pub withdraw_keeps_others :
      (later : ℕ) (out : State × Response)
      → s.pending_batch ≡ some pending
      → Balanced s
      → All (λ (r : UnbondRequest). 0 < r.shares) (requests_of user s.unbond_requests)
      → unclaimed s.previous_batches < u128_mod
      → str_eq other user ≡ false
      → withdraw_unbonded cw env user receiver s ≡ ok out
      → owed later other s ≤ owed later other out.0
  unfolding start
  withdraw_keeps_others later out e books positive fits apart h =
      let (denom, exact, others) =
        withdraw-PaidExactly law env user receiver s pending out e books positive fits h in
      let books = subst (λ o. BooksOf o s.previous_batches s.unbond_requests) e books in
      rw (others other apart) (
        payout-le later s.previous_batches out.0.previous_batches
          (requests_of other s.unbond_requests)
          (All-map (λ q found. request_kept denom later out q books exact apart found)
            (requests_of other s.unbond_requests)
            (start-Stored law env other receiver s books.one_request)))
