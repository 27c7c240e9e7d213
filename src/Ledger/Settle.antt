-- ===== src/Ledger/Settle.antt =====
-- One turn of the loop of `withdraw_unbonded` of contracts/hub/src/execute.rs, against what the
-- request is worth.
use joe_liquid_staking.Prelude.{
  ℕ, ◌+◌, ◌≤◌, ◌<◌, ◌≡◌, refl, sym, ap, String, true, false, ◌&&◌, Option, none, some, List, ◌∷◌,
  ok, arith, ◌==◌, str_eq, if◌then◌else◌, Bool-cases, Option-cases, inl, inr, sub_word_eq, fit_eq,
  panic, u128_mod,
}
use native.Mathlib.Nat.{div-le_of_le-mul, mul-le-mul_left, mul_comm}
use joe_liquid_staking.Types.{Cosmwasm, IsCosmwasm, PendingBatch, Batch, UnbondRequest}
use joe_liquid_staking.State.{find_batch, find_request, remove_request, requests_of}
use joe_liquid_staking.Math.Reconcile.{unclaimed}
use joe_liquid_staking.Math.Ratio.{multiply_ratio_eq}
use joe_liquid_staking.Execute.Withdraw.{Claims, settle, claim, claim_request}
use joe_liquid_staking.Ledger.{IsBalanced}
use joe_liquid_staking.Ledger.Maps.{
  find-save_batch, find-remove_batch_self, find-remove_batch_ne, find_batch-id,
}
use joe_liquid_staking.Ledger.Claims.{claimed}
use joe_liquid_staking.Ledger.Payout.{
  is_due, is_claimable, part_of, worth, paid_batch, find-remove_request, requests_of-remove_request,
  request-le, batch-le,
}

pub part_of-le :
    (b : Batch) (r : UnbondRequest) → r.shares ≤ b.total_shares → part_of b r ≤ b.amount_unclaimed
part_of-le b r within =
    div-le_of_le-mul b.total_shares
      (rw (mul_comm b.total_shares b.amount_unclaimed) (mul-le-mul_left b.amount_unclaimed within))

-- The batch under an id after the batch of a request is settled.
find-settled :
    (id other : ℕ) (b : Batch) (bs : List Batch)
    → b.id ≡ id
    → find_batch other (settle id b bs) ≡ (
        if id == other then (if b.total_shares == 0 then none else some b) else find_batch other bs)
unfolding settle
find-settled id other b bs same = ground (
  arith,
  find-save_batch other b bs,
  find-remove_batch_self id bs,
  find-remove_batch_ne id other bs,
)

pub worth_early :
    (time : ℕ) (b : Option Batch) (r : UnbondRequest)
    → is_claimable time b ≡ false
    → worth time b r ≡ 0
worth_early time none r h = refl
worth_early time (some b) r h = rw h refl

pub paid_batch_early :
    (time : ℕ) (b : Option Batch) (r : UnbondRequest)
    → is_claimable time b ≡ false
    → paid_batch time b (some r) ≡ b
paid_batch_early time none r h = refl
paid_batch_early time (some b) r h = rw h refl

find_batch_same :
    (id other : ℕ) (bs : List Batch)
    → find_batch other bs ≡ (if id == other then find_batch id bs else find_batch other bs)
find_batch_same id other bs = elim (Bool-cases (id == other)) [
  | inl e ↦ let same : id ≡ other = ground arith in rw e (ap (λ i. find_batch i bs) (sym same))
  | inr e ↦ rw e refl
]

-- What one turn of the loop does with a request.
pub record Turned (user : String) (time : ℕ) (r : UnbondRequest) (c c' : Claims) : Type 0 where
  pub refund : c'.refund ≡ c.refund + worth time (find_batch r.id c.batches) r
  pub batch :
      (id : ℕ)
      → find_batch id c'.batches ≡ (
          if r.id == id
          then paid_batch time (find_batch r.id c.batches) (some r)
          else find_batch id c.batches)
  pub request :
      (id : ℕ) (u : String)
      → find_request id u c'.requests ≡ (
          if (r.id == id && str_eq u user) && is_claimable time (find_batch r.id c.batches)
          then none
          else find_request id u c.requests)
  pub others :
      (u : String) → str_eq u user ≡ false → requests_of u c'.requests ≡ requests_of u c.requests

module _ {cw : Cosmwasm} (law : IsCosmwasm cw) (user : String) (time : ℕ) where
  -- A claim of a request with shares succeeds where its batch has them and the sum fits.
  claim_eq :
      (b : Batch) (r : UnbondRequest) (c : Claims)
      → 0 < r.shares
      → r.shares ≤ b.total_shares
      → c.refund + b.amount_unclaimed < u128_mod
      → claim cw user b r c
        ≡ ok (record {
          batches = settle r.id (claimed b r.shares (part_of b r)) c.batches;
          requests = remove_request r.id user c.requests;
          refund = c.refund + part_of b r;
          ids = r.id ∷ c.ids;
        })
  unfolding claim
  claim_eq b r c positive within fits =
      let le = part_of-le b r within in
      rw
        (multiply_ratio_eq law b.amount_unclaimed r.shares b.total_shares (omega arith)
          (omega (arith, le)))
        (rw (fit_eq u128_mod panic (c.refund + part_of b r) (omega (arith, le))) (
          rw (sub_word_eq b.total_shares r.shares within)
            (rw (sub_word_eq b.amount_unclaimed (part_of b r) le) refl)))

  claim-Turned :
      (b : Batch) (r : UnbondRequest) (c : Claims)
      → find_batch r.id c.batches ≡ some b
      → is_due time b ≡ true
      → Turned user time r c (record {
        batches = settle r.id (claimed b r.shares (part_of b r)) c.batches;
        requests = remove_request r.id user c.requests;
        refund = c.refund + part_of b r;
        ids = r.id ∷ c.ids;
      })
  claim-Turned b r c e due = record {
    refund = rw e (rw due refl);
    batch = λ id. rw e (
        rw due (
          find-settled r.id id (claimed b r.shares (part_of b r)) c.batches
            (find_batch-id r.id c.batches b e)));
    request = λ id u. rw e (rw due (ground (arith, find-remove_request r.id id user u c.requests)));
    others = λ u ne. requests_of-remove_request r.id user u c.requests ne;
  }

  stays-Turned :
      (r : UnbondRequest) (c : Claims)
      → is_claimable time (find_batch r.id c.batches) ≡ false
      → Turned user time r c c
  stays-Turned r c h = record {
    refund = omega (arith, worth_early time (find_batch r.id c.batches) r h);
    batch = λ id.
        rw (paid_batch_early time (find_batch r.id c.batches) r h)
          (find_batch_same r.id id c.batches);
    request = λ id u. ground (arith, h);
    others = λ u ne. refl;
  }

  pub claim_request_total :
      (pending : PendingBatch) (r : UnbondRequest) (c : Claims)
      → IsBalanced pending c.batches c.requests
      → find_request r.id user c.requests ≡ some r
      → 0 < r.shares
      → unclaimed c.batches + c.refund < u128_mod
      → (c' : Claims) × (claim_request cw user time r c ≡ ok c') × Turned user time r c c'
  unfolding claim_request
  claim_request_total pending r c books stored positive fits =
      elim (Option-cases (find_batch r.id c.batches)) [
        | inl e ↦ (c, rw (e, claim_request) refl, stays-Turned r c (rw e refl))
        | inr (b, e) ↦ elim (Bool-cases (is_due time b)) [
          | inl due ↦
              let within : r.shares ≤ b.total_shares =
                rw (← books.shared r.id b e)
                  (request-le r.id user c.requests r (books.one_request r.id user) stored) in
              let le = batch-le r.id c.batches b (books.one_batch r.id) e in
              (
                _,
                rw (e, claim_request) (rw due (claim_eq b r c positive within (omega (arith, le)))),
                claim-Turned b r c e due,
              )
          | inr early ↦ (c, rw (e, claim_request) (rw early refl), stays-Turned r c (rw e early))
        ]
      ]
