-- ===== src/Ledger/Settled.antt =====
-- The whole loop of `withdraw_unbonded` of contracts/hub/src/execute.rs, against the payout.
use joe_liquid_staking.Prelude.{
  ℕ, ◌+◌, ◌<◌, ◌≡◌, refl, sym, ap, ◌∙◌, String, false, ◌&&◌, Option, none, some, List, [], ◌∷◌, ok,
  arith, find, any, ◌==◌, str_eq, eq_refl, if◌then◌else◌, Bool-cases, inl, inr, All, u128_mod,
}
use mathlib.Core.Path.{subst}
use joe_liquid_staking.Types.{Cosmwasm, IsCosmwasm, PendingBatch, Batch, UnbondRequest}
use joe_liquid_staking.Store.Laws.{count}
use joe_liquid_staking.State.{find_batch, find_request, requests_of}
use joe_liquid_staking.Math.Reconcile.{unclaimed}
use joe_liquid_staking.Execute.Withdraw.{Claims, claim_all}
use joe_liquid_staking.Ledger.{IsBalanced}
use joe_liquid_staking.Ledger.Withdraw.{Stored, Apart, Stored-after, claim_request-Kept}
use joe_liquid_staking.Ledger.Payout.{is_claimable, payout, paid_batch}
use joe_liquid_staking.Ledger.Settle.{Turned, claim_request_total}

-- What the loop over some requests of a user does.
pub record Settled (user : String) (time : ℕ) (rs : List UnbondRequest) (c c' : Claims)
    : Type 0 where
  pub refund : c'.refund ≡ c.refund + payout time c.batches rs
  pub batch :
      (id : ℕ)
      → find_batch id c'.batches
        ≡ paid_batch time (find_batch id c.batches) (find (λ r. r.id == id) rs)
  pub request :
      (id : ℕ)
      → find_request id user c'.requests ≡ (
          if is_claimable time (find_batch id c.batches) && any (λ r. r.id == id) rs
          then none
          else find_request id user c.requests)
  pub others :
      (u : String) → str_eq u user ≡ false → requests_of u c'.requests ≡ requests_of u c.requests

-- The payout reads only the batches of its requests.
pub payout-eq :
    (time : ℕ) (bs bs' : List Batch) (rs : List UnbondRequest)
    → All (λ (r : UnbondRequest). find_batch r.id bs' ≡ find_batch r.id bs) rs
    → payout time bs' rs ≡ payout time bs rs
payout-eq time bs bs' [] h = refl
payout-eq time bs bs' (r ∷ rs) h = rw h.0 (rw (payout-eq time bs bs' rs h.1) refl)

-- What holds of every other id holds of requests that are apart from one.
away :
    (P : ℕ → Type 0) (id : ℕ) (rs : List UnbondRequest)
    → count (λ (r : UnbondRequest). r.id == id) rs ≡ 0
    → ((other : ℕ) → (id == other) ≡ false → P other)
    → All (λ (r : UnbondRequest). P r.id) rs
away P id [] h p = tt
away P id (r ∷ rs) h p = (p r.id (ground (arith, h)), away P id rs (ground (arith, h)) p)

find_absent :
    (id : ℕ) (rs : List UnbondRequest)
    → count (λ (r : UnbondRequest). r.id == id) rs ≡ 0
    → find (λ (r : UnbondRequest). r.id == id) rs ≡ none
find_absent id [] h = refl
find_absent id (r ∷ rs) h = ground (arith, find_absent id rs)

any_absent :
    (id : ℕ) (rs : List UnbondRequest)
    → count (λ (r : UnbondRequest). r.id == id) rs ≡ 0
    → any (λ (r : UnbondRequest). r.id == id) rs ≡ false
any_absent id [] h = refl
any_absent id (r ∷ rs) h = ground (arith, any_absent id rs)

paid_batch-none : (time : ℕ) (b : Option Batch) → paid_batch time b none ≡ b
paid_batch-none time none = refl
paid_batch-none time (some b) = refl

module _ (user : String) (time : ℕ) (r : UnbondRequest) (rs : List UnbondRequest) (c c1 c' : Claims)
    (once : count (λ (x : UnbondRequest). x.id == r.id) rs ≡ 0) (turned : Turned user time r c c1)
    (settled : Settled user time rs c1 c') where
  refund_cons : c'.refund ≡ c.refund + payout time c.batches (r ∷ rs)
  refund_cons =
      let same = payout-eq time c.batches c1.batches rs (
        away (λ id. find_batch id c1.batches ≡ find_batch id c.batches) r.id rs once
          (λ id ne. turned.batch id ∙ rw ne refl)) in
      omega (arith, settled.refund, turned.refund, same)

  batch_cons :
      (id : ℕ)
      → find_batch id c'.batches
        ≡ paid_batch time (find_batch id c.batches) (find (λ r. r.id == id) (r ∷ rs))
  batch_cons id = elim (Bool-cases (r.id == id)) [
    | inl e ↦
        let same : r.id ≡ id = ground arith in
        let gone = find_absent r.id rs once in
        rw e (
          settled.batch id
          ∙ ap (paid_batch time (find_batch id c1.batches))
              (subst (λ i. find (λ (x : UnbondRequest). x.id == i) rs ≡ none) same gone)
          ∙ paid_batch-none time (find_batch id c1.batches)
          ∙ turned.batch id
          ∙ rw e (rw same refl))
    | inr e ↦ rw e (
        settled.batch id
        ∙ ap (λ b. paid_batch time b (find (λ r. r.id == id) rs)) (turned.batch id ∙ rw e refl))
  ]

  request_cons :
      (id : ℕ)
      → find_request id user c'.requests ≡ (
          if is_claimable time (find_batch id c.batches) && any (λ r. r.id == id) (r ∷ rs)
          then none
          else find_request id user c.requests)
  request_cons id = elim (Bool-cases (r.id == id)) [
    | inl e ↦
        let same : r.id ≡ id = ground arith in
        let gone = any_absent r.id rs once in
        let absent : any (λ (x : UnbondRequest). x.id == id) rs ≡ false = rw (← same) gone in
        ground (
          arith,
          settled.request id,
          turned.request id user,
          absent,
          eq_refl user,
          ap (λ i. find_batch i c.batches) same,
        )
    | inr e ↦
        let here : find_batch id c1.batches ≡ find_batch id c.batches =
          turned.batch id ∙ rw e refl in
        ground (arith, settled.request id, turned.request id user, here)
  ]

module _ {cw : Cosmwasm} (law : IsCosmwasm cw) (user : String) (time : ℕ)
    (pending : PendingBatch) where
  pub claim_all_total :
      (rs : List UnbondRequest) (c : Claims)
      → IsBalanced pending c.batches c.requests
      → Stored user c rs
      → Apart rs
      → All (λ (r : UnbondRequest). 0 < r.shares) rs
      → unclaimed c.batches + c.refund < u128_mod
      → (c' : Claims) × (claim_all cw user time rs c ≡ ok c') × Settled user time rs c c'
  unfolding claim_all
  claim_all_total [] c books stored apart positive fits = (
    c,
    refl,
    record {
      refund = omega arith;
      batch = λ id. sym (paid_batch-none time (find_batch id c.batches));
      request = λ id. ground arith;
      others = λ u ne. refl;
    },
  )
  claim_all_total (r ∷ rs) c books stored apart positive fits =
      let once : count (λ (x : UnbondRequest). x.id == r.id) rs ≡ 0 = ground (arith, apart r.id) in
      let (c1, e1, turned) =
        claim_request_total law user time pending r c books stored.0 positive.0 fits in
      let (kept, others) = claim_request-Kept law user time pending r c c1 books stored.0 e1 in
      let (c', e, settled) =
        claim_all_total rs c1 kept.books (Stored-after user r.id c c1 rs others once stored.1)
          (λ id. omega (arith, apart id)) positive.1 (omega (arith, kept.paid)) in
      (
        c',
        rw e1 e,
        record {
          refund = refund_cons user time r rs c c1 c' once turned settled;
          batch = batch_cons user time r rs c c1 c' once turned settled;
          request = request_cons user time r rs c c1 c' once turned settled;
          others = λ u ne. settled.others u ne ∙ turned.others u ne;
        },
      )
