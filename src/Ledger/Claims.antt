-- ===== src/Ledger/Claims.antt =====
-- One claim of `withdraw_unbonded`: it keeps the books, and what it refunds leaves the batch.
use joe_liquid_staking.Prelude.{
  ℕ, ◌+◌, ◌-◌, ◌*◌, ◌/◌, ◌≤◌, ◌<◌, ◌≡◌, ◌≢◌, ◌⊎◌, refl, ◌∙◌, String, some, none, List, ok, arith,
  ◌==◌, if◌then◌else◌, bind_ok, ok-injective, add128, sub_word, sub_word-eq-ok, fit-eq-ok, u128_mod,
  panic, Bool-cases, inl, inr,
}
use native.Mathlib.Nat.{mul-div_cancel}
use joe_liquid_staking.Types.{Cosmwasm, IsCosmwasm, PendingBatch, Batch, UnbondRequest}
use joe_liquid_staking.Store.Laws.{count}
use joe_liquid_staking.State.{find_batch, find_request, remove_request}
use joe_liquid_staking.Math.Ratio.{multiply_ratio-eq-ok}
use joe_liquid_staking.Math.Reconcile.{unclaimed}
use joe_liquid_staking.Execute.Withdraw.{Claims, settle, claim}
use joe_liquid_staking.Ledger.{IsBalanced, shares_in}
use joe_liquid_staking.Ledger.Maps.{
  find-save_batch, find-remove_batch_self, find-remove_batch_ne, save_batch-total,
  remove_batch-total, save_batch-one, remove_batch-one, remove_request-one, remove_request-shares,
  find-remove_request_ne, find_batch-id,
}

module _ (id : ℕ) (b : Batch) (same : b.id ≡ id) (bs : List Batch) where
  find-settle :
      (other : ℕ) (c : Batch)
      → find_batch other (settle id b bs) ≡ some c
      → ((id ≡ other) × (c ≡ b)) ⊎ ((id ≢ other) × (find_batch other bs ≡ some c))
  unfolding settle
  find-settle other c h = elim (Bool-cases (id == other)) [
    | inl e ↦
        inl (
          ground arith,
          ground (arith, find-save_batch other b bs, find-remove_batch_self other bs),
        )
    | inr e ↦
        inr (
          ground arith,
          ground (arith, find-save_batch other b bs, find-remove_batch_ne id other bs),
        )
  ]

  settle-fresh :
      (other : ℕ)
      → id ≢ other
      → find_batch other bs ≡ none
      → find_batch other (settle id b bs) ≡ none
  unfolding settle
  settle-fresh other ne h =
      ground (arith, find-save_batch other b bs, find-remove_batch_ne id other bs)

  settle-one :
      (other : ℕ)
      → count (λ x. x.id == other) bs ≤ 1
      → count (λ x. x.id == other) (settle id b bs) ≤ 1
  unfolding settle
  settle-one other one =
      ground (arith, save_batch-one b bs other one, remove_batch-one id bs other one)

  settle-unclaimed :
      (old : Batch)
      → find_batch id bs ≡ some old
      → count (λ x. x.id == id) bs ≤ 1
      → (b.total_shares ≡ 0 → b.amount_unclaimed ≡ 0)
      → unclaimed (settle id b bs) + old.amount_unclaimed ≡ unclaimed bs + b.amount_unclaimed
  unfolding settle
  settle-unclaimed old h one dust = elim (Bool-cases (b.total_shares == 0)) [
    | inl e ↦ ground (arith, remove_batch-total (λ x. x.amount_unclaimed) id bs one, dust)
    | inr e ↦ ground (arith, save_batch-total (λ x. x.amount_unclaimed) b bs)
  ]

-- The batch after a claim of `shares` that refunds `refund`.
abbrev pub claimed : Batch → ℕ → ℕ → Batch
claimed b shares refund = record b {
  total_shares = b.total_shares - shares;
  amount_unclaimed = b.amount_unclaimed - refund;
}

module _ {cw : Cosmwasm} (law : IsCosmwasm cw) (user : String) where
  -- The amounts of a successful claim and what it leaves.
  pub record Claim (b : Batch) (r : UnbondRequest) (c c' : Claims) : Type 0 where
    pub refunded : ℕ
    pub has_shares : 0 < b.total_shares
    pub share_of : refunded ≡ b.amount_unclaimed * r.shares / b.total_shares
    pub shares_covered : r.shares ≤ b.total_shares
    pub amount_covered : refunded ≤ b.amount_unclaimed
    pub batches : c'.batches ≡ settle r.id (claimed b r.shares refunded) c.batches
    pub requests : c'.requests ≡ remove_request r.id user c.requests
    pub refund : c'.refund ≡ c.refund + refunded

  pub claim-eq-ok :
      (b : Batch) (r : UnbondRequest) (c c' : Claims) → claim cw user b r c ≡ ok c' → Claim b r c c'
  unfolding claim
  claim-eq-ok b r c c' h =
      bind_ok (cw.multiply_ratio b.amount_unclaimed r.shares b.total_shares) _ h λ n en h.
        bind_ok (add128 c.refund n) _ h λ sum es h.
          bind_ok (sub_word b.total_shares r.shares) _ h λ left el h.
            bind_ok (sub_word b.amount_unclaimed n) _ h λ kept ek h.
              let ratio =
                multiply_ratio-eq-ok law b.amount_unclaimed r.shares b.total_shares n en in
              let (left_eq, shares_covered) =
                sub_word-eq-ok b.total_shares r.shares {y = left} el in
              let (kept_eq, amount_covered) = sub_word-eq-ok b.amount_unclaimed n {y = kept} ek in
              let left_eq' : b.total_shares - r.shares ≡ left = omega (arith, left_eq) in
              let kept_eq' : b.amount_unclaimed - n ≡ kept = omega (arith, kept_eq) in
              let sum_eq = (fit-eq-ok u128_mod panic (c.refund + n) {y = sum} es).0 in
              rw (← ok-injective h) (record {
                refunded = n;
                has_shares = ratio.0;
                share_of = ratio.1;
                shares_covered = shares_covered;
                amount_covered = amount_covered;
                batches = rw (left_eq', kept_eq') refl;
                requests = refl;
                refund = sum_eq;
              })

  module _ {b : Batch} {r : UnbondRequest} {c c' : Claims} (done : Claim b r c c')
      {pending : PendingBatch} (books : IsBalanced pending c.batches c.requests)
      (batch : find_batch r.id c.batches ≡ some b)
      (request : find_request r.id user c.requests ≡ some r) where
    -- The last share of a batch is worth all that is left of it.
    claimed_dust : b.total_shares - r.shares ≡ 0 → b.amount_unclaimed - done.refunded ≡ 0
    claimed_dust h =
        let whole : r.shares ≡ b.total_shares = omega (arith, done.shares_covered) in
        let e : done.refunded ≡ b.amount_unclaimed =
          done.share_of ∙ rw whole (mul-div_cancel b.amount_unclaimed done.has_shares) in
        omega (arith, e)

    pub claim-unclaimed : unclaimed c'.batches + c'.refund ≡ unclaimed c.batches + c.refund
    claim-unclaimed =
        rw (done.batches, done.refund)
          (omega (
            arith,
            settle-unclaimed r.id (claimed b r.shares done.refunded)
                (find_batch-id r.id c.batches b batch) c.batches b batch (books.one_batch r.id)
                claimed_dust,
            done.amount_covered,
          ))

    claim-shares :
        (id : ℕ)
        → shares_in id (remove_request r.id user c.requests) + (if r.id == id then r.shares else 0)
          ≡ shares_in id c.requests
    claim-shares id =
        remove_request-shares r.id user c.requests r id (books.one_request r.id user) request

    pub claim-IsBalanced : IsBalanced pending c'.batches c'.requests
    claim-IsBalanced =
        let b' = claimed b r.shares done.refunded in
        let same = find_batch-id r.id c.batches b batch in
        rw (done.batches, done.requests)
          (record {
            queued = ground (arith, claim-shares pending.id, books.queued, books.fresh pending.id);
            later = λ id h. omega (arith, claim-shares id, books.later id h);
            shared = λ id x e. elim (find-settle r.id b' same c.batches id x e) [
              | inl (here, ex) ↦
                  ground
                    (arith, claim-shares id, books.shared r.id b batch, ex, done.shares_covered)
              | inr (ne, old) ↦ ground (arith, claim-shares id, books.shared id x old)
            ];
            fresh = λ id h.
                settle-fresh r.id b' same c.batches id (λ e. cc (books.fresh r.id (rw e h)))
                  (books.fresh id h);
            one_batch = λ id. settle-one r.id b' same c.batches id (books.one_batch id);
            one_request =
                λ id u. remove_request-one r.id user c.requests id u (books.one_request id u);
          })

    pub claim-others :
        (other : ℕ)
        → other ≢ r.id
        → find_request other user c'.requests ≡ find_request other user c.requests
    claim-others other ne = rw done.requests (find-remove_request_ne r.id other user c.requests ne)
