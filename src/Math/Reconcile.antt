-- ===== src/Math/Reconcile.antt =====
-- `reconcile_batches`: the deduction is spread whole over the batches, and panics where a batch
-- holds less than its even share.
use joe_liquid_staking.Prelude.{
  ℕ, ◌+◌, ◌-◌, ◌/◌, ◌%◌, ◌<◌, ◌≡◌, refl, ap, List, [], ◌∷◌, true, map, ok, err, panic, ◌⊎◌, inl,
  inr, arith, length, total, All, bind_ok, ok-injective, sub_word, div_word, rem_word,
  sub_word-eq-ok, sub_word_eq, div_word_eq, rem_word_eq, div_word-eq-ok, rem_word-eq-ok,
}
use joe_liquid_staking.Types.{Batch}
use joe_liquid_staking.Math.{share_at, reconcile_loop, reconcile_batches}
use joe_liquid_staking.Math.Even.{shares, shares_total, share_bounds}

abbrev pub unclaimed : List Batch → ℕ
unclaimed bs = total (λ b. b.amount_unclaimed) bs

-- What a reconciliation leaves alone.
abbrev pub kept : Batch → ℕ × ℕ × ℕ
kept b = (b.id, b.total_shares, b.est_unbond_end_time)

abbrev pub IsReconciled : Batch → Type 0
IsReconciled b = b.reconciled ≡ true

reconcile_loop-eq-ok :
    (per remainder i : ℕ) (bs bs' : List Batch)
    → reconcile_loop per remainder i bs ≡ ok bs'
    → (unclaimed bs' + shares per remainder i (length bs) ≡ unclaimed bs)
      × (map kept bs' ≡ map kept bs)
      × All IsReconciled bs'
unfolding reconcile_loop shares
reconcile_loop-eq-ok per remainder i [] bs' h = rw (← ok-injective h) (omega arith, refl, tt)
reconcile_loop-eq-ok per remainder i (b ∷ bs) bs' h =
    bind_ok (sub_word b.amount_unclaimed (share_at per remainder i)) _ h λ u eu h1.
      bind_ok (reconcile_loop per remainder (i + 1) bs) _ h1 λ rest er h2.
        let ih = reconcile_loop-eq-ok per remainder (i + 1) bs rest er in
        rw (← ok-injective h2) (
          omega (
            arith,
            ih.0,
            sub_word-eq-ok b.amount_unclaimed (share_at per remainder i) {y = u} eu,
          ),
          ap (λ (ks : List (ℕ × ℕ × ℕ)). kept b ∷ ks) ih.1,
          (refl, ih.2),
        )

-- A deduction that succeeds lowers the unclaimed amounts by exactly the amount to deduct, marks
-- every batch reconciled, and changes no batch's id, shares or end time.
pub reconcile_batches-eq-ok :
    (bs bs' : List Batch) (x : ℕ)
    → reconcile_batches bs x ≡ ok bs'
    → (unclaimed bs' + x ≡ unclaimed bs) × (map kept bs' ≡ map kept bs) × All IsReconciled bs'
unfolding reconcile_batches
reconcile_batches-eq-ok bs bs' x h = bind_ok (div_word x (length bs)) _ h λ per ep h1.
    bind_ok (rem_word x (length bs)) _ h1 λ remainder er h2.
      let (pos, per_eq) = div_word-eq-ok x (length bs) per ep in
      let rem_eq = (rem_word-eq-ok x (length bs) remainder er).1 in
      let done = reconcile_loop-eq-ok per remainder 0 bs bs' h2 in
      let sum : shares per remainder 0 (length bs) ≡ x =
        rw (per_eq, rem_eq) (shares_total x (length bs) pos) in
      (omega (arith, done.0, sum), done.1, done.2)

-- A batch that holds less than the even share.
abbrev pub HasShort : ℕ → List Batch → Type 0
HasShort share [] = ⊥
HasShort share (b ∷ bs) = (b.amount_unclaimed < share) ⊎ HasShort share bs

reconcile_loop_short :
    (per remainder i : ℕ) (bs : List Batch)
    → HasShort per bs
    → reconcile_loop per remainder i bs ≡ err panic
unfolding reconcile_loop sub_word
reconcile_loop_short per remainder i [] h = absurd h
reconcile_loop_short per remainder i (b ∷ bs) (inl h) = ground (arith, share_bounds per remainder i)
reconcile_loop_short per remainder i (b ∷ bs) (inr h) =
    ground (arith, reconcile_loop_short per remainder (i + 1) bs h)

-- Where some batch holds less than the whole part of the even share, the deduction panics, although
-- the batches together may hold enough.
pub reconcile_batches_short :
    (bs : List Batch) (x : ℕ) → HasShort (x / length bs) bs → reconcile_batches bs x ≡ err panic
unfolding reconcile_batches
reconcile_batches_short [] x h = absurd h
reconcile_batches_short (b ∷ bs) x h =
    let n = length (b ∷ bs) in
    rw (div_word_eq x n (omega arith), rem_word_eq x n (omega arith))
      (reconcile_loop_short (x / n) (x % n) 0 (b ∷ bs) h)

reconcile_loop_enough :
    (per remainder i : ℕ) (bs : List Batch)
    → All (λ (b : Batch). per < b.amount_unclaimed) bs
    → (bs' : List Batch) × (reconcile_loop per remainder i bs ≡ ok bs')
unfolding reconcile_loop
reconcile_loop_enough per remainder i [] h = ([], refl)
reconcile_loop_enough per remainder i (b ∷ bs) h =
    let (rest, e) = reconcile_loop_enough per remainder (i + 1) bs h.1 in
    (
      record b {
        amount_unclaimed = b.amount_unclaimed - share_at per remainder i;
        reconciled = true;
      }
          ∷ rest,
      rw
          (
            sub_word_eq b.amount_unclaimed (share_at per remainder i)
                (omega (arith, h.0, share_bounds per remainder i)),
            e,
          )
          refl,
    )

-- Where there is a batch and each holds more than the whole part of the even share, the deduction
-- succeeds.
pub reconcile_batches_enough :
    (bs : List Batch) (x : ℕ)
    → 0 < length bs
    → All (λ (b : Batch). x / length bs < b.amount_unclaimed) bs
    → (bs' : List Batch) × (reconcile_batches bs x ≡ ok bs')
unfolding reconcile_batches
reconcile_batches_enough bs x some_batch h =
    rw (div_word_eq x (length bs) some_batch, rem_word_eq x (length bs) some_batch)
      (reconcile_loop_enough (x / length bs) (x % length bs) 0 bs h)
