-- ===== src/Ledger/Reconciled.antt =====
-- The handler `reconcile` as a whole.
use joe_liquid_staking.Prelude.{
  ℕ, ◌+◌, ◌-◌, ◌≡◌, refl, sym, ap, String, not, some, List, [], ◌∷◌, map, ok, arith, All, ◌==◌, ltb,
  if◌then◌else◌, retain, bind_ok, ok-injective, load, load-eq-ok, add128, fit-eq-ok, u128_mod,
  panic, Bool-cases, Option-cases, inl, inr,
}
use mathlib.Core.Path.{subst}
use native.Mathlib.Nat.{le_trans}
use joe_liquid_staking.Types.{Cosmwasm, Env, PendingBatch, Batch, Coin, find_coin, Response}
use joe_liquid_staking.Store.Laws.{find_of_In, All-of_In, All-retain_weak, retain-total_le}
use joe_liquid_staking.State.{State, find_batch, unreconciled}
use joe_liquid_staking.Math.{reconcile_batches}
use joe_liquid_staking.Math.Reconcile.{unclaimed, kept, reconcile_batches-eq-ok}
use joe_liquid_staking.Execute.Reconcile.{sum_unclaimed, due_batches, save_reconciled, reconcile}
use joe_liquid_staking.Ledger.{BooksOf, Balanced}
use joe_liquid_staking.Ledger.Reconcile.{
  Shadows, Apart, Marked, held, kept-Shadows, kept-held, kept-Marked, kept-Apart,
  save_reconciled-books, save_reconciled-total, save_reconciled-Marked,
}

sum_unclaimed-eq-ok :
    (acc : ℕ) (bs : List Batch) (t : ℕ) → sum_unclaimed acc bs ≡ ok t → t ≡ acc + unclaimed bs
unfolding sum_unclaimed
sum_unclaimed-eq-ok acc [] t h = ground arith
sum_unclaimed-eq-ok acc (b ∷ bs) t h = bind_ok (add128 acc b.amount_unclaimed) _ h λ acc' e h1.
    omega (
      arith,
      sum_unclaimed-eq-ok acc' bs t h1,
      (fit-eq-ok u128_mod panic (acc + b.amount_unclaimed) {y = acc'} e).0,
    )

module _ (current_time : ℕ) (store : List Batch) where
  pub due-Apart : Apart store → Apart (due_batches current_time store)
  unfolding due_batches unreconciled
  due-Apart apart id =
      le_trans
        (retain-total_le (λ b. if b.id == id then 1 else 0)
          (λ b. ltb b.est_unbond_end_time current_time) (retain (λ b. not b.reconciled) store))
        (le_trans (retain-total_le (λ b. if b.id == id then 1 else 0) (λ b. not b.reconciled) store)
          (apart id))

  pub due-found :
      Apart store
      → All (λ (b : Batch). find_batch b.id store ≡ some b) (due_batches current_time store)
  unfolding due_batches unreconciled find_batch
  due-found apart =
      let P = λ (b : Batch). find_batch b.id store ≡ some b in
      All-retain_weak P _ (retain (λ b. not b.reconciled) store) (
        All-retain_weak P _ store (
          All-of_In P store
            λ b i. find_of_In (λ (x : Batch). x.id == b.id) b store (apart b.id) i (ground arith)))

found-Shadows :
    (bs store : List Batch)
    → All (λ (b : Batch). find_batch b.id store ≡ some b) bs
    → Shadows bs store
found-Shadows [] store h = tt
found-Shadows (b ∷ bs) store h = ((b, h.0, refl), found-Shadows bs store h.1)

abbrev amount_of : Batch → ℕ
amount_of b = b.amount_unclaimed

found-held :
    (bs store : List Batch)
    → All (λ (b : Batch). find_batch b.id store ≡ some b) bs
    → held amount_of bs store ≡ unclaimed bs
found-held [] store h = refl
found-held (b ∷ bs) store h = ground (arith, h.0, found-held bs store h.1)

-- The shortfall of the contract's balance, given the denom, the unlocked coins and the balance.
abbrev pub shortfall : Env → State → String → List Coin → ℕ → ℕ
shortfall env s denom coins actual =
    unclaimed (due_batches env.time s.previous_batches) + (find_coin coins denom).amount - actual

-- What a reconciliation found and took out of the batches.
abbrev pub Deducted : Cosmwasm → Env → State → State × Response → Type 0
Deducted cw env s out =
    (denom : String) × (coins : List Coin) × (actual : ℕ) × (s.denom ≡ some denom)
    × (s.unlocked_coins ≡ some coins)
    × (cw.query_balance env.contract denom ≡ ok actual)
    × (unclaimed out.0.previous_batches + shortfall env s denom coins actual
        ≡ unclaimed s.previous_batches)
    × All (λ (b : Batch). Marked out.0.previous_batches b.id)
        (due_batches env.time s.previous_batches)

module _ (cw : Cosmwasm) (env : Env) (s : State) where
  pub reconcile-eq-ok :
      (out : State × Response)
      → reconcile cw env s ≡ ok out
      → (denom : String) × (coins : List Coin) × (actual : ℕ) × (bs : List Batch) × (s.denom
          ≡ some denom)
        × (s.unlocked_coins ≡ some coins)
        × (cw.query_balance env.contract denom ≡ ok actual)
        × (unclaimed bs + shortfall env s denom coins actual
            ≡ unclaimed (due_batches env.time s.previous_batches))
        × (map kept bs ≡ map kept (due_batches env.time s.previous_batches))
        × (out.0 ≡ record s { previous_batches = save_reconciled bs s.previous_batches })
  unfolding reconcile
  reconcile-eq-ok out h =
      let due = due_batches env.time s.previous_batches in
      bind_ok (sum_unclaimed 0 due) _ h λ received er h. bind_ok (load s.denom) _ h λ denom ed h.
        bind_ok (load s.unlocked_coins) _ h λ coins ec h.
          bind_ok (add128 received (find_coin coins denom).amount) _ h λ expected ee h.
            bind_ok (cw.query_balance env.contract denom) _ h λ actual ea h.
              bind_ok
                (if expected - actual == 0
                  then ok due
                  else reconcile_batches due (expected - actual))
                _ h
                λ bs eb h.
                  let sum = sum_unclaimed-eq-ok 0 due received er in
                  let all =
                    (fit-eq-ok u128_mod panic (received + (find_coin coins denom).amount)
                      {y = expected} ee).0 in
                  let short : expected - actual ≡ shortfall env s denom coins actual =
                    omega (arith, sum, all) in
                  let spread : (unclaimed bs + (expected - actual) ≡ unclaimed due)
                      × (map kept bs ≡ map kept due) =
                    (elim (Bool-cases (expected - actual == 0)) [
                      | inl e ↦
                          let same : due ≡ bs = ok-injective (rw e at eb) in
                          rw (← same) (ground (arith, e), refl)
                      | inr e ↦
                          let done =
                            reconcile_batches-eq-ok due bs (expected - actual) (rw e at eb) in
                          (done.0, done.1)
                    ]) in
                  (
                    denom,
                    coins,
                    actual,
                    bs,
                    load-eq-ok s.denom denom ed,
                    load-eq-ok s.unlocked_coins coins ec,
                    ea,
                    rw (← short) spread.0,
                    spread.1,
                    ap (λ (o : State × Response). o.0) (sym (ok-injective h)),
                  )

  -- A reconciliation keeps the books balanced.
  pub reconcile-Balanced :
      (out : State × Response) → Balanced s → reconcile cw env s ≡ ok out → Balanced out.0
  reconcile-Balanced out books h =
      let (_, _, _, bs, _, _, _, _, same, eo) = reconcile-eq-ok out h in
      rw eo (elim (Option-cases s.pending_batch) [
        | inl e ↦ rw e tt
        | inr (pending, e) ↦
            let b = subst (λ o. BooksOf o s.previous_batches s.unbond_requests) e books in
            rw e (
              save_reconciled-books pending bs s.previous_batches s.unbond_requests b (
                kept-Shadows s.previous_batches _ bs same (
                  found-Shadows _ s.previous_batches
                    (due-found env.time s.previous_batches b.one_batch))))
      ])

  -- With balanced books, a successful reconciliation takes out of the batches exactly the shortfall:
  -- what the due batches and the unlocked coins say the contract holds of the stored denom, less its
  -- balance, or nothing where the balance covers it. Every due batch is marked reconciled.
  pub reconcile_deducts :
      (out : State × Response) (pending : PendingBatch)
      → s.pending_batch ≡ some pending
      → Balanced s
      → reconcile cw env s ≡ ok out
      → Deducted cw env s out
  reconcile_deducts out pending e books h =
      let (denom, coins, actual, bs, ed, ec, ea, spread, same, eo) = reconcile-eq-ok out h in
      let store = s.previous_batches in
      let due = due_batches env.time store in
      let b = subst (λ o. BooksOf o store s.unbond_requests) e books in
      let found = due-found env.time store b.one_batch in
      (
        denom,
        coins,
        actual,
        ed,
        ec,
        ea,
        rw eo (
            omega (
              arith,
              save_reconciled-total amount_of bs store
                  (kept-Apart due bs same (due-Apart env.time store b.one_batch)),
              kept-held amount_of store due bs same,
              found-held due store found,
              spread,
            )),
        rw eo
            (kept-Marked (save_reconciled bs store) due bs same (save_reconciled-Marked bs store)),
      )
