-- ===== src/Ledger/Promised.antt =====
-- What `reconcile` of contracts/hub/src/execute.rs leaves for users to withdraw, against the
-- contract's balance.
use joe_liquid_staking.Prelude.{
  ℕ, ◌+◌, ◌-◌, ◌≡◌, refl, String, false, not, some, List, [], ◌∷◌, ok, arith, total, All,
  if◌then◌else◌, retain,
}
use mathlib.Core.Path.{subst}
use joe_liquid_staking.Store.Laws.{All-retain, All-retain_weak}
use joe_liquid_staking.Types.{Cosmwasm, Env, PendingBatch, Batch, Coin, Response, find_coin}
use joe_liquid_staking.State.{State, find_batch, unreconciled}
use joe_liquid_staking.Math.Reconcile.{unclaimed}
use joe_liquid_staking.Execute.Reconcile.{due_batches, reconcile}
use joe_liquid_staking.Ledger.{Balanced, BooksOf}
use joe_liquid_staking.Ledger.Reconcile.{held, save_reconciled-total, kept-held, kept-Apart}
use joe_liquid_staking.Ledger.Reconciled.{reconcile-eq-ok, due-Apart, due-found}

-- What a batch lets its users withdraw.
abbrev ready : Batch → ℕ
ready b = if b.reconciled then b.amount_unclaimed else 0

-- What the reconciled batches let users withdraw.
abbrev pub promised : List Batch → ℕ
promised batches = total ready batches

found-held :
    (bs store : List Batch)
    → All (λ (b : Batch). find_batch b.id store ≡ some b) bs
    → All (λ (b : Batch). b.reconciled ≡ false) bs
    → held ready bs store ≡ 0
found-held [] store h k = refl
found-held (b ∷ bs) store h k = ground (arith, h.0, k.0, found-held bs store h.1 k.1)

due-unreconciled :
    (time : ℕ) (store : List Batch)
    → All (λ (b : Batch). b.reconciled ≡ false) (due_batches time store)
unfolding due_batches unreconciled
due-unreconciled time store =
    All-retain_weak (λ (b : Batch). b.reconciled ≡ false) _ (retain (λ b. not b.reconciled) store)
      (All-retain (λ b. not b.reconciled) (λ (b : Batch). b.reconciled ≡ false) store
        λ b i e. ground arith)

-- What a reconciliation promises, given what it found.
abbrev pub Promises : Cosmwasm → Env → State → State × Response → Type 0
Promises cw env s out =
    (denom : String) × (coins : List Coin) × (actual : ℕ) × (s.denom ≡ some denom)
    × (s.unlocked_coins ≡ some coins)
    × (cw.query_balance env.contract denom ≡ ok actual)
    × (promised out.0.previous_batches
          + (find_coin coins denom).amount
          + (actual
              - (unclaimed (due_batches env.time s.previous_batches)
                  + (find_coin coins denom).amount))
        ≡ promised s.previous_batches + actual)

-- With balanced books, after a successful reconciliation what the reconciled batches let users
-- withdraw, with the unlocked coins and what the balance has to spare above the due batches and the
-- unlocked coins, is exactly the balance and what the reconciled batches let users withdraw before.
pub reconcile-Promises :
    (cw : Cosmwasm) (env : Env) (s : State) (out : State × Response) (pending : PendingBatch)
    → s.pending_batch ≡ some pending
    → Balanced s
    → reconcile cw env s ≡ ok out
    → Promises cw env s out
reconcile-Promises cw env s out pending e books h =
    let (denom, coins, actual, bs, ed, ec, ea, spread, same, eo) = reconcile-eq-ok cw env s out h in
    let store = s.previous_batches in
    let due = due_batches env.time store in
    let b = subst (λ o. BooksOf o store s.unbond_requests) e books in
    (
      denom,
      coins,
      actual,
      ed,
      ec,
      ea,
      rw eo (
          omega (
            arith,
            save_reconciled-total ready bs store
                (kept-Apart due bs same (due-Apart env.time store b.one_batch)),
            kept-held ready store due bs same,
            found-held due store (due-found env.time store b.one_batch)
                (due-unreconciled env.time store),
            spread,
          )),
    )
