-- ===== src/Migrations/Versions.antt =====
-- `migrate` of contracts/hub/src/contract.rs from each version: what it leaves of the mining state.
use joe_liquid_staking.Prelude.{
  ℕ, ◌≡◌, refl, String, false, Bool-cases, inl, inr, List, ok, bind_ok, ok-injective, str_eq, arith,
  ◌||◌,
}
use joe_liquid_staking.Types.{Cosmwasm, Env, Response}
use joe_liquid_staking.State.{State}
use joe_liquid_staking.Helpers.{get_denom_balance}
use joe_liquid_staking.Execute.Mining.{submit_proof}
use joe_liquid_staking.Contract.Reach.{Step}
use joe_liquid_staking.Contract.Powerless.{IsPowerless, Step-IsPowerless, submit_proof-IsPowerless}
use joe_liquid_staking.Migrations.{
  BatchV100, Storage, save_prev_denom, upgrade_stores, migrate_zero, migrate_stores, migrate_denom,
  migrate_version, version_of, migrate,
}

-- The calls and the migrations of a contract, one after another.
pub data Life (cw : Cosmwasm) (start : Storage) : Storage → Type 0 where
  started : Life cw start start
  called :
      {m : Storage}
      → Life cw start m
      → (t : State) → Step cw m.state t
      → Life cw start (record m { state = t })
  migrated :
      {m : Storage}
      → Life cw start m
      → (env : Env) (out : Storage × Response) → migrate cw env m ≡ ok out
      → Life cw start out.0

-- The total mining power was never saved, and the version is not the one whose migration saves it.
abbrev pub HasMissed : Storage → Type 0
HasMissed m =
    (str_eq (version_of m.contract_version).version "2.1.14" ≡ false) × IsPowerless m.state

module _ (cw : Cosmwasm) (env : Env) where
  migrate_version-IsPowerless :
      (v : String) (old : List BatchV100) (s t : State)
      → str_eq v "2.1.14" ≡ false
      → IsPowerless s
      → migrate_version cw env v old s ≡ ok t
      → IsPowerless t
  unfolding migrate_version migrate_zero migrate_stores migrate_denom upgrade_stores save_prev_denom
      get_denom_balance
  migrate_version-IsPowerless v old s t other h e = ground arith

  migrate-HasMissed :
      (m : Storage) (out : Storage × Response)
      → HasMissed m
      → migrate cw env m ≡ ok out
      → HasMissed out.0
  unfolding migrate version_of
  migrate-HasMissed m out h e =
      let stored = version_of m.contract_version in
      elim (Bool-cases
        (str_eq stored.contract "pfc-steak-hub" || str_eq stored.contract "steak-hub")) [
          | inl known ↦
              bind_ok (migrate_version cw env stored.version m.old_batches m.state) _
                (rw known at e)
                λ t et e. rw (← ok-injective e) (
                  refl,
                  migrate_version-IsPowerless stored.version m.old_batches m.state t h.0 h.1 et,
                )
          | inr other ↦ absurd (cc (rw other at e))
        ]

Life-HasMissed : {cw : Cosmwasm} {m n : Storage} → HasMissed m → Life cw m n → HasMissed n
Life-HasMissed h Life.started = h
Life-HasMissed h (Life.called life t st) =
    let before = Life-HasMissed h life in (before.0, Step-IsPowerless st before.1)
Life-HasMissed {cw} h (Life.migrated {m = n} life env out e) =
    migrate-HasMissed cw env n out (Life-HasMissed h life) e

-- A contract of a version other than 2.1.14 (or with none) whose total mining power was never saved
-- accepts no proof of work any more: after any sequence of successful calls and of successful
-- migrations to this code, whoever sends whichever nonce, `submit_proof` fails.
pub missed_never_mines :
    (cw : Cosmwasm) (m n : Storage) (env : Env) (sender : String) (nonce : ℕ) (validator : String)
    (out : State × Response)
    → HasMissed m
    → Life cw m n
    → ¬ (submit_proof cw env sender nonce validator n.state ≡ ok out)
missed_never_mines cw m n env sender nonce validator out h life =
    submit_proof-IsPowerless cw env sender nonce validator n.state out (Life-HasMissed h life).1
