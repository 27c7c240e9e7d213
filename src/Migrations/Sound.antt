-- ===== src/Migrations/Sound.antt =====
-- The life of a contract that this code instantiates: calls, replies and migrations.
use joe_liquid_staking.Prelude.{◌≡◌, refl, sym, none, some, [], ok, bind_ok, ok-injective}
use mathlib.Core.Path.{subst}
use joe_liquid_staking.Types.{Cosmwasm, IsCosmwasm, Env, InstantiateMsg, Response}
use joe_liquid_staking.State.{State, empty_state}
use joe_liquid_staking.Execute.Instantiate as handler
use joe_liquid_staking.Contract.Invariant.{IsSound}
use joe_liquid_staking.Contract.Reach.{Step-IsSound, instantiate-IsSound}
use joe_liquid_staking.Migrations.{
  ContractVersion, Storage, contract_name, contract_version, migrate_version, version_of, migrate,
  instantiate,
}
use joe_liquid_staking.Migrations.Versions.{Life}

abbrev current : ContractVersion
current = record { contract = contract_name; version = contract_version }

-- The storage before `instantiate`.
abbrev pub empty_storage : Storage
empty_storage = record { contract_version = none; old_batches = []; state = empty_state }

record IsCurrent (m : Storage) : Type 0 where
  version_is : m.contract_version ≡ some current
  sound : IsSound m.state

-- A migration of a contract of this version changes nothing.
migrate-Same :
    (cw : Cosmwasm) (env : Env) (m : Storage) (out : Storage × Response)
    → m.contract_version ≡ some current
    → migrate cw env m ≡ ok out
    → (out.0.contract_version ≡ some current) × (out.0.state ≡ m.state)
unfolding migrate migrate_version version_of
migrate-Same cw env m out h e = let done = ok-injective (rw h at e) in rw (← done) (refl, refl)

Life-IsCurrent :
    {cw : Cosmwasm} → IsCosmwasm cw → {m n : Storage} → IsCurrent m → Life cw m n → IsCurrent n
Life-IsCurrent law h Life.started = h
Life-IsCurrent law h (Life.called life t st) =
    let before = Life-IsCurrent law h life in
    record { version_is = before.version_is; sound = Step-IsSound law st before.sound }
Life-IsCurrent {cw} law h (Life.migrated {m = n} life env out e) =
    let before = Life-IsCurrent law h life in
    let (version_is, same) = migrate-Same cw env n out before.version_is e in
    record {
      version_is = version_is;
      sound = subst (λ (t : State). IsSound t) (sym same) before.sound;
    }

-- Every storage that a contract of this code can come to is sound: after a successful `instantiate`
-- and any sequence of successful calls of `execute`, `reply` and `migrate`, by any callers, each
-- batch counts exactly the shares that the requests hold in it, no batch or request is ahead of the
-- pending batch, no key is stored twice, the maps are in key order, the fee is at most the largest
-- fee and that is at most 1, the mining difficulty is at least 1, and the validators' mining powers
-- add up to the total.
pub life-IsSound :
    {cw : Cosmwasm}
    → IsCosmwasm cw
    → (env : Env) (msg : InstantiateMsg) (created : Storage × Response) (m : Storage)
    → instantiate cw env msg empty_storage ≡ ok created
    → Life cw created.0 m
    → IsSound m.state
unfolding instantiate
life-IsSound {cw} law env msg created m e life =
    bind_ok (handler.instantiate cw env msg empty_state) _ e λ out eo e.
      (Life-IsCurrent law
        (rw (← ok-injective e)
          (record { version_is = refl; sound = instantiate-IsSound cw env msg out eo }))
        life).sound
