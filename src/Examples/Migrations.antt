-- ===== src/Examples/Migrations.antt =====
-- The migrations of contracts/hub/src/contract.rs on a concrete storage.
use joe_liquid_staking.Prelude.{
  refl, some, none, true, false, List, [], ◌∷◌, map, fit, Result, ok, err, ◌≡◌, sub_word,
}
use joe_liquid_staking.Types.{ExecuteMsg, Response, respond}
use joe_liquid_staking.State.{State}
use joe_liquid_staking.Execute.Mining.{submit_proof, update_entropy}
use joe_liquid_staking.Contract.{execute}
use joe_liquid_staking.Contract.Reach.{Step}
use joe_liquid_staking.Migrations.{
  BatchV100, Storage, upgrade_stores, migrate, version_of, instantiate,
}
use joe_liquid_staking.Migrations.Batches.{carried, upgrade_stores_carries}
use joe_liquid_staking.Execute.Instantiate as handler
use joe_liquid_staking.Types.{fee_type_from_str}
use joe_liquid_staking.Contract.Invariant.{IsSound}
use joe_liquid_staking.Migrations.Sound.{empty_storage, life-IsSound}
use joe_liquid_staking.Examples.Contract.{setup, registered, bonded, registering, bonding}
use joe_liquid_staking.Migrations.Versions.{Life, missed_never_mines}
use joe_liquid_staking.Examples.{chain, chain-IsCosmwasm, env, info, storage, outcome}

abbrev old_batches : List BatchV100
old_batches =
    record {
      id = 1;
      reconciled = true;
      total_shares = 60;
      native_token_unclaimed = 91;
      est_unbond_end_time = 1000;
    }
    ∷ record {
      id = 2;
      reconciled = false;
      total_shares = 5;
      native_token_unclaimed = 45;
      est_unbond_end_time = 1900;
    }
    ∷ []

abbrev before : State
before = record storage { previous_batches = []; validators_active = none }

upgrade_stores_carries_example :
    upgrade_stores chain env old_batches before
    ≡ ok (record before {
      previous_batches = map carried old_batches;
      validators_active = some ("v1" ∷ "v2" ∷ []);
      prev_denom = some 50;
    })
upgrade_stores_carries_example =
    upgrade_stores_carries chain env old_batches before "ujoe" ("v1" ∷ "v2" ∷ []) 50 refl
      ((refl, tt), (tt, tt)) refl refl refl

-- A contract that mined before the total was kept.
abbrev mining : Storage
mining = record {
  contract_version = some (record { contract = "steak-hub"; version = "2.1.13" });
  old_batches = [];
  state = record storage { total_mining_power = none };
}

abbrev storage_of : Result (Storage × Response) → Storage × Response
storage_of (ok out) = out
storage_of (err e) = (mining, respond [] [] "")

abbrev migrated : Storage × Response
migrated = storage_of (migrate chain env mining)

abbrev called : State × Response
called =
    outcome (execute chain env (info "alice") (ExecuteMsg.update_entropy "more") migrated.0.state)

life : Life chain mining (record migrated.0 { state = called.0 })
unfolding migrate execute update_entropy sub_word
life = Life.called (Life.migrated Life.started env migrated refl) called.0 (
    Step.executed env (info "alice") (ExecuteMsg.update_entropy "more") migrated.0.state called
      refl)

missed_never_mines_example : ¬ (
    submit_proof chain env "alice" 5 "v1" called.0
    ≡ ok (storage, respond [] [] "steakhub/submit_proof"))
unfolding version_of
missed_never_mines_example =
    missed_never_mines chain mining (record migrated.0 { state = called.0 }) env "alice" 5 "v1"
      (storage, respond [] [] "steakhub/submit_proof") (refl, refl) life

-- The contract of the other tests, with its version.
abbrev instantiated : Storage × Response
instantiated = storage_of (instantiate chain env setup empty_storage)

abbrev lived : Storage × Response
lived = storage_of (migrate chain env (record instantiated.0 { state = bonded.0 }))

lifetime : Life chain instantiated.0 lived.0
unfolding instantiate handler.instantiate fee_type_from_str fit migrate
lifetime =
    Life.migrated (Life.called (Life.called Life.started registered.0 registering) bonded.0 bonding)
      env lived refl

life-IsSound_example : IsSound lived.0.state
unfolding instantiate handler.instantiate fee_type_from_str fit
life-IsSound_example = life-IsSound chain-IsCosmwasm env setup instantiated lived.0 refl lifetime
