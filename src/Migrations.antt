-- ===== src/Migrations.antt =====
-- contracts/hub/src/migrations.rs and `migrate` of contracts/hub/src/contract.rs. The version that
-- cw2 keeps and the batches under the key of version 1.0.0 are storage beside that of the hub.
pub mod Batches
pub mod Versions
pub mod Sound
use joe_liquid_staking.Prelude.{
  ℕ, String, Bool, Option, some, none, List, [], ◌∷◌, Result, ok, err, generic_err, ◌>>=◌, load,
  ◌||◌, if◌then◌else◌, str_eq,
}
use joe_liquid_staking.Types.{Cosmwasm, Env, InstantiateMsg, FeeType, Batch, Response, Value}
use joe_liquid_staking.State.{State, save_batch}
use joe_liquid_staking.Helpers.{get_denom_balance}
use joe_liquid_staking.Execute.Instantiate as handler

pub record BatchV100 : Type 0 where
  pub id : ℕ
  pub reconciled : Bool
  pub total_shares : ℕ
  pub native_token_unclaimed : ℕ
  pub est_unbond_end_time : ℕ

pub record ContractVersion : Type 0 where
  pub contract : String
  pub version : String

-- The storage of the contract: `contract_info` of cw2 (none where it cannot be read), the batches
-- under `BATCH_KEY_V100` by ascending id, and the storage of `State`.
pub record Storage : Type 0 where
  pub contract_version : Option ContractVersion
  pub old_batches : List BatchV100
  pub state : State

unfoldable pub upgraded : BatchV100 → Batch
upgraded v = record {
  id = v.id;
  reconciled = v.reconciled;
  total_shares = v.total_shares;
  amount_unclaimed = v.native_token_unclaimed;
  est_unbond_end_time = v.est_unbond_end_time;
}

unfoldable pub save_all : List BatchV100 → List Batch → List Batch
unfolding upgraded
save_all [] batches = batches
save_all (v ∷ vs) batches = save_all vs (save_batch (upgraded v) batches)

abbrev pub contract_name : String
contract_name = "steak-hub"

abbrev pub contract_version : String
contract_version = "2.1.15"

-- The sha256 of "pupmos".
abbrev pub first_entropy : String
first_entropy = "f1d518ef1e6e0814d30ffe4f2fd3c06a2ee358bb2afaf63fa649e2e38a9c142e"

-- `get_contract_version`, and the first version where it fails.
unfoldable pub version_of : Option ContractVersion → ContractVersion
version_of none = record { contract = "pfc-steak-hub"; version = "0" }
version_of (some stored) = stored

module _ (cw : Cosmwasm) (env : Env) where
  -- The balance of the staked denom becomes the previous balance.
  unfoldable pub save_prev_denom : State → Result State
  save_prev_denom s = do
    denom ← load s.denom
    balance ← get_denom_balance cw env.contract denom
    ok (record s { prev_denom = some balance })

  -- `ConfigV100::upgrade_stores`; the two batch keys differ.
  unfoldable pub upgrade_stores : List BatchV100 → State → Result State
  unfolding save_all save_prev_denom
  upgrade_stores old s = do
    s ← save_prev_denom s
    let batches = save_all old s.previous_batches
    validators ← load s.validators
    ok (record s { previous_batches = batches; validators_active = some validators })

  unfoldable pub migrate_zero : List BatchV100 → State → Result State
  unfolding upgrade_stores
  migrate_zero old s = do
    owner ← load s.owner
    upgrade_stores old (record s {
      denom = some "native_token";
      fee_account = some owner;
      max_fee_rate = some 0;
      fee_rate = some 0;
      fee_account_type = some FeeType.wallet;
    })

  unfoldable pub migrate_stores : List BatchV100 → State → Result State
  unfolding upgrade_stores
  migrate_stores old s = do
    s ← upgrade_stores old s
    ok (record s { fee_account_type = some FeeType.wallet })

  unfoldable pub migrate_denom : State → Result State
  unfolding save_prev_denom
  migrate_denom s = do
    s ← save_prev_denom s
    ok (record s { fee_account_type = some FeeType.wallet })

  -- What `migrate` does to the storage of a contract of the given version.
  unfoldable pub migrate_version : String → List BatchV100 → State → Result State
  unfolding migrate_zero migrate_stores migrate_denom
  migrate_version version old s =
      if str_eq version "0"
      then migrate_zero old s
      else if str_eq version "2.1.4" || str_eq version "2.1.5"
      then migrate_stores old s
      else if str_eq version "2.1.6" || str_eq version "2.1.7"
      then migrate_denom s
      else if str_eq version "2.1.8"
      then ok (record s { fee_account_type = some FeeType.wallet })
      else if str_eq version "2.1.12"
      then ok (record s {
        miner_entropy = some first_entropy;
        miner_entropy_draft = some first_entropy;
        miner_difficulty = some 1;
        miner_last_mined_timestamp = some env.time;
      })
      else if str_eq version "2.1.13"
      then ok (record s { miner_difficulty = some 1 })
      else if str_eq version "2.1.14"
      then ok (record s { miner_last_mined_block = some env.height; total_mining_power = some 0 })
      else ok s

  unfoldable pub migrate : Storage → Result (Storage × Response)
  unfolding migrate_version version_of
  migrate m =
      let stored = version_of m.contract_version in
      if str_eq stored.contract "pfc-steak-hub" || str_eq stored.contract "steak-hub"
      then (do
        s ← migrate_version stored.version m.old_batches m.state
        ok (
          record m {
            contract_version =
                some (record { contract = contract_name; version = contract_version });
            state = s;
          },
          record {
            messages = [];
            events = [];
            attributes =
                ("previous_contract_name", Value.text stored.contract)
                ∷ ("previous_contract_version", Value.text stored.version)
                ∷ ("new_contract_name", Value.text contract_name)
                ∷ ("new_contract_version", Value.text contract_version)
                ∷ [];
          },
        ))
      else err (generic_err "contract name is not the same. aborting {}")

  -- The entry point `instantiate`, which stores the version first.
  unfoldable pub instantiate : InstantiateMsg → Storage → Result (Storage × Response)
  instantiate msg m = do
    out ← handler.instantiate cw env msg m.state
    ok (
      record m {
        contract_version = some (record { contract = contract_name; version = contract_version });
        state = out.0;
      },
      out.1,
    )
