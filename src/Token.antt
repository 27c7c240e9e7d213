-- ===== src/Token.antt =====
-- contracts/token/src/lib.rs: the token's guard in front of cw20-base, which is a parameter.
pub mod Burn
pub mod Hub
use joe_liquid_staking.Prelude.{
  ℕ, String, Option, none, some, Result, ok, err, generic_err, ◌>>=◌, ◌>>◌, guard, load, str_eq,
}

-- The messages of cw20-base, those that the guard tells apart by name.
pub data Cw20ExecuteMsg (Other : Type 0) : Type 0 where
  burn : ℕ → Cw20ExecuteMsg Other
  burn_from : String → ℕ → Cw20ExecuteMsg Other
  other : Other → Cw20ExecuteMsg Other

-- `cw20_base` and its storage, from which `TOKEN_INFO` is read: the minter, if the token has one.
module _ {Other Storage Response : Type 0} (token_info : Storage → Option (Option String))
    (cw20_execute : String → Cw20ExecuteMsg Other → Storage → Result (Storage × Response)) where
  unfoldable pub assert_minter : String → Storage → Result (Unit {0})
  assert_minter sender s = do
    mint ← load (token_info s)
    elim mint [
      | none ↦ ok tt
      | some minter ↦
          guard (str_eq sender minter) (generic_err "only minter can execute token burn")
    ]

  -- What `execute` tests before it calls cw20-base.
  unfoldable pub check_message : String → Cw20ExecuteMsg Other → Storage → Result (Unit {0})
  unfolding assert_minter
  check_message sender (burn amount) s = assert_minter sender s
  check_message sender (burn_from owner amount) s =
      err (generic_err "`burn_from` command is disabled")
  check_message sender (other m) s = ok tt

  unfoldable pub execute : String → Cw20ExecuteMsg Other → Storage → Result (Storage × Response)
  unfolding check_message
  execute sender msg s = do check_message sender msg s; cw20_execute sender msg s

-- `instantiate` and `query` only call cw20-base.
module _ {InstantiateMsg QueryMsg Binary Storage Response : Type 0}
    (cw20_instantiate : String → InstantiateMsg → Storage → Result (Storage × Response))
    (cw20_query : QueryMsg → Storage → Result Binary) where
  unfoldable pub instantiate : String → InstantiateMsg → Storage → Result (Storage × Response)
  instantiate sender msg s = cw20_instantiate sender msg s

  unfoldable pub query : QueryMsg → Storage → Result Binary
  query msg s = cw20_query msg s
