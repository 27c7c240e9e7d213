-- ===== src/Helpers.antt =====
-- contracts/hub/src/helpers.rs: queries and the check of the funds sent with a message.
use joe_liquid_staking.Prelude.{
  ℕ, String, List, [], ◌∷◌, Result, ok, err, generic_err, ◌>>=◌, ◌>>◌, guard, unwrap_or, map_result,
  str_eq, not, ◌==◌,
}
use joe_liquid_staking.Types.{Coin, Cosmwasm, Delegation}

module _ (cw : Cosmwasm) where
  unfoldable pub query_cw20_total_supply : String → Result ℕ
  query_cw20_total_supply token_addr = cw.token_supply token_addr

  unfoldable pub query_delegation : String → String → String → Result Delegation
  query_delegation validator delegator denom = do
    delegated ← cw.query_delegation delegator validator
    ok (record { validator = validator; amount = unwrap_or delegated 0; denom = denom })

  unfoldable pub query_delegations : List String → String → String → Result (List Delegation)
  unfolding query_delegation
  query_delegations validators delegator denom =
      map_result (λ validator. query_delegation validator delegator denom) validators

  unfoldable pub get_denom_balance : String → String → Result ℕ
  get_denom_balance account denom = cw.query_balance account denom

-- Exactly one coin, of the right denom, with an amount that is not zero.
unfoldable pub parse_received_fund : List Coin → String → Result ℕ
parse_received_fund [] denom = err (generic_err "must deposit exactly one coin; received {}")
parse_received_fund (fund ∷ []) denom = do
  guard (str_eq fund.denom denom) (generic_err "expected {} deposit, received {}")
  guard (not (fund.amount == 0)) (generic_err "deposit amount must be non-zero")
  ok fund.amount
parse_received_fund (fund ∷ other ∷ more) denom =
    err (generic_err "must deposit exactly one coin; received {}")
