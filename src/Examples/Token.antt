-- ===== src/Examples/Token.antt =====
-- The theorems on contracts/token/src/lib.rs at a token that the concrete hub orders.
use joe_liquid_staking.Prelude.{
  ℕ, ◌+◌, ◌≡◌, ◌↔◌, refl, ap, sym, fit, String, Option, none, some, ok-injective, Result, ok,
}
use joe_liquid_staking.Types.{Cw20InstantiateMsg, fee_type_from_str}
use joe_liquid_staking.Execute.Instantiate.{instantiate as hub_instantiate}
use joe_liquid_staking.Token.{Cw20ExecuteMsg, burn, burn_from, execute, instantiate}
use joe_liquid_staking.Token.Hub.{IsCw20, Lives, hub_token_burns}
use joe_liquid_staking.Examples.{chain, env}
use joe_liquid_staking.Examples.Contract.{setup, created}
use joe_liquid_staking.State.{empty_state}

-- A token that keeps its minter and counts its calls.
abbrev Token : Type 0
Token = Option String × ℕ

abbrev minter_of : Token → Option (Option String)
minter_of t = some t.0

abbrev found : String → Cw20InstantiateMsg → Token → Result (Token × ℕ)
found sender init t = ok ((some init.minter, 0), 0)

abbrev count_call : String → Cw20ExecuteMsg ℕ → Token → Result (Token × ℕ)
count_call sender msg t = ok ((t.0, t.1 + 1), t.1)

abbrev ask : ℕ → Token → Result ℕ
ask question t = ok t.1

token-IsCw20 : IsCw20 minter_of found count_call ask
token-IsCw20 = record {
  founded = λ e. ap (λ (o : Token × ℕ). some o.0.0) (sym (ok-injective e));
  kept = λ e. ap (λ (o : Token × ℕ). some o.0.0) (sym (ok-injective e));
}

abbrev ordered : Cw20InstantiateMsg
ordered = record { name = "Steak"; symbol = "STEAK"; decimals = 6; minter = "hub" }

abbrev founded : Token × ℕ
founded = ((some "hub", 0), 0)

-- The hub has burned once.
lives : Lives minter_of found count_call ask ordered (some "hub", 1)
unfolding instantiate execute
lives =
    Lives.called "hub" (burn 5) founded.0 ((some "hub", 1), 0)
      (Lives.created "creator" (none, 0) founded refl) refl

hub_token_burns_example :
    ((execute minter_of count_call "hub" (burn 7) (some "hub", 1) ≡ ok ((some "hub", 2), 1)) ↔ (
      ("hub" ≡ env.contract)
      × (count_call "hub" (burn 7) (some "hub", 1) ≡ ok ((some "hub", 2), 1))))
    × ((owner : String)
        → ¬ (
            execute minter_of count_call "hub" (burn_from owner 7) (some "hub", 1)
            ≡ ok ((some "hub", 2), 1)))
unfolding hub_instantiate fee_type_from_str fit
hub_token_burns_example =
    hub_token_burns minter_of found count_call ask token-IsCw20 chain env setup empty_state created
      ordered (some "hub", 1) "hub" 7 ((some "hub", 2), 1) refl ("owner", 4, "steak_token", 1, refl)
      lives
