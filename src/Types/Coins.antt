-- ===== src/Types/Coins.antt =====
-- contracts/hub/src/types/coins.rs: a list of coins as a sum by denom.
use joe_liquid_staking.Prelude.{
  String, List, [], ◌∷◌, some, none, Result, ok, ◌>>=◌, if◌then◌else◌, str_eq, find, checked_add128,
}
use joe_liquid_staking.Types.Hub.{Coin}

-- `Coins::add`: the first coin of the same denom grows, or the coin is pushed at the end.
unfoldable pub add : List Coin → Coin → Result (List Coin)
add [] new = ok (new ∷ [])
add (coin ∷ coins) new =
    let rest = add coins new in
    if str_eq coin.denom new.denom
    then (do
      amount ← checked_add128 coin.amount new.amount
      ok (record coin { amount = amount } ∷ coins))
    else (do coins' ← rest; ok (coin ∷ coins'))

-- `Coins::add_many`
unfoldable pub add_many : List Coin → List Coin → Result (List Coin)
add_many coins [] = ok coins
add_many coins (new ∷ more) = do coins' ← add coins new; add_many coins' more

-- `Coins::find`
unfoldable pub find_coin : List Coin → String → Coin
find_coin coins denom = elim (find (λ c. str_eq c.denom denom) coins) [
  | some coin ↦ coin
  | none ↦ record { denom = denom; amount = 0 }
]
