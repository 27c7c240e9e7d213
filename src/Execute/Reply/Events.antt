-- ===== src/Execute/Reply/Events.antt =====
-- Which events `register_received_coins` of contracts/hub/src/execute.rs reads, and what of them.
use joe_liquid_staking.Prelude.{
  ◌+◌, ◌≡◌, ◌≢◌, ◌⊎◌, String, Bool, Option, none, some, List, [], ◌∷◌, Result, ok, str_eq,
  if◌then◌else◌, total, ℕ,
}
use Prim.Native.Char.{Char}
use joe_liquid_staking.Types.{Env, Coin, Response}
use joe_liquid_staking.State.{State}
use joe_liquid_staking.Execute.Instantiate.{ReplyEvent}
use joe_liquid_staking.Execute.Reply.{coins_from_str}
use joe_liquid_staking.Execute.Reply.Received.{held}

-- The value of the first attribute with a key.
abbrev pub attribute : String → List (String × String) → Option String
attribute key [] = none
attribute key ((k, value) ∷ rest) = if str_eq k key then some value else attribute key rest

module _ (is_alphabetic : Char → Bool) (uint128_from_str : String → Result ℕ) (env : Env) where
  -- What the contract received by an event that names a receiver and an amount: the coins that the
  -- text of the amount lists if the receiver is the contract, and none if it is another account.
  abbrev pub IsReceived : ReplyEvent → List Coin → Type 0
  IsReceived event coins =
      (receiver : String) × (amount : String) × (attribute "receiver" event.attributes
        ≡ some receiver)
      × (attribute "amount" event.attributes ≡ some amount)
      × (((receiver ≡ env.contract)
            × (coins_from_str is_alphabetic uint128_from_str amount ≡ ok coins))
          ⊎ ((receiver ≢ env.contract) × (coins ≡ [])))

  -- What the contract received by each event of received coins of a reply, in order; an event of
  -- another type counts nothing.
  abbrev pub AreReceived : List ReplyEvent → List (List Coin) → Type 0
  AreReceived [] received = received ≡ []
  AreReceived (event ∷ events) received =
      ((event.ty ≡ "coin_received")
        × ((coins : List Coin) × (rest : List (List Coin)) × (received ≡ coins ∷ rest)
            × IsReceived event coins
            × AreReceived events rest))
      ⊎ ((event.ty ≢ "coin_received") × AreReceived events received)

  -- What a registration read of the events of a reply, and what it stored of that.
  abbrev pub Counted : List ReplyEvent → State → State × Response → Type 0
  Counted events s out =
      (received : List (List Coin)) × AreReceived events received
      × (((received ≡ []) × (out.0 ≡ s))
          ⊎ ((before : List Coin) × (after : List Coin) × (s.unlocked_coins ≡ some before)
              × (out.0 ≡ record s { unlocked_coins = some after })
              × ((denom : String)
                  → held denom after ≡ held denom before + total (held denom) received)))
