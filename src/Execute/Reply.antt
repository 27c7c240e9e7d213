-- ===== src/Execute/Reply.antt =====
-- `register_received_coins` and `parse_coin_receiving_event` of contracts/hub/src/execute.rs, with
-- `parse_coin` of contracts/hub/src/helpers.rs, `Coins::from_str` of contracts/hub/src/types/coins.rs
-- and `reply` of contracts/hub/src/contract.rs.
pub mod Events
pub mod Parsed
pub mod Received
use joe_liquid_staking.Prelude.{
  ℕ, zero, suc, ◌+◌, ◌-◌, String, Bool, some, List, [], ◌∷◌, Result, ok, err, panic, generic_err,
  ◌>>=◌, load, ok_or, map_result, if◌then◌else◌, ltb, leb, ◌==◌, str_eq, find, retain, not,
}
use Prim.Native.Char.{Char, code}
use joe_liquid_staking.Types.{Cosmwasm, Env, Coin, Value, Response, add_many}
use joe_liquid_staking.State.{State}
use joe_liquid_staking.Execute.Instantiate.{
  ReplyEvent, register_steak_token, reply_instantiate_token,
}
use joe_liquid_staking.Execute.Bond.{reply_register_received_coins}

-- The bytes of a character in UTF-8.
unfoldable pub width : Char → ℕ
width c =
    if ltb (code c) 0x80
    then 1
    else if ltb (code c) 0x800
    then 2
    else if ltb (code c) 0x10000
    then 3
    else 4

-- `&s[..i]` and `&s[i..]`, which panic where the byte `i` is inside a character or past the end.
unfoldable pub split_bytes : ℕ → String → Result (String × String)
unfolding width
split_bytes zero s = ok ("", s)
split_bytes (suc i) String.[] = err panic
split_bytes (suc i) (String.◌∷◌ c s) =
    let rest = split_bytes (suc i - width c) s in
    if leb (width c) (suc i) then (do r ← rest; ok (String.◌∷◌ c r.0, r.1)) else err panic

abbrev onto_head : Char → List String → List String
onto_head c [] = String.◌∷◌ c "" ∷ []
onto_head c (s ∷ ss) = String.◌∷◌ c s ∷ ss

-- `s.split(',')`
unfoldable pub split_commas : String → List String
split_commas String.[] = "" ∷ []
split_commas (String.◌∷◌ c s) =
    let rest = split_commas s in if code c == 44 then "" ∷ rest else onto_head c rest

-- The events of received coins.
abbrev pub coin_events : List ReplyEvent → List ReplyEvent
coin_events events = retain (λ e. str_eq e.ty "coin_received") events

-- `char::is_alphabetic`, which reads the tables of Unicode, and `Uint128::from_str`.
module _ (is_alphabetic : Char → Bool) (uint128_from_str : String → Result ℕ) where
  -- The loop of `parse_coin` at the character `i` of `s`, before the characters `rest`.
  unfoldable pub parse_from : ℕ → String → String → Result Coin
  unfolding split_bytes
  parse_from i s String.[] = err (generic_err "failed to parse coin: {}")
  parse_from i s (String.◌∷◌ c rest) =
      let later = parse_from (i + 1) s rest in
      if is_alphabetic c
      then (do
        parts ← split_bytes i s
        amount ← uint128_from_str parts.0
        ok (record { denom = parts.1; amount = amount }))
      else later

  unfoldable pub parse_coin : String → Result Coin
  unfolding parse_from
  parse_coin s = parse_from 0 s s

  unfoldable pub coins_from_str : String → Result (List Coin)
  unfolding parse_coin split_commas
  coins_from_str s =
      if str_eq s ""
      then ok []
      else map_result parse_coin (retain (λ t. not (str_eq t "")) (split_commas s))

  unfoldable pub parse_coin_receiving_event : Env → ReplyEvent → Result (List Coin)
  unfolding coins_from_str
  parse_coin_receiving_event env event = do
    receiver ←
        ok_or (find (λ a. str_eq a.0 "receiver") event.attributes)
          (generic_err "cannot find `receiver` attribute")
    amount ←
        ok_or (find (λ a. str_eq a.0 "amount") event.attributes)
          (generic_err "cannot find `amount` attribute")
    if str_eq receiver.1 env.contract then coins_from_str amount.1 else ok []

  -- The loop over the events.
  unfoldable pub add_received : Env → List Coin → List ReplyEvent → Result (List Coin)
  unfolding parse_coin_receiving_event
  add_received env coins [] = ok coins
  add_received env coins (event ∷ events) = do
    new ← parse_coin_receiving_event env event
    coins' ← add_many coins new
    add_received env coins' events

  unfoldable pub register_coins : Env → List ReplyEvent → State → Result (State × Response)
  unfolding add_received
  register_coins env events s = do
    received ← add_received env [] events
    coins ← load s.unlocked_coins
    coins' ← add_many coins received
    ok (
      record s { unlocked_coins = some coins' },
      record {
        messages = [];
        events = [];
        attributes = ("action", Value.text "steakhub/register_received_coins") ∷ [];
      },
    )

  -- Without such an event nothing is loaded.
  unfoldable pub register_events : Env → List ReplyEvent → State → Result (State × Response)
  unfolding register_coins
  register_events env [] s = ok (s, record { messages = []; events = []; attributes = [] })
  register_events env (e ∷ es) s = register_coins env (e ∷ es) s

  unfoldable pub register_received_coins : Env → List ReplyEvent → State → Result (State × Response)
  unfolding register_events
  register_received_coins env events s = register_events env (coin_events events) s

  -- `reply`, of the events of a reply that `unwrap_reply` finds to be a success.
  unfoldable pub reply : Cosmwasm → Env → ℕ → List ReplyEvent → State → Result (State × Response)
  unfolding register_received_coins
  reply cw env id events s =
      if id == reply_instantiate_token
      then register_steak_token cw events s
      else if id == reply_register_received_coins
      then register_received_coins env events s
      else err (generic_err "invalid reply id: {}; must be 1-2")
