-- ===== src/Examples/Reply.antt =====
-- The theorems on the events of replies at concrete texts and events.
use joe_liquid_staking.Types.{Response}
use joe_liquid_staking.Prelude.{ℕ, ◌≡◌, refl, String, Bool, ltb, List, [], ◌∷◌, Result, ok}
use Prim.Native.Char.{Char, code}
use joe_liquid_staking.State.{State}
use joe_liquid_staking.Execute.Instantiate.{ReplyEvent}
use joe_liquid_staking.Execute.Reply.{width, parse_coin, register_received_coins}
use joe_liquid_staking.Execute.Reply.Parsed.{parse_coin_reads}
use joe_liquid_staking.Examples.{env, storage, outcome}

-- Letters are what comes after the digits, and every amount is read as 125.
abbrev letter : Char → Bool
letter c = ltb 57 (code c)

abbrev read : String → Result ℕ
read s = ok 125

parse_coin_reads_example :
    parse_coin letter read "125ujoe" ≡ ok (record { denom = "ujoe"; amount = 125 })
unfolding width
parse_coin_reads_example =
    parse_coin_reads letter read "125" "joe" "u" 125 (refl, refl, (refl, refl, (refl, refl, tt)))
      refl refl

abbrev received : ReplyEvent
received = record {
  ty = "coin_received";
  attributes = ("receiver", "hub") ∷ ("amount", "125ujoe,7uluna") ∷ [];
}

abbrev events : List ReplyEvent
events = record { ty = "transfer"; attributes = [] } ∷ received ∷ []

abbrev registered : State × Response
registered = outcome (register_received_coins letter read env events storage)
