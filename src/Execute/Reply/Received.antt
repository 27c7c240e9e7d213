-- ===== src/Execute/Reply/Received.antt =====
-- What `register_received_coins` adds to the unlocked coins.
use joe_liquid_staking.Prelude.{
  ℕ, ◌+◌, ◌≡◌, refl, sym, ◌∙◌, String, Bool, some, List, [], ◌∷◌, Result, ok, arith, bind_ok,
  ok-injective, load, load-eq-ok, map_result, total, str_eq, eq_iff, if◌then◌else◌, checked_add128,
  fit-eq-ok, u128_mod, overflow, Bool-cases, ◌⊎◌, inl, inr,
}
use Prim.Native.Char.{Char}
use joe_liquid_staking.Types.{Env, Coin, Response, add, add_many}
use joe_liquid_staking.State.{State}
use joe_liquid_staking.Execute.Instantiate.{ReplyEvent}
use joe_liquid_staking.Execute.Reply.{
  parse_coin_receiving_event, add_received, coin_events, register_coins, register_events,
  register_received_coins,
}

-- What a list of coins holds of a denom, all coins of it together.
abbrev pub held : String → List Coin → ℕ
held denom coins = total (λ (c : Coin). if str_eq c.denom denom then c.amount else 0) coins

-- What the events of received coins hold, and the unlocked coins before and after.
abbrev pub Registered :
    (Char → Bool) → (String → Result ℕ) → Env → List ReplyEvent → State → State × Response → Type 0
Registered is_alphabetic uint128_from_str env events s out =
    ((events ≡ []) × (out.0 ≡ s))
    ⊎ ((received : List (List Coin)) × (before : List Coin) × (after : List Coin) × (map_result
            (parse_coin_receiving_event is_alphabetic uint128_from_str env) (events)
          ≡ ok received)
        × (s.unlocked_coins ≡ some before)
        × (out.0 ≡ record s { unlocked_coins = some after })
        × ((denom : String) → held denom after ≡ held denom before + total (held denom) received))

if-sum :
    (test : Bool) (a b rest : ℕ)
    → (if test then a + b else 0) + rest ≡ (if test then a else 0) + rest + (if test then b else 0)
if-sum test a b rest = ground arith

add-held :
    (denom : String) (coins : List Coin) (new : Coin) (out : List Coin)
    → add coins new ≡ ok out
    → held denom out ≡ held denom coins + (if str_eq new.denom denom then new.amount else 0)
unfolding add
add-held denom [] new out h = rw (← ok-injective h) (omega arith)
add-held denom (coin ∷ coins) new out h = elim (Bool-cases (str_eq coin.denom new.denom)) [
  | inl e ↦ bind_ok (checked_add128 coin.amount new.amount) _ (rw e at h) λ amount ea h.
      let sum = (fit-eq-ok u128_mod overflow (coin.amount + new.amount) {y = amount} ea).0 in
      let same = (eq_iff coin.denom new.denom).0 e in
      rw (← ok-injective h, sum, same)
        (if-sum (str_eq new.denom denom) coin.amount new.amount (held denom coins))
  | inr e ↦
      bind_ok (add coins new) _ (rw e at h)
        λ coins' ec h. rw (← ok-injective h) (omega (arith, add-held denom coins new coins' ec))
]

add_many-held :
    (denom : String) (coins news : List Coin) (out : List Coin)
    → add_many coins news ≡ ok out
    → held denom out ≡ held denom coins + held denom news
unfolding add_many
add_many-held denom coins [] out h = rw (← ok-injective h) (omega arith)
add_many-held denom coins (new ∷ news) out h = bind_ok (add coins new) _ h λ coins' e h.
    omega (arith, add-held denom coins new coins' e, add_many-held denom coins' news out h)

module _ (is_alphabetic : Char → Bool) (uint128_from_str : String → Result ℕ) (env : Env) where
  add_received-held :
      (denom : String) (events : List ReplyEvent) (coins out : List Coin)
      → add_received is_alphabetic uint128_from_str env coins events ≡ ok out
      → (received : List (List Coin)) × (map_result
            (parse_coin_receiving_event is_alphabetic uint128_from_str env)
            events
          ≡ ok received)
        × (held denom out ≡ held denom coins + total (held denom) received)
  unfolding add_received
  add_received-held denom [] coins out h = ([], refl, rw (← ok-injective h) (omega arith))
  add_received-held denom (event ∷ events) coins out h =
      bind_ok (parse_coin_receiving_event is_alphabetic uint128_from_str env event) _ h λ new en h.
        bind_ok (add_many coins new) _ h λ coins' e h.
          let (received, er, sum) = add_received-held denom events coins' out h in
          (
            new ∷ received,
            rw (en, er) refl,
            omega (arith, add_many-held denom coins new coins' e, sum),
          )

  register_events_adds :
      (events : List ReplyEvent) (s : State) (out : State × Response)
      → register_events is_alphabetic uint128_from_str env events s ≡ ok out
      → Registered is_alphabetic uint128_from_str env events s out
  unfolding register_events register_coins
  register_events_adds [] s out h = inl (refl, rw (← ok-injective h) refl)
  register_events_adds (e ∷ es) s out h =
      bind_ok (add_received is_alphabetic uint128_from_str env [] (e ∷ es)) _ h λ new en h.
        bind_ok (load s.unlocked_coins) _ h λ before eb h.
          bind_ok (add_many before new) _ h λ after ea h.
            let (received, er, _) = add_received-held "" (e ∷ es) [] new en in
            inr (
              received,
              before,
              after,
              er,
              load-eq-ok s.unlocked_coins before eb,
              rw (← ok-injective h) refl,
              λ denom.
                  let (received', er', sum) = add_received-held denom (e ∷ es) [] new en in
                  let same : received' ≡ received = ok-injective (sym er' ∙ er) in
                  rw (← same) (omega (arith, add_many-held denom before new after ea, sum)),
            )

  -- A successful registration of events, some of which are of received coins, reads each of those
  -- and raises the unlocked coins of every denom by what they hold of it together; it changes
  -- nothing else of the storage. Without such an event it changes nothing.
  pub register_received_coins_adds :
      (events : List ReplyEvent) (s : State) (out : State × Response)
      → register_received_coins is_alphabetic uint128_from_str env events s ≡ ok out
      → Registered is_alphabetic uint128_from_str env (coin_events events) s out
  unfolding register_received_coins
  register_received_coins_adds events s out h = register_events_adds (coin_events events) s out h
