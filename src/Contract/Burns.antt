-- ===== src/Contract/Burns.antt =====
-- The burns that the hub of contracts/hub/src orders, over any sequence of calls, and the shares that
-- its account holds in the token.
use joe_liquid_staking.Prelude.{
  ℕ, ◌+◌, ◌-◌, ◌≤◌, ◌≡◌, ◌∙◌, Bool, String, some, ok, arith, Result, List, inl, inr,
}
use Prim.Native.Char.{Char}
use joe_liquid_staking.Types.{Cosmwasm, Env, MessageInfo, ExecuteMsg, InstantiateMsg, Response}
use joe_liquid_staking.State.{State, empty_state}
use joe_liquid_staking.Execute.Instantiate.{instantiate, register_steak_token, ReplyEvent}
use joe_liquid_staking.Execute.Reply.{register_received_coins}
use joe_liquid_staking.Execute.Reply.Received.{register_received_coins_adds}
use joe_liquid_staking.Contract.{execute}
use joe_liquid_staking.Contract.Shares.{burned}
use joe_liquid_staking.Contract.Covered.{queued, received, execute-Accounted}

-- The hub, and the shares of its account in the token.
pub record Account : Type 0 where
  pub hub : State
  pub held : ℕ

-- A step of the hub and the token. In a call the token first moves what a receive message says it
-- sent, and carries out the burns that the hub answers with; and anybody may give the hub shares.
pub data Step (cw : Cosmwasm) (token : String) : Account → Account → Type 0 where
  called :
      (env : Env) (info : MessageInfo) (msg : ExecuteMsg) (a : Account) (out : State × Response)
      → execute cw env info msg a.hub ≡ ok out
      → Step cw token a (record {
        hub = out.0;
        held = (a.held + received token info msg) - burned out.1.messages;
      })
  gained : (amount : ℕ) (a : Account) → Step cw token a (record a { held = a.held + amount })
  replied :
      (is_alphabetic : Char → Bool) (uint128_from_str : String → Result ℕ) (env : Env)
      (events : List ReplyEvent) (a : Account) (out : State × Response)
      → register_received_coins is_alphabetic uint128_from_str env events a.hub ≡ ok out
      → Step cw token a (record a { hub = out.0 })

pub data Run (cw : Cosmwasm) (token : String) (start : Account) : Account → Type 0 where
  started : Run cw token start start
  stepped : {a b : Account} → Run cw token start a → Step cw token a b → Run cw token start b

-- The hub knows the token, and its account holds what waits to be burned.
record IsCovered (token : String) (a : Account) : Type 0 where
  known : a.hub.steak_token ≡ some token
  covers : queued a.hub ≤ a.held

Step-IsCovered :
    {cw : Cosmwasm} {token : String} {a b : Account}
    → Step cw token a b
    → IsCovered token a
    → IsCovered token b
Step-IsCovered {cw} {token} (Step.called env info msg a out e) h =
    let done = execute-Accounted cw token env info a.hub out h.known msg e in
    record { known = done.token ∙ h.known; covers = omega (arith, done.shares, h.covers) }
Step-IsCovered (Step.gained amount a) h = record {
  known = h.known;
  covers = omega (arith, h.covers);
}
Step-IsCovered (Step.replied is_alphabetic uint128_from_str env events a out e) h =
    elim (register_received_coins_adds is_alphabetic uint128_from_str env events a.hub out e) [
      | inl same ↦ record { known = rw same.1 h.known; covers = rw same.1 h.covers }
      | inr (_, _, after, _, _, stored, _) ↦ record {
        known = rw stored h.known;
        covers = rw stored h.covers;
      }
    ]

Run-IsCovered :
    {cw : Cosmwasm} {token : String} {a b : Account}
    → IsCovered token a
    → Run cw token a b
    → IsCovered token b
Run-IsCovered h Run.started = h
Run-IsCovered h (Run.stepped run step) = Step-IsCovered step (Run-IsCovered h run)

instantiate-queued :
    (cw : Cosmwasm) (env : Env) (msg : InstantiateMsg) (out : State × Response)
    → instantiate cw env msg empty_state ≡ ok out
    → queued out.0 ≡ 0
unfolding instantiate
instantiate-queued cw env msg out h = ground arith

register-queued :
    (cw : Cosmwasm) (events : List ReplyEvent) (s : State) (out : State × Response)
    → register_steak_token cw events s ≡ ok out
    → out.0.pending_batch ≡ s.pending_batch
unfolding register_steak_token
register-queued cw events s out h = ground arith

-- After a successful `instantiate`, the
-- reply that registers the token, and any steps of the hub and the token, the burns of a call that
-- succeeds are at most what the hub's account holds, with what came with the call.
pub burns_covered :
    (cw : Cosmwasm) (token : String) (env : Env) (msg : InstantiateMsg) (events : List ReplyEvent)
    (created registered : State × Response) (m : Account)
    → instantiate cw env msg empty_state ≡ ok created
    → register_steak_token cw events created.0 ≡ ok registered
    → registered.0.steak_token ≡ some token
    → Run cw token (record { hub = registered.0; held = 0 }) m
    → (env' : Env) (info : MessageInfo) (call : ExecuteMsg) (out : State × Response)
    → execute cw env' info call m.hub ≡ ok out
    → burned out.1.messages ≤ m.held + received token info call
burns_covered cw token env msg events created registered m made known_token stored run env' info
      call out e =
    let start : IsCovered token (record { hub = registered.0; held = 0 }) = record {
      known = stored;
      covers =
          rw (register-queued cw events created.0 registered known_token)
            (omega (arith, instantiate-queued cw env msg created made));
    } in
    let now = Run-IsCovered start run in
    let done = execute-Accounted cw token env' info m.hub out now.known call e in
    omega (arith, done.shares, now.covers)
