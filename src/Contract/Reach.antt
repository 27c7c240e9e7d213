-- ===== src/Contract/Reach.antt =====
-- The storages that the entry points of contracts/hub/src/contract.rs reach are sound.
use joe_liquid_staking.Prelude.{
  ℕ, Bool, Bool-cases, ◌==◌, sym, inl, inr, Result, ◌≡◌, refl, String, List, ok, arith, bind_ok,
  ok-injective, guard-eq-ok, leb, leb→le, ok_or, add64,
}
use joe_liquid_staking.Types.{
  Cosmwasm, IsCosmwasm, Env, MessageInfo, ExecuteMsg, InstantiateMsg, Response, decimal_fractional,
  fee_type_from_str,
}
use joe_liquid_staking.State.{State, empty_state, find_batch}
use joe_liquid_staking.Execute.Instantiate.{
  instantiate, register_steak_token, reply_instantiate_token, ReplyEvent,
}
use joe_liquid_staking.Contract.{execute}
use joe_liquid_staking.Contract.Frame
use joe_liquid_staking.Contract.Invariant.{IsSound, IsSound-Same}
use mathlib.Core.Path.{subst}
use Prim.Native.Char.{Char}
use joe_liquid_staking.Execute.Bond.{reply_register_received_coins}
use joe_liquid_staking.Execute.Reply.{register_received_coins, reply}
use joe_liquid_staking.Execute.Reply.Received.{register_received_coins_adds}
use joe_liquid_staking.Contract.Kept.{execute-IsSound}

-- One call of the hub: a message that `execute` accepts, or a reply, whatever `is_alphabetic` and
-- `Uint128::from_str` answer.
pub data Step (cw : Cosmwasm) : State → State → Type 0 where
  executed :
      (env : Env) (info : MessageInfo) (msg : ExecuteMsg) (s : State) (out : State × Response)
      → execute cw env info msg s ≡ ok out
      → Step cw s out.0
  replied :
      (is_alphabetic : Char → Bool) (uint128_from_str : String → Result ℕ) (env : Env) (id : ℕ)
      (events : List ReplyEvent) (s : State) (out : State × Response)
      → reply is_alphabetic uint128_from_str cw env id events s ≡ ok out
      → Step cw s out.0

-- The storages that follow a storage.
pub data Reach (cw : Cosmwasm) (start : State) : State → Type 0 where
  started : Reach cw start start
  step : {s t : State} → Reach cw start s → Step cw s t → Reach cw start t

registered-IsSound :
    (cw : Cosmwasm) (events : List ReplyEvent) (s : State) (out : State × Response)
    → IsSound s
    → register_steak_token cw events s ≡ ok out
    → IsSound out.0
unfolding register_steak_token
registered-IsSound cw events s out h e = IsSound-Same s out.0 (ground arith) h

module _ (is_alphabetic : Char → Bool) (uint128_from_str : String → Result ℕ) (cw : Cosmwasm)
    (env : Env) (events : List ReplyEvent) (s : State) (out : State × Response)
    (h : IsSound s) where
  received-IsSound :
      register_received_coins is_alphabetic uint128_from_str env events s ≡ ok out → IsSound out.0
  received-IsSound e =
      elim (register_received_coins_adds is_alphabetic uint128_from_str env events s out e) [
        | inl same ↦ subst (λ (t : State). IsSound t) (sym same.1) h
        | inr (_, _, after, _, _, stored, _) ↦
            IsSound-Same s out.0
              (subst (λ (t : State). Frame.SameQueue s t × Frame.SameNumbers s t) (sym stored)
                (ground arith))
              h
      ]

  reply-IsSound :
      (id : ℕ) → reply is_alphabetic uint128_from_str cw env id events s ≡ ok out → IsSound out.0
  unfolding reply
  reply-IsSound id e = elim (Bool-cases (id == reply_instantiate_token)) [
    | inl first ↦ registered-IsSound cw events s out h (rw first at e)
    | inr other ↦ elim (Bool-cases (id == reply_register_received_coins)) [
      | inl second ↦ received-IsSound (rw (other, second) at e)
      | inr neither ↦ absurd (cc (rw (other, neither) at e))
    ]
  ]

pub Step-IsSound :
    {cw : Cosmwasm} → IsCosmwasm cw → {s t : State} → Step cw s t → IsSound s → IsSound t
Step-IsSound law (Step.executed env info msg s out e) h = execute-IsSound law env info s out h msg e
Step-IsSound {cw} law (Step.replied is_alphabetic uint128_from_str env id events s out e) h =
    reply-IsSound is_alphabetic uint128_from_str cw env events s out h id e

-- `instantiate` makes a sound storage of the empty one.
pub instantiate-IsSound :
    (cw : Cosmwasm) (env : Env) (msg : InstantiateMsg) (out : State × Response)
    → instantiate cw env msg empty_state ≡ ok out
    → IsSound out.0
unfolding instantiate find_batch
instantiate-IsSound cw env msg out e =
    let (within, e) = guard-eq-ok (leb msg.max_fee_amount decimal_fractional) _ _ e in
    let (fee, e) = guard-eq-ok (leb msg.fee_amount msg.max_fee_amount) _ _ e in
    let max = leb→le msg.max_fee_amount decimal_fractional within in
    let rate = leb→le msg.fee_amount msg.max_fee_amount fee in
    bind_ok (ok_or (fee_type_from_str msg.fee_account_type) _) _ e λ fee_type _ e.
      bind_ok (cw.addr_validate msg.owner) _ e λ owner _ e.
        bind_ok (cw.addr_validate msg.fee_account) _ e λ fee_account _ e.
          bind_ok (add64 env.time msg.epoch_period) _ e λ start _ e. rw (← ok-injective e) (record {
            books = record {
              queued = refl;
              later = λ id h. refl;
              shared = λ id b h. cc;
              fresh = λ id h. refl;
              one_batch = λ id. omega arith;
              one_request = λ id user. omega arith;
            };
            order = (tt, tt);
            fees = (rate, max);
            difficulty = omega arith;
            powers = refl;
            powers_order = tt;
          })

Reach-IsSound :
    {cw : Cosmwasm} → IsCosmwasm cw → {s t : State} → IsSound s → Reach cw s t → IsSound t
Reach-IsSound law h Reach.started = h
Reach-IsSound law h (Reach.step r st) = Step-IsSound law st (Reach-IsSound law h r)

-- Every storage that the hub can reach is sound: after a successful `instantiate` and any sequence
-- of successful calls of `execute` and of `reply`, by any callers, each batch counts exactly the
-- shares that the requests hold in it, no batch or request is ahead of the pending batch, no key is
-- stored twice, the maps are in key order, the fee is at most the largest fee and that is at most 1,
-- the mining difficulty is at least 1, and the validators' mining powers add up to the total.
pub reachable-IsSound :
    {cw : Cosmwasm}
    → IsCosmwasm cw
    → (env : Env) (msg : InstantiateMsg) (out : State × Response) (t : State)
    → instantiate cw env msg empty_state ≡ ok out
    → Reach cw out.0 t
    → IsSound t
reachable-IsSound {cw} law env msg out t e r =
    Reach-IsSound law (instantiate-IsSound cw env msg out e) r
