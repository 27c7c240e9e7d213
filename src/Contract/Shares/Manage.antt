-- ===== src/Contract/Shares/Manage.antt =====
-- The handlers of contracts/hub/src/execute.rs that manage the hub without asking the chain, and the
-- shares that they burn.
use joe_liquid_staking.Prelude.{ℕ, ◌≡◌, String, ok, arith}
use joe_liquid_staking.Types.{Response, respond}
use joe_liquid_staking.State.{State}
use joe_liquid_staking.Execute.Manage.{
  add_validator, remove_validator_ex, pause_validator, unpause_validator, set_unbond_period,
  accept_ownership, update_fee,
}
use joe_liquid_staking.Contract.Shares.{NoBurn}

pub add_validator-NoBurn :
    (sender v : String) (s : State) (out : State × Response)
    → add_validator sender v s ≡ ok out
    → NoBurn s out
unfolding add_validator respond
add_validator-NoBurn sender v s out h = ground arith

pub remove_validator_ex-NoBurn :
    (sender v : String) (s : State) (out : State × Response)
    → remove_validator_ex sender v s ≡ ok out
    → NoBurn s out
unfolding remove_validator_ex respond
remove_validator_ex-NoBurn sender v s out h = ground arith

pub pause_validator-NoBurn :
    (sender v : String) (s : State) (out : State × Response)
    → pause_validator sender v s ≡ ok out
    → NoBurn s out
unfolding pause_validator respond
pause_validator-NoBurn sender v s out h = ground arith

pub unpause_validator-NoBurn :
    (sender v : String) (s : State) (out : State × Response)
    → unpause_validator sender v s ≡ ok out
    → NoBurn s out
unfolding unpause_validator respond
unpause_validator-NoBurn sender v s out h = ground arith

pub set_unbond_period-NoBurn :
    (sender : String) (period : ℕ) (s : State) (out : State × Response)
    → set_unbond_period sender period s ≡ ok out
    → NoBurn s out
unfolding set_unbond_period respond
set_unbond_period-NoBurn sender period s out h = ground arith

pub accept_ownership-NoBurn :
    (sender : String) (s : State) (out : State × Response)
    → accept_ownership sender s ≡ ok out
    → NoBurn s out
unfolding accept_ownership respond
accept_ownership-NoBurn sender s out h = ground arith

pub update_fee-NoBurn :
    (sender : String) (fee : ℕ) (s : State) (out : State × Response)
    → update_fee sender fee s ≡ ok out
    → NoBurn s out
unfolding update_fee respond
update_fee-NoBurn sender fee s out h = ground arith
