-- ===== src/Execute/Manage/Owner.antt =====
-- Who may call the management handlers of contracts/hub/src/execute.rs, and how the ownership
-- changes hands.
use joe_liquid_staking.Prelude.{
  ℕ, ◌≡◌, ◌≢◌, refl, String, true, false, some, none, Result, ok, err, arith, bind_ok, ok-injective,
  load, load-eq-ok, str_eq, eq_iff, eq_refl, generic_err, ◌∙◌, ap, sym, Bool-cases, inl, inr, ◌>>◌,
  bind_parts,
}
use joe_liquid_staking.Types.{Cosmwasm, Env, Response}
use joe_liquid_staking.State.{State, assert_owner}
use joe_liquid_staking.Execute.Withdraw.{withdraw_unbonded_admin}
use joe_liquid_staking.Execute.Manage.{
  transfer_ownership, transfer_fee_account, add_validator, remove_validator, remove_validator_ex,
  pause_validator, unpause_validator, set_unbond_period, accept_ownership, update_fee, change_denom,
}

-- `assert_owner` passes the stored owner and nobody else.
pub assert_owner-eq-ok :
    (s : State) (sender : String) → assert_owner s sender ≡ ok tt → s.owner ≡ some sender
unfolding assert_owner
assert_owner-eq-ok s sender h = bind_ok (load s.owner) _ h λ owner eo h.
    let same : str_eq sender owner ≡ true = ground (arith, h) in
    load-eq-ok s.owner owner eo ∙ ap (λ (x : String). some x) (sym ((eq_iff sender owner).0 same))

-- What comes after `assert_owner` is reached by the owner.
owned :
    (s : State) (sender : String) (m : Result (State × Response)) {out : State × Response}
    → (assert_owner s sender >> m) ≡ ok out
    → assert_owner s sender ≡ ok tt
owned s sender m h = (bind_parts (assert_owner s sender) (λ _. m) h).1

-- The calls that are the owner's alone.
pub data Call : Type 0 where
  withdrawing_admin : Env → String → Call
  transferring_ownership : String → Call
  transferring_fee_account : String → String → Call
  adding_validator removing_validator_ex pausing_validator unpausing_validator : String → Call
  removing_validator : Env → String → Call
  setting_unbond_period updating_fee : ℕ → Call
  changing_denom : String → Call

-- The named account, and no other, can take the ownership.
abbrev pub Transferred : String → String → String → State → State × Response → Type 0
Transferred sender address taker s out =
    (s.owner ≡ some sender)
    × (out.0 ≡ record s { new_owner = some address })
    × ((taker ≢ address
          → accept_ownership taker out.0
            ≡ err (generic_err "unauthorized: sender is not new owner"))
        × ((final : State × Response) × (accept_ownership address out.0 ≡ ok final)
            × (final.0 ≡ record s { owner = some address; new_owner = none })))

module _ (cw : Cosmwasm) where
  abbrev pub perform : Call → String → State → Result (State × Response)
  perform (withdrawing_admin env receiver) sender s =
      withdraw_unbonded_admin cw env sender receiver s
  perform (transferring_ownership o) sender s = transfer_ownership cw sender o s
  perform (transferring_fee_account ty account) sender s =
      transfer_fee_account cw sender ty account s
  perform (adding_validator v) sender s = add_validator sender v s
  perform (removing_validator_ex v) sender s = remove_validator_ex sender v s
  perform (pausing_validator v) sender s = pause_validator sender v s
  perform (unpausing_validator v) sender s = unpause_validator sender v s
  perform (removing_validator env v) sender s = remove_validator cw env sender v s
  perform (setting_unbond_period period) sender s = set_unbond_period sender period s
  perform (updating_fee fee) sender s = update_fee sender fee s
  perform (changing_denom denom) sender s = change_denom sender denom s

  perform_owner_only :
      (c : Call) (sender : String) (s : State) (out : State × Response)
      → perform c sender s ≡ ok out
      → assert_owner s sender ≡ ok tt
  unfolding withdraw_unbonded_admin transfer_ownership transfer_fee_account add_validator
      remove_validator_ex pause_validator unpause_validator remove_validator set_unbond_period
      update_fee change_denom
  perform_owner_only (withdrawing_admin env receiver) sender s out h = owned s sender _ h
  perform_owner_only (transferring_ownership o) sender s out h = owned s sender _ h
  perform_owner_only (transferring_fee_account ty account) sender s out h = owned s sender _ h
  perform_owner_only (adding_validator v) sender s out h = owned s sender _ h
  perform_owner_only (removing_validator_ex v) sender s out h = owned s sender _ h
  perform_owner_only (pausing_validator v) sender s out h = owned s sender _ h
  perform_owner_only (unpausing_validator v) sender s out h = owned s sender _ h
  perform_owner_only (removing_validator env v) sender s out h = owned s sender _ h
  perform_owner_only (setting_unbond_period period) sender s out h = owned s sender _ h
  perform_owner_only (updating_fee fee) sender s out h = owned s sender _ h
  perform_owner_only (changing_denom denom) sender s out h = owned s sender _ h

  -- Nobody but the stored owner performs a management call: where another account, or any account
  -- while no owner is stored, sends one of them, it does not succeed.
  pub perform_rejects :
      (c : Call) (sender : String) (s : State) (out : State × Response)
      → s.owner ≢ some sender
      → perform c sender s ≢ ok out
  perform_rejects c sender s out other h =
      other (assert_owner-eq-ok s sender (perform_owner_only c sender s out h))

  accept_rejects :
      (taker sender address : String) (s : State)
      → s.owner ≡ some sender
      → taker ≢ address
      → accept_ownership taker (record s { new_owner = some address })
        ≡ err (generic_err "unauthorized: sender is not new owner")
  unfolding accept_ownership
  accept_rejects taker sender address s owner distinct =
      let other : str_eq taker address ≡ false = elim (Bool-cases (str_eq taker address)) [
        | inl e ↦ absurd (distinct ((eq_iff taker address).0 e))
        | inr e ↦ e
      ] in
      rw (owner, other) refl

  accept_eq :
      (sender address : String) (s : State)
      → s.owner ≡ some sender
      → (final : State × Response) × (accept_ownership address
            (record s { new_owner = some address })
          ≡ ok final)
        × (final.0 ≡ record s { owner = some address; new_owner = none })
  unfolding accept_ownership
  accept_eq sender address s owner = rw (owner, eq_refl address) (_, refl, refl)

  -- The ownership changes hands in two steps: after the owner's transfer the owner is as before,
  -- then the account it named, as the chain validates it, and no other can accept, and becomes the
  -- owner, with no new owner pending.
  pub transfer_then_accept :
      (sender other address taker : String) (s : State) (out : State × Response)
      → cw.addr_validate other ≡ ok address
      → transfer_ownership cw sender other s ≡ ok out
      → Transferred sender address taker s out
  unfolding transfer_ownership accept_ownership
  transfer_then_accept sender other address taker s out ea h =
      let owner = assert_owner-eq-ok s sender (owned s sender _ h) in
      bind_ok (assert_owner s sender) _ h λ _ _ h.
        bind_ok (cw.addr_validate other) _ h λ address' ea' h.
          let same : address' ≡ address = cc (ea, ea') in
          let stored : out.0 ≡ record s { new_owner = some address } =
            rw (← ok-injective h, same) refl in
          (
            owner,
            stored,
            (
              λ distinct. rw stored (accept_rejects taker sender address s owner distinct),
              rw stored (accept_eq sender address s owner),
            ),
          )
