-- ===== src/Token/Burn.antt =====
-- Who may burn through `execute` of contracts/token/src/lib.rs.
use joe_liquid_staking.Prelude.{
  ◌≡◌, refl, ◌⊎◌, inl, inr, String, Option, none, some, Result, ok, arith, bind_ok, load,
  load-eq-ok, str_eq, eq_iff, true, ◌∙◌, ◌↔◌, eq_refl,
}
use joe_liquid_staking.Token.{
  Cw20ExecuteMsg, burn, burn_from, other, assert_minter, check_message, execute,
}

module _ {Other Storage Response : Type 0} (token_info : Storage → Option (Option String))
    (cw20_execute : String → Cw20ExecuteMsg Other → Storage → Result (Storage × Response))
    (sender : String) (s : Storage) where
  -- What a message needs to get past the guard: a burn needs a token that has no minter or whose
  -- minter is the sender, `burn_from` never passes, and any other message always does.
  abbrev pub Passes : Cw20ExecuteMsg Other → Type 0
  Passes (burn amount) = (token_info s ≡ some none) ⊎ (token_info s ≡ some (some sender))
  Passes (burn_from owner amount) = ⊥
  Passes (other m) = Unit

  assert_minter-eq-ok :
      (mint : Option String)
      → token_info s ≡ some mint
      → assert_minter token_info cw20_execute sender s ≡ ok tt
      → (token_info s ≡ some none) ⊎ (token_info s ≡ some (some sender))
  unfolding assert_minter
  assert_minter-eq-ok none e h = inl e
  assert_minter-eq-ok (some minter) e h =
      let same : str_eq sender minter ≡ true = ground (arith, e, h) in
      inr (e ∙ rw ((eq_iff sender minter).0 same) refl)

  assert_minter_eq :
      (token_info s ≡ some none) ⊎ (token_info s ≡ some (some sender))
      → assert_minter token_info cw20_execute sender s ≡ ok tt
  unfolding assert_minter
  assert_minter_eq (inl e) = rw e refl
  assert_minter_eq (inr e) = rw (e, eq_refl sender) refl

  -- `execute` accepts exactly the messages that pass the guard and that cw20-base accepts, and does
  -- with them what cw20-base does: only the minter burns, or anybody where there is no minter, and
  -- nobody uses `burn_from`.
  pub execute_iff :
      (msg : Cw20ExecuteMsg Other) (out : Storage × Response)
      → (execute token_info cw20_execute sender msg s ≡ ok out)
        ↔ (Passes msg × (cw20_execute sender msg s ≡ ok out))
  unfolding execute check_message
  execute_iff (burn amount) out = (
    λ h. bind_ok (assert_minter token_info cw20_execute sender s) _ h λ _ eq h.
        bind_ok (load (token_info s)) _ eq
          λ mint em _. (assert_minter-eq-ok mint (load-eq-ok (token_info s) mint em) eq, h),
    λ h. rw (assert_minter_eq h.0) h.1,
  )
  execute_iff (burn_from owner amount) out = (λ h. absurd (cc), λ h. absurd h.0)
  execute_iff (other m) out = (λ h. (tt, h), λ h. h.1)
