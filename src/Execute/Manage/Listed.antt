-- ===== src/Execute/Manage/Listed.antt =====
-- What the handlers of contracts/hub/src/execute.rs do to the lists of validators.
use joe_liquid_staking.Prelude.{
  ◌≡◌, refl, String, true, false, not, some, List, [], ◌∷◌, ◌++◌, ok, arith, bind_ok, ok-injective,
  guard-eq-ok, load, load-eq-ok, eq_refl, Bool-cases, inl, inr,
}
use mathlib.Core.Path.{subst}
use joe_liquid_staking.Types.{Cosmwasm, Env, Response}
use joe_liquid_staking.Helpers.{query_delegation, query_delegations, get_denom_balance}
use joe_liquid_staking.Math.{compute_redelegations_for_removal}
use joe_liquid_staking.State.{State, assert_owner}
use joe_liquid_staking.Execute.Manage.{
  contains, without, activate, add_validator, remove_validator, pause_validator, unpause_validator,
}

contains-append : (vs : List String) (v : String) → contains (vs ++ (v ∷ [])) v ≡ true
contains-append [] v = rw (eq_refl v) refl
contains-append (w ∷ ws) v = rw (contains-append ws v) (ground arith)

contains-activate : (vs : List String) (v : String) → contains (activate vs v) v ≡ true
unfolding activate
contains-activate vs v = elim (Bool-cases (contains vs v)) [
  | inl e ↦ rw (e, e) refl
  | inr e ↦ rw e (contains-append vs v)
]

contains-without : (vs : List String) (v : String) → contains (without vs v) v ≡ false
contains-without [] v = refl
contains-without (w ∷ ws) v = ground (arith, contains-without ws v)

-- Which validators a storage lists, and which of them it has active.
abbrev pub Lists : State → List String → List String → Type 0
Lists s listed active = (s.validators ≡ some listed) × (s.validators_active ≡ some active)

-- The validator is off the list and among the active ones.
abbrev pub Moved : String → State × Response → Type 0
Moved v out =
    (listed : List String) × (active : List String) × Lists out.0 listed active
    × (contains listed v ≡ false)
    × (contains active v ≡ true)

-- A successful removal takes the validator off the list, but leaves it among the active validators:
-- `activate` puts it there where it was not.
pub remove_validator_activates :
    (cw : Cosmwasm) (env : Env) (sender v : String) (s : State) (out : State × Response)
    → remove_validator cw env sender v s ≡ ok out
    → Moved v out
unfolding remove_validator
remove_validator_activates cw env sender v s out h = bind_ok (assert_owner s sender) _ h λ _ _ h.
    bind_ok (load s.denom) _ h λ denom _ h. bind_ok (load s.validators) _ h λ listed el h.
      let (_, h) = guard-eq-ok (contains listed v) _ _ h in
      bind_ok (load s.validators_active) _ h λ active ea h.
        bind_ok (query_delegations cw (without listed v) env.contract denom) _ h λ ds _ h.
          bind_ok (query_delegation cw v env.contract denom) _ h λ d _ h.
            bind_ok (compute_redelegations_for_removal d ds denom) _ h λ rs _ h.
              bind_ok (get_denom_balance cw env.contract denom) _ h λ balance _ h. (
                without listed v,
                activate active v,
                subst (λ (r : State × Response). Lists r.0 (without listed v) (activate active v))
                    (ok-injective h) (refl, refl),
                contains-without listed v,
                contains-activate active v,
              )

-- The validator is new on the list and among the active ones.
abbrev pub Added : String → State → State × Response → Type 0
Added v s out =
    (before : List String) × (listed : List String) × (active : List String) × (s.validators
      ≡ some before)
    × (contains before v ≡ false)
    × Lists out.0 listed active
    × (contains listed v ≡ true)
    × (contains active v ≡ true)

-- A successful addition is of a validator that was not listed, and lists and activates it.
pub add_validator_activates :
    (sender v : String) (s : State) (out : State × Response)
    → add_validator sender v s ≡ ok out
    → Added v s out
unfolding add_validator
add_validator_activates sender v s out h = bind_ok (assert_owner s sender) _ h λ _ _ h.
    bind_ok (load s.validators) _ h λ before eb h.
      let (fresh, h) = guard-eq-ok (not (contains before v)) _ _ h in
      bind_ok (load s.validators_active) _ h λ active ea h. (
        before,
        before ++ (v ∷ []),
        activate active v,
        load-eq-ok s.validators before eb,
        ground arith,
        subst (λ (r : State × Response). Lists r.0 (before ++ (v ∷ [])) (activate active v))
            (ok-injective h) (refl, refl),
        contains-append before v,
        contains-activate active v,
      )

unpause_eq :
    (sender v : String) (s : State) (active : List String)
    → assert_owner s sender ≡ ok tt
    → contains active v ≡ false
    → (final : State × Response) × (unpause_validator sender v
          (record s { validators_active = some active })
        ≡ ok final)
      × (final.0 ≡ record s { validators_active = some (active ++ (v ∷ [])) })
unfolding unpause_validator activate assert_owner
unpause_eq sender v s active owner gone = rw (owner, gone) (_, refl, refl)

-- The validator is paused, and can be unpaused.
abbrev pub Paused : String → String → State → State × Response → Type 0
Paused sender v s out =
    (active : List String) × (s.validators_active ≡ some active)
    × (contains active v ≡ true)
    × (contains (without active v) v ≡ false)
    × (out.0 ≡ record s { validators_active = some (without active v) })
    × ((final : State × Response) × (unpause_validator sender v out.0 ≡ ok final)
        × (final.0 ≡ record s { validators_active = some (without active v ++ (v ∷ [])) }))

-- Pausing takes an active validator off the active ones and no other; when the owner unpauses it
-- afterwards that succeeds and puts it back at their end. Neither changes the list of validators.
pub pause_then_unpause :
    (sender v : String) (s : State) (out : State × Response)
    → pause_validator sender v s ≡ ok out
    → Paused sender v s out
unfolding pause_validator
pause_then_unpause sender v s out h = bind_ok (assert_owner s sender) _ h λ _ eo h.
    bind_ok (load s.validators_active) _ h λ active ea h.
      let (present, h) = guard-eq-ok (contains active v) _ _ h in
      let stored : out.0 ≡ record s { validators_active = some (without active v) } =
        rw (← ok-injective h) refl in
      (
        active,
        load-eq-ok s.validators_active active ea,
        present,
        contains-without active v,
        stored,
        rw stored (unpause_eq sender v s (without active v) eo (contains-without active v)),
      )
