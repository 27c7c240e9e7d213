-- ===== src/Ledger/View.antt =====
-- The unbonding queue of contracts/hub/src as its users see it: how many shares each of them has in
-- each batch, and which batch is open. The maps, their order and the batches' amounts are forgotten.
use joe_liquid_staking.Prelude.{
  ℕ, ◌+◌, ◌≡◌, refl, ap, String, Bool, true, false, ◌&&◌, ◌||◌, Option, none, some, List, [], ◌∷◌,
  ok, arith, ◌==◌, str_eq, eq_iff, eq_refl, if◌then◌else◌, bind_ok, ok-injective, Bool-cases,
  Option-cases, inl, inr, ltb,
}
use mathlib.Core.Path.{fun_ext}
use joe_liquid_staking.Types.{Cosmwasm, IsCosmwasm, Env, PendingBatch, UnbondRequest, Response}
use joe_liquid_staking.Store.{measure}
use joe_liquid_staking.Store.Laws.{find-put}
use joe_liquid_staking.State.{State, find_batch, find_request, save_request, is_key}
use joe_liquid_staking.Execute.Unbond.{queue_unbond, submit_batch}
use joe_liquid_staking.Execute.Withdraw.{Claims, claim_request, claim_all, withdraw_unbonded}
use joe_liquid_staking.Ledger.Withdraw.{start, withdraw-eq-ok}
use joe_liquid_staking.Ledger.Payout.{find-remove_request}
use joe_liquid_staking.Ledger.Claims.{claim-eq-ok}
use joe_liquid_staking.Ledger.Submit.{submit_batch-eq-ok}
use joe_liquid_staking.Ledger.Queue.{queue_unbond-eq-ok, raised, raised-key}

-- The abstract queue.
pub record Queue : Type 0 where
  pub open_id : Option ℕ
  pub shares : ℕ → String → ℕ

-- The shares under a key of the map.
abbrev pub shares_of : List UnbondRequest → ℕ → String → ℕ
shares_of requests id user =
    measure (λ (r : UnbondRequest). r.shares) (find_request id user requests)

abbrev id_of : Option PendingBatch → Option ℕ
id_of none = none
id_of (some pending) = some pending.id

abbrev pub view : State → Queue
view s = record { open_id = id_of s.pending_batch; shares = shares_of s.unbond_requests }

-- What the abstract operations do to the shares.
abbrev pub raise : ℕ → String → ℕ → (ℕ → String → ℕ) → ℕ → String → ℕ
raise id user amount shares i u = shares i u + (if id == i && str_eq u user then amount else 0)

abbrev pub clear : String → (ℕ → Bool) → (ℕ → String → ℕ) → ℕ → String → ℕ
clear user gone shares i u = if str_eq u user && gone i then 0 else shares i u

pub find-save_request :
    (id : ℕ) (user : String) (r : UnbondRequest) (rs : List UnbondRequest)
    → find_request id user (save_request r rs)
      ≡ (if r.id == id && str_eq r.user user then some r else find_request id user rs)
unfolding find_request save_request
find-save_request id user r rs =
    find-put _ _ (is_key id user) r (λ x h. ground (arith, eq_iff r.user user))
      (λ x h k. ground (arith, eq_iff r.user user, eq_iff x.user r.user)) rs

raised-measure :
    (pending : PendingBatch) (user : String) (amount : ℕ) (rs : List UnbondRequest)
    → (raised pending user rs).shares + amount ≡ shares_of rs pending.id user + amount
raised-measure pending user amount rs = elim (Option-cases (find_request pending.id user rs)) [
  | inl e ↦ rw e refl
  | inr (x, e) ↦ rw e refl
]

shares-save :
    (pending : PendingBatch) (user : String) (amount : ℕ) (rs : List UnbondRequest) (i : ℕ)
    (u : String)
    → let r = raised pending user rs in
      shares_of (save_request (record r { shares = r.shares + amount }) rs) i u
      ≡ raise pending.id user amount (shares_of rs) i u
shares-save pending user amount rs i u =
    let r = raised pending user rs in
    let key = raised-key pending user rs in
    let saved = find-save_request i u (record r { shares = r.shares + amount }) rs in
    elim (Bool-cases (pending.id == i && str_eq u user)) [
      | inl hit ↦
          let same : pending.id ≡ i = ground arith in
          let owner : u ≡ user = (eq_iff u user).0 (ground arith) in
          let mine : (r.id == i && str_eq r.user u) ≡ true =
            rw (key.0, key.1) (ground (arith, same, owner, hit, eq_refl user)) in
          rw (saved, hit) (rw mine (rw (← same, owner) (raised-measure pending user amount rs)))
      | inr miss ↦
          let other : (r.id == i && str_eq r.user u) ≡ false =
            rw (key.0, key.1) (ground (arith, miss, eq_iff user u, eq_iff u user)) in
          rw (saved, miss) (rw other (omega arith))
    ]

module _ (cw : Cosmwasm) (env : Env) (s : State) (out : State × Response) where
  -- `queue_unbond` raises the shares of the receiver in the open batch.
  pub queue_unbond-view :
      (user : String) (amount : ℕ)
      → queue_unbond env user amount s ≡ ok out
      → (pending : PendingBatch) × (s.pending_batch ≡ some pending)
        × (view out.0 ≡ record {
          open_id = some pending.id;
          shares = raise pending.id user amount (view s).shares;
        })
  queue_unbond-view user amount h =
      let (pending, shares, ep, es, eo) = queue_unbond-eq-ok env user amount s h in
      (
        pending,
        ep,
        rw (eo, es)
            (ap (λ f. record { open_id = some pending.id; shares = f })
              (fun_ext λ i. fun_ext λ u. shares-save pending user amount s.unbond_requests i u)),
      )

  -- `submit_batch` opens the next batch.
  pub submit_batch-view :
      submit_batch cw env s ≡ ok out
      → (pending : PendingBatch) × (s.pending_batch ≡ some pending)
        × (view out.0 ≡ record (view s) { open_id = some (pending.id + 1) })
  submit_batch-view h =
      let done = submit_batch-eq-ok cw env s out h in
      (done.pending, done.loaded, rw (done.next, done.requests) refl)

-- What a part of the loop of a withdrawal does to the shares.
abbrev Cleared : String → Claims → Claims → Type 0
Cleared user c c' =
    (gone : ℕ → Bool) × ((id : ℕ) (u : String)
      → find_request id u c'.requests
        ≡ (if str_eq u user && gone id then none else find_request id u c.requests))

module _ {cw : Cosmwasm} (law : IsCosmwasm cw) (user : String) (time : ℕ) where
  claim_request-Cleared :
      (r : UnbondRequest) (c c' : Claims)
      → claim_request cw user time r c ≡ ok c'
      → Cleared user c c'
  unfolding claim_request
  claim_request-Cleared r c c' h = elim (Option-cases (find_batch r.id c.batches)) [
    | inl missing ↦ same (ok-injective (rw (missing, claim_request) at h))
    | inr (b, found) ↦
        let h = rw (found, claim_request) at h in
        elim (Bool-cases (b.reconciled && ltb b.est_unbond_end_time time)) [
          | inl due ↦
              let done = claim-eq-ok law user b r c c' (rw due at h) in
              (
                λ id. r.id == id,
                λ id u.
                    rw done.requests
                      (ground (arith, find-remove_request r.id id user u c.requests)),
              )
          | inr early ↦ same (ok-injective (rw early at h))
        ]
  ]
    where
      same : c ≡ c' → Cleared user c c'
      same e = (λ id. false, λ id u. rw (← e) (ground arith))

  pub claim_all-Cleared :
      (rs : List UnbondRequest) (c c' : Claims)
      → claim_all cw user time rs c ≡ ok c'
      → Cleared user c c'
  unfolding claim_all
  claim_all-Cleared [] c c' h = (λ id. false, λ id u. rw (← ok-injective h) (ground arith))
  claim_all-Cleared (r ∷ rs) c c' h = bind_ok (claim_request cw user time r c) _ h λ c1 e h.
      let (first, one) = claim_request-Cleared r c c1 e in
      let (rest, others) = claim_all-Cleared rs c1 c' h in
      (λ id. first id || rest id, λ id u. ground (arith, one id u, others id u))

measure-if :
    (test : Bool) (r : Option UnbondRequest)
    → measure (λ (x : UnbondRequest). x.shares) (if test then none else r)
      ≡ (if test then 0 else measure (λ (x : UnbondRequest). x.shares) r)
measure-if true r = refl
measure-if false r = refl

cleared-shares :
    (user : String) (gone : ℕ → Bool) (rs rs' : List UnbondRequest) (i : ℕ) (u : String)
    → find_request i u rs' ≡ (if str_eq u user && gone i then none else find_request i u rs)
    → shares_of rs' i u ≡ clear user gone (shares_of rs) i u
cleared-shares user gone rs rs' i u h =
    rw h (measure-if (str_eq u user && gone i) (find_request i u rs))

-- A withdrawal clears the user's shares in some batches.
pub withdraw_unbonded-view :
    {cw : Cosmwasm}
    → IsCosmwasm cw
    → (env : Env) (user receiver : String) (s : State) (out : State × Response)
    → withdraw_unbonded cw env user receiver s ≡ ok out
    → (gone : ℕ → Bool) × (view out.0
        ≡ record (view s) { shares = clear user gone (view s).shares })
unfolding start
withdraw_unbonded-view law env user receiver s out h =
    let (_, c, ec, _, eo, _, _) = withdraw-eq-ok law env user receiver s out h in
    let (gone, after) = claim_all-Cleared law user env.time _ _ c ec in
    (
      gone,
      rw eo (
          ap (λ f. record { open_id = id_of s.pending_batch; shares = f })
            (fun_ext λ i.
              fun_ext λ u. cleared-shares user gone s.unbond_requests c.requests i u (after i u))),
    )
