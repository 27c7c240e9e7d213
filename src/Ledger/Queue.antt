-- ===== src/Ledger/Queue.antt =====
-- `queue_unbond` keeps the books.
use joe_liquid_staking.Prelude.{
  ℕ, ◌+◌, ◌≡◌, refl, sym, ap, String, some, List, ok, arith, ◌==◌, if◌then◌else◌, unwrap_or,
  Option-cases, inl, inr, bind_ok, ok-injective, load, load-eq-ok, add128, fit-eq-ok, u128_mod,
  panic,
}
use mathlib.Core.Path.{subst}
use joe_liquid_staking.Types.{Env, PendingBatch, Batch, UnbondRequest, Response}
use joe_liquid_staking.State.{State, find_request, save_request}
use joe_liquid_staking.Execute.Unbond.{queue_unbond}
use joe_liquid_staking.Ledger.{IsBalanced, BooksOf, Balanced, shares_in}
use joe_liquid_staking.Ledger.Maps.{find_request-key, save_request-shares, save_request-one}

-- The request that `queue_unbond` raises.
abbrev pub raised : PendingBatch → String → List UnbondRequest → UnbondRequest
raised pending user requests =
    unwrap_or (find_request pending.id user requests)
      (record { id = pending.id; user = user; shares = 0 })

pub raised-key :
    (pending : PendingBatch) (user : String) (requests : List UnbondRequest)
    → ((raised pending user requests).id ≡ pending.id)
      × ((raised pending user requests).user ≡ user)
raised-key pending user requests = elim (Option-cases (find_request pending.id user requests)) [
  | inl e ↦ rw e (refl, refl)
  | inr (r, e) ↦ rw e (find_request-key pending.id user requests r e)
]

raised-shares :
    (pending : PendingBatch) (user : String) (requests : List UnbondRequest) (shares id : ℕ)
    → let r = raised pending user requests in
      shares_in id (save_request (record r { shares = shares }) requests)
        + (if pending.id == id then r.shares else 0)
      ≡ shares_in id requests + (if pending.id == id then shares else 0)
raised-shares pending user requests shares id =
    let r = raised pending user requests in
    let key = raised-key pending user requests in
    elim (Option-cases (find_request pending.id user requests)) [
      | inl e ↦ ground (arith, key, save_request-shares id (record r { shares = shares }) requests)
      | inr (x, e) ↦
          ground (arith, key, save_request-shares id (record r { shares = shares }) requests)
    ]

queued_books :
    (pending : PendingBatch) (batches : List Batch) (requests : List UnbondRequest) (user : String)
    (amount queued shares : ℕ)
    → IsBalanced pending batches requests
    → queued ≡ pending.usteak_to_burn + amount
    → shares ≡ (raised pending user requests).shares + amount
    → IsBalanced
        (record pending { usteak_to_burn = queued })
        batches
        (save_request (record (raised pending user requests) { shares = shares }) requests)
queued_books pending batches requests user amount queued shares books eq es = record {
  queued = ground (arith, raised-shares pending user requests shares pending.id, books.queued);
  later = λ id h. ground (arith, raised-shares pending user requests shares id, books.later id h);
  shared = λ id b e.
      ground
        (arith, raised-shares pending user requests shares id, books.shared id b e, books.fresh id);
  fresh = books.fresh;
  one_batch = books.one_batch;
  one_request = λ id u. save_request-one _ requests id u (books.one_request id u);
}

-- The storage after a successful `queue_unbond`.
pub queue_unbond-eq-ok :
    (env : Env) (user : String) (amount : ℕ) (s : State) {out : State × Response}
    → queue_unbond env user amount s ≡ ok out
    → (pending : PendingBatch) × (shares : ℕ) × (s.pending_batch ≡ some pending)
      × (shares ≡ (raised pending user s.unbond_requests).shares + amount)
      × (out.0 ≡ record s {
        pending_batch = some (record pending { usteak_to_burn = pending.usteak_to_burn + amount });
        unbond_requests =
            save_request
              (record (raised pending user s.unbond_requests) { shares = shares })
              s.unbond_requests;
      })
unfolding queue_unbond
queue_unbond-eq-ok env user amount s h = bind_ok (load s.pending_batch) _ h λ pending ep h1.
    bind_ok (add128 pending.usteak_to_burn amount) _ h1 λ queued eq h2.
      bind_ok (add128 (raised pending user s.unbond_requests).shares amount) _ h2 λ shares es h3.
        let qe = (fit-eq-ok u128_mod panic (pending.usteak_to_burn + amount) {y = queued} eq).0 in
        (
          pending,
          shares,
          load-eq-ok s.pending_batch pending ep,
          (fit-eq-ok u128_mod panic ((raised pending user s.unbond_requests).shares + amount)
              {y = shares} es).0,
          rw (← qe) (ap (λ (o : State × Response). o.0) (sym (ok-injective h3))),
        )

-- Queueing an unbonding keeps the books balanced.
pub queue_unbond-Balanced :
    (env : Env) (user : String) (amount : ℕ) (s : State) {out : State × Response}
    → Balanced s
    → queue_unbond env user amount s ≡ ok out
    → Balanced out.0
queue_unbond-Balanced env user amount s books h =
    let (pending, shares, ep, es, eo) = queue_unbond-eq-ok env user amount s h in
    rw eo (
      queued_books pending s.previous_batches s.unbond_requests user amount _ shares
        (subst (λ o. BooksOf o s.previous_batches s.unbond_requests) ep books) refl es)

-- What a queued unbonding adds.
abbrev pub Queued : ℕ → State → State × Response → Type 0
Queued amount s out =
    (pending : PendingBatch) × (s.pending_batch ≡ some pending)
    × (out.0.pending_batch
        ≡ some (record pending { usteak_to_burn = pending.usteak_to_burn + amount }))
    × ((id : ℕ)
        → shares_in id out.0.unbond_requests
          ≡ shares_in id s.unbond_requests + (if pending.id == id then amount else 0))

-- A successful `queue_unbond` raises the pending batch, and the shares that requests hold in it, by
-- the amount, and the shares in no other batch.
pub queue_unbond_adds :
    (env : Env) (user : String) (amount : ℕ) (s : State) {out : State × Response}
    → queue_unbond env user amount s ≡ ok out
    → Queued amount s out
queue_unbond_adds env user amount s h =
    let (pending, shares, ep, es, eo) = queue_unbond-eq-ok env user amount s h in
    (
      pending,
      ep,
      rw eo refl,
      λ id. rw eo (ground (arith, es, raised-shares pending user s.unbond_requests shares id)),
    )
