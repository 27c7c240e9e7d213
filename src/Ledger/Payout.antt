-- ===== src/Ledger/Payout.antt =====
-- What `withdraw_unbonded` of contracts/hub/src/execute.rs should pay: for each request whose batch
-- can be claimed, its part of what the batch has unclaimed.
use joe_liquid_staking.Prelude.{
  ℕ, ◌+◌, ◌-◌, ◌*◌, ◌/◌, ◌≤◌, ◌≡◌, refl, String, Bool, false, not, ◌&&◌, Option, none, some, List,
  [], ◌∷◌, arith, total, find, ltb, ◌==◌, str_eq, eq_iff, if◌then◌else◌, Bool-cases, inl, inr,
}
use joe_liquid_staking.Types.{Batch, UnbondRequest}
use joe_liquid_staking.Store.Laws.{count, find-retain_self, find-retain_ne}
use joe_liquid_staking.State.{find_batch, find_request, remove_request, requests_of, is_key}
use joe_liquid_staking.Math.Reconcile.{unclaimed}
use joe_liquid_staking.Ledger.{shares_in}
use joe_liquid_staking.Ledger.Claims.{claimed}
use joe_liquid_staking.Ledger.Maps.{remove_request-shares, remove_batch-total}

-- A batch can be claimed when it is reconciled and past its end.
abbrev pub is_due : ℕ → Batch → Bool
is_due time b = b.reconciled && ltb b.est_unbond_end_time time

abbrev pub is_claimable : ℕ → Option Batch → Bool
is_claimable time none = false
is_claimable time (some b) = is_due time b

-- The part of a batch that is a request's, rounded down.
abbrev pub part_of : Batch → UnbondRequest → ℕ
part_of b r = b.amount_unclaimed * r.shares / b.total_shares

-- What a request is worth at a time, given its batch.
abbrev pub worth : ℕ → Option Batch → UnbondRequest → ℕ
worth time none r = 0
worth time (some b) r = if is_due time b then part_of b r else 0

-- What some requests are worth together.
abbrev pub payout : ℕ → List Batch → List UnbondRequest → ℕ
payout time batches requests = total (λ r. worth time (find_batch r.id batches) r) requests

-- The batch that is left when a request, if there is one, is paid.
abbrev pub paid_batch : ℕ → Option Batch → Option UnbondRequest → Option Batch
paid_batch time none request = none
paid_batch time (some b) none = some b
paid_batch time (some b) (some r) =
    if is_due time b
    then if (b.total_shares - r.shares) == 0 then none else some (claimed b r.shares (part_of b r))
    else some b

find-remove_request_self :
    (id : ℕ) (user : String) (rs : List UnbondRequest)
    → find_request id user (remove_request id user rs) ≡ none
unfolding find_request remove_request
find-remove_request_self id user rs = find-retain_self (is_key id user) rs

find-remove_request_other :
    (gone id : ℕ) (owner user : String) (rs : List UnbondRequest)
    → (gone == id && str_eq user owner) ≡ false
    → find_request id user (remove_request gone owner rs) ≡ find_request id user rs
unfolding find_request remove_request
find-remove_request_other gone id owner user rs h =
    find-retain_ne (is_key id user) (λ r. not (is_key gone owner r))
      (λ x k. ground (arith, eq_iff x.user user, eq_iff x.user owner, eq_iff user owner)) rs

-- A removal takes away the request under the key and no other.
pub find-remove_request :
    (gone id : ℕ) (owner user : String) (rs : List UnbondRequest)
    → find_request id user (remove_request gone owner rs)
      ≡ (if gone == id && str_eq user owner then none else find_request id user rs)
find-remove_request gone id owner user rs = elim (Bool-cases (gone == id && str_eq user owner)) [
  | inl e ↦
      let same : gone ≡ id = ground arith in
      let owned : user ≡ owner = (eq_iff user owner).0 (ground arith) in
      rw e (rw (same, owned) (find-remove_request_self id owner rs))
  | inr e ↦ rw e (find-remove_request_other gone id owner user rs e)
]

-- A removal leaves the requests of other users as they are.
pub requests_of-remove_request :
    (gone : ℕ) (owner user : String) (rs : List UnbondRequest)
    → str_eq user owner ≡ false
    → requests_of user (remove_request gone owner rs) ≡ requests_of user rs
unfolding requests_of remove_request
requests_of-remove_request gone owner user [] h = refl
requests_of-remove_request gone owner user (r ∷ rs) h = ground (
  arith,
  requests_of-remove_request gone owner user rs h,
  eq_iff r.user user,
  eq_iff r.user owner,
  eq_iff user owner,
)

pub find-requests_of :
    (id : ℕ) (user : String) (rs : List UnbondRequest)
    → find (λ r. r.id == id) (requests_of user rs) ≡ find_request id user rs
unfolding requests_of find_request
find-requests_of id user [] = refl
find-requests_of id user (r ∷ rs) = ground (arith, find-requests_of id user rs)

-- A request holds no more shares than its batch has.
pub request-le :
    (id : ℕ) (user : String) (rs : List UnbondRequest) (r : UnbondRequest)
    → count (is_key id user) rs ≤ 1
    → find_request id user rs ≡ some r
    → r.shares ≤ shares_in id rs
request-le id user rs r one h = ground (arith, remove_request-shares id user rs r id one h)

-- Two users' requests together hold no more shares than their batch has.
pub requests-le :
    (id : ℕ) (user other : String) (rs : List UnbondRequest) (r q : UnbondRequest)
    → count (is_key id user) rs ≤ 1
    → count (is_key id other) (remove_request id user rs) ≤ 1
    → str_eq other user ≡ false
    → find_request id user rs ≡ some r
    → find_request id other rs ≡ some q
    → q.shares + r.shares ≤ shares_in id rs
requests-le id user other rs r q one one' apart h k =
    let left = find-remove_request_other id id user other rs (ground arith) in
    ground (
      arith,
      remove_request-shares id user rs r id one h,
      request-le id other (remove_request id user rs) q one',
      left,
    )

-- A batch has no more unclaimed than all batches.
pub batch-le :
    (id : ℕ) (bs : List Batch) (b : Batch)
    → count (λ x. x.id == id) bs ≤ 1
    → find_batch id bs ≡ some b
    → b.amount_unclaimed ≤ unclaimed bs
batch-le id bs b one h = ground (arith, remove_batch-total (λ x. x.amount_unclaimed) id bs one)
