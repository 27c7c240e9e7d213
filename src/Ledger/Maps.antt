-- ===== src/Ledger/Maps.antt =====
-- What a save or a removal of a batch or a request does to searches, counts and shares.
use joe_liquid_staking.Prelude.{
  ℕ, ◌+◌, ◌≤◌, ◌≡◌, ◌≢◌, String, Bool, not, none, some, List, total, arith, ◌==◌, eq_iff,
  if◌then◌else◌, Option-cases, inl, inr,
}
use joe_liquid_staking.Types.{Batch, UnbondRequest}
use joe_liquid_staking.Store.{put-total, measure}
use joe_liquid_staking.Store.Laws.{
  count, count_of_find-none, find-some_test, find-put, retain-total, retain-total_le,
  find-retain_self, find-retain_ne,
}
use joe_liquid_staking.Ledger.{shares_in}
use joe_liquid_staking.State.{
  find_batch, save_batch, remove_batch, is_key, find_request, save_request, remove_request,
}

abbrev has_id : ℕ → Batch → Bool
has_id id b = b.id == id

pub find_batch-id : (id : ℕ) (bs : List Batch) (b : Batch) → find_batch id bs ≡ some b → b.id ≡ id
unfolding find_batch
find_batch-id id bs b h = ground (arith, find-some_test (has_id id) bs b h)

pub find-save_batch :
    (id : ℕ) (b : Batch) (bs : List Batch)
    → find_batch id (save_batch b bs) ≡ (if b.id == id then some b else find_batch id bs)
unfolding find_batch save_batch
find-save_batch id b bs =
    find-put _ _ (has_id id) b (λ x h. ground arith) (λ x h k. ground arith) bs

pub find-remove_batch_self : (id : ℕ) (bs : List Batch) → find_batch id (remove_batch id bs) ≡ none
unfolding find_batch remove_batch
find-remove_batch_self id bs = find-retain_self (has_id id) bs

pub find-remove_batch_ne :
    (id other : ℕ) (bs : List Batch)
    → other ≢ id
    → find_batch other (remove_batch id bs) ≡ find_batch other bs
unfolding find_batch remove_batch
find-remove_batch_ne id other bs ne =
    find-retain_ne (has_id other) (λ b. not (b.id == id)) (λ x h. ground arith) bs

-- A save keeps the measure of what it replaces out of a total over the batches.
pub save_batch-total :
    (f : Batch → ℕ) (b : Batch) (bs : List Batch)
    → total f (save_batch b bs) + measure f (find_batch b.id bs) ≡ total f bs + f b
unfolding save_batch find_batch
save_batch-total f b bs = put-total _ _ f b bs

pub remove_batch-total :
    (f : Batch → ℕ) (id : ℕ) (bs : List Batch)
    → count (λ b. b.id == id) bs ≤ 1
    → total f (remove_batch id bs) + measure f (find_batch id bs) ≡ total f bs
unfolding remove_batch find_batch
remove_batch-total f id bs one = retain-total (has_id id) f bs one

pub save_batch-one :
    (b : Batch) (bs : List Batch) (id : ℕ)
    → count (λ x. x.id == id) bs ≤ 1
    → count (λ x. x.id == id) (save_batch b bs) ≤ 1
unfolding find_batch
save_batch-one b bs id one = elim (Option-cases (find_batch b.id bs)) [
  | inl e ↦ ground (
    arith,
    save_batch-total (λ x. if x.id == id then 1 else 0) b bs,
    count_of_find-none (has_id b.id) bs,
  )
  | inr (x, e) ↦
      ground
        (arith, save_batch-total (λ x. if x.id == id then 1 else 0) b bs, find_batch-id b.id bs x)
]

pub remove_batch-one :
    (gone : ℕ) (bs : List Batch) (id : ℕ)
    → count (λ x. x.id == id) bs ≤ 1
    → count (λ x. x.id == id) (remove_batch gone bs) ≤ 1
unfolding remove_batch
remove_batch-one gone bs id one =
    omega (arith, retain-total_le (λ x. if x.id == id then 1 else 0) (λ b. not (b.id == gone)) bs)

pub find_request-key :
    (id : ℕ) (user : String) (rs : List UnbondRequest) (r : UnbondRequest)
    → find_request id user rs ≡ some r
    → (r.id ≡ id) × (r.user ≡ user)
unfolding find_request
find_request-key id user rs r h =
    ground (arith, find-some_test (is_key id user) rs r h, eq_iff r.user user)

save_request-total :
    (f : UnbondRequest → ℕ) (r : UnbondRequest) (rs : List UnbondRequest)
    → total f (save_request r rs) + measure f (find_request r.id r.user rs) ≡ total f rs + f r
unfolding save_request find_request
save_request-total f r rs = put-total _ _ f r rs

-- A save under the key of `r` where the search gives `old`.
pub save_request-shares :
    (id : ℕ) (r : UnbondRequest) (rs : List UnbondRequest)
    → shares_in id (save_request r rs)
        + (if r.id == id then measure (λ x. x.shares) (find_request r.id r.user rs) else 0)
      ≡ shares_in id rs + (if r.id == id then r.shares else 0)
save_request-shares id r rs = elim (Option-cases (find_request r.id r.user rs)) [
  | inl e ↦ ground (arith, save_request-total (λ x. if x.id == id then x.shares else 0) r rs)
  | inr (x, e) ↦ ground (
    arith,
    save_request-total (λ x. if x.id == id then x.shares else 0) r rs,
    find_request-key r.id r.user rs x e,
  )
]

pub save_request-one :
    (r : UnbondRequest) (rs : List UnbondRequest) (id : ℕ) (user : String)
    → count (is_key id user) rs ≤ 1
    → count (is_key id user) (save_request r rs) ≤ 1
unfolding find_request
save_request-one r rs id user one = elim (Option-cases (find_request r.id r.user rs)) [
  | inl e ↦ ground (
    arith,
    save_request-total (λ x. if is_key id user x then 1 else 0) r rs,
    count_of_find-none (is_key r.id r.user) rs,
    eq_iff r.user user,
  )
  | inr (x, e) ↦ ground (
    arith,
    save_request-total (λ x. if is_key id user x then 1 else 0) r rs,
    find_request-key r.id r.user rs x e,
    eq_iff r.user user,
    eq_iff x.user user,
  )
]

pub remove_request-one :
    (gone : ℕ) (owner : String) (rs : List UnbondRequest) (id : ℕ) (user : String)
    → count (is_key id user) rs ≤ 1
    → count (is_key id user) (remove_request gone owner rs) ≤ 1
unfolding remove_request
remove_request-one gone owner rs id user one = omega (
  arith,
  retain-total_le (λ x. if is_key id user x then 1 else 0) (λ x. not (is_key gone owner x)) rs,
)

-- The removal of the request under a key takes its shares out of its batch alone.
pub remove_request-shares :
    (id : ℕ) (user : String) (rs : List UnbondRequest) (r : UnbondRequest) (other : ℕ)
    → count (is_key id user) rs ≤ 1
    → find_request id user rs ≡ some r
    → shares_in other (remove_request id user rs) + (if id == other then r.shares else 0)
      ≡ shares_in other rs
unfolding find_request remove_request
remove_request-shares id user rs r other one h = ground (
  arith,
  retain-total (is_key id user) (λ x. if x.id == other then x.shares else 0) rs one,
  find_request-key id user rs r h,
)

pub find-remove_request_ne :
    (id other : ℕ) (user : String) (rs : List UnbondRequest)
    → other ≢ id
    → find_request other user (remove_request id user rs) ≡ find_request other user rs
unfolding find_request remove_request
find-remove_request_ne id other user rs ne =
    find-retain_ne (is_key other user) (λ r. not (is_key id user r)) (λ x h. ground arith) rs
