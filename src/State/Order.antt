-- ===== src/State/Order.antt =====
-- The key orders of the three maps of contracts/hub/src/state.rs, which its range queries follow.
use joe_liquid_staking.Prelude.{
  ℕ, String, Bool, ltb, ◌==◌, str_eq, eq_iff, List, arith, if◌then◌else◌, str_lt, str_lt_trans,
  str_lt_total,
}
use joe_liquid_staking.Types.{Batch, UnbondRequest}
use joe_liquid_staking.Store.Order.{Ascending, IsOrder, put-Ascending, retain-Ascending}
use joe_liquid_staking.State.{
  is_key, save_batch, remove_batch, save_request, remove_request, save_power,
}

abbrev pub batch_before : Batch → Batch → Bool
batch_before a b = ltb a.id b.id

-- By batch, then by user.
abbrev pub request_before : UnbondRequest → UnbondRequest → Bool
request_before a b = if a.id == b.id then str_lt a.user b.user else ltb a.id b.id

abbrev pub power_before : String × ℕ → String × ℕ → Bool
power_before a b = str_lt a.0 b.0

batch-IsOrder : IsOrder (λ (a b : Batch). a.id == b.id) batch_before
batch-IsOrder = record {
  trans = λ x y z h k. ground arith;
  total = λ x y h k. ground arith;
  right = λ x y z e h. ground arith;
  left = λ x y z e h. ground arith;
}

power-IsOrder : IsOrder (λ (a b : String × ℕ). str_eq a.0 b.0) power_before
power-IsOrder = record {
  trans = λ x y z h k. str_lt_trans x.0 y.0 z.0 h k;
  total = λ x y h k. str_lt_total x.0 y.0 h k;
  right = λ x y z e h. rw (← (eq_iff y.0 z.0).0 e) h;
  left = λ x y z e h. rw (← (eq_iff x.0 z.0).0 e) h;
}

request-IsOrder : IsOrder (λ (a b : UnbondRequest). is_key b.id b.user a) request_before
request-IsOrder = record {
  trans = λ x y z h k. ground (arith, str_lt_trans x.user y.user z.user);
  total = λ x y h k. ground (arith, str_lt_total x.user y.user);
  right = λ x y z e h. ground (arith, (eq_iff y.user z.user).0);
  left = λ x y z e h. ground (arith, (eq_iff x.user z.user).0);
}

pub save_batch-Ascending :
    (b : Batch) (bs : List Batch)
    → Ascending batch_before bs
    → Ascending batch_before (save_batch b bs)
unfolding save_batch
save_batch-Ascending b bs h = put-Ascending batch-IsOrder b bs h

pub remove_batch-Ascending :
    (id : ℕ) (bs : List Batch)
    → Ascending batch_before bs
    → Ascending batch_before (remove_batch id bs)
unfolding remove_batch
remove_batch-Ascending id bs h = retain-Ascending batch_before _ bs h

pub save_request-Ascending :
    (r : UnbondRequest) (rs : List UnbondRequest)
    → Ascending request_before rs
    → Ascending request_before (save_request r rs)
unfolding save_request
save_request-Ascending r rs h = put-Ascending request-IsOrder r rs h

pub remove_request-Ascending :
    (id : ℕ) (user : String) (rs : List UnbondRequest)
    → Ascending request_before rs
    → Ascending request_before (remove_request id user rs)
unfolding remove_request
remove_request-Ascending id user rs h = retain-Ascending request_before _ rs h

pub save_power-Ascending :
    (p : String × ℕ) (ps : List (String × ℕ))
    → Ascending power_before ps
    → Ascending power_before (save_power p ps)
unfolding save_power
save_power-Ascending p ps h = put-Ascending power-IsOrder p ps h
