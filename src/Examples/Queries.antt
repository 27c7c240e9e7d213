-- ===== src/Examples/Queries.antt =====
-- The queries of contracts/hub/src/queries.rs on the concrete storage.
use joe_liquid_staking.Prelude.{refl, some, none, [], ◌∷◌, map, take, retain, ok, arith, leb, ◌≡◌}
use joe_liquid_staking.Types.{by_batch_item, by_user_item}
use joe_liquid_staking.Queries.{in_batch, power_item, limit_of, unbond_requests_by_user}
use joe_liquid_staking.Queries.User.{unbond_requests_by_user_from}
use joe_liquid_staking.Queries.Walks.{walk_batches, walk_powers, walk_requests, walks_cover}
use joe_liquid_staking.State.{requests_of}
use joe_liquid_staking.Examples.{chain, storage, batches, requests}
use joe_liquid_staking.Examples.Contract.{storage-IsSound}

-- Pages of one item.
walks_cover_example :
    (walk_batches (some 1) 5 storage ≡ ok batches)
    × (walk_powers (some 1) 5 storage ≡ ok (map power_item (("v1", 3) ∷ ("v2", 4) ∷ [])))
    × (walk_requests chain 1 (some 1) 5 storage ≡ ok (map by_batch_item (in_batch 1 requests)))
unfolding limit_of in_batch
walks_cover_example =
    walks_cover chain storage (some 1) 5 1 storage-IsSound (refl, (refl, (refl, (refl, tt))))
      (omega arith) (omega arith) (omega arith) (omega arith)

-- Alice has requests in the batches 1 and 2; from 2 on the answer has that of 2.
unbond_requests_by_user_from_example :
    unbond_requests_by_user "alice" (some 2) none storage
    ≡ ok (
        map by_user_item
          (take (limit_of none) (retain (λ r. leb 2 r.id) (requests_of "alice" requests))))
unbond_requests_by_user_from_example =
    unbond_requests_by_user_from "alice" 2 none storage (omega arith) (λ e. cc e)
      (omega arith, (omega arith, (omega arith, (omega arith, tt))))
