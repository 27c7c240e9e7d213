-- ===== src/Migrations/Batches.antt =====
-- The batches that `ConfigV100::upgrade_stores` of contracts/hub/src/migrations.rs carries over.
use joe_liquid_staking.Prelude.{
  ℕ, ◌≡◌, refl, sym, ap, ◌∙◌, String, true, some, List, [], ◌∷◌, ◌++◌, map, ok, All, arith, ltb,
  ◌==◌,
}
use joe_liquid_staking.Types.{Cosmwasm, Env, Batch}
use joe_liquid_staking.Store.Order.{Ascending, IsEarlier, put-last}
use joe_liquid_staking.State.{State, save_batch}
use joe_liquid_staking.State.Order.{batch_before}
use joe_liquid_staking.Helpers.{get_denom_balance}
use joe_liquid_staking.Migrations.{BatchV100, upgraded, save_all, save_prev_denom, upgrade_stores}

append-one : (bs cs : List Batch) (b : Batch) → (bs ++ (b ∷ [])) ++ cs ≡ bs ++ (b ∷ cs)
append-one [] cs b = refl
append-one (x ∷ bs) cs b = ap (◌∷◌ x) (append-one bs cs b)

-- What stands before a value of an ascending list is before it.
All-before_one :
    (bs cs : List Batch) (b : Batch)
    → Ascending batch_before (bs ++ (b ∷ cs))
    → All (λ x. batch_before x b ≡ true) bs
All-before_one [] cs b h = tt
All-before_one (x ∷ bs) cs b h = (middle bs h.0, All-before_one bs cs b h.1)
  where
    middle :
        (ys : List Batch)
        → All (λ y. batch_before x y ≡ true) (ys ++ (b ∷ cs))
        → batch_before x b ≡ true
    middle [] all = all.0
    middle (y ∷ ys) all = middle ys all.1

-- A batch of the largest id is saved at the end.
save_batch-last :
    (b : Batch) (bs : List Batch)
    → All (λ x. batch_before x b ≡ true) bs
    → save_batch b bs ≡ bs ++ (b ∷ [])
unfolding save_batch
save_batch-last b bs all = put-last _ _ b bs (earlier bs all)
  where
    earlier :
        (ys : List Batch)
        → All (λ x. batch_before x b ≡ true) ys
        → All (IsEarlier (λ (x y : Batch). x.id == y.id) batch_before b) ys
    earlier [] all = tt
    earlier (y ∷ ys) all = ((ground arith, ground arith), earlier ys all.1)

save_all-append :
    (old : List BatchV100) (bs : List Batch)
    → Ascending batch_before (bs ++ map upgraded old)
    → save_all old bs ≡ bs ++ map upgraded old
unfolding save_all
save_all-append [] bs h = sym (append-nil bs)
  where
    append-nil : (ys : List Batch) → ys ++ [] ≡ ys
    append-nil [] = refl
    append-nil (y ∷ ys) = ap (◌∷◌ y) (append-nil ys)
save_all-append (v ∷ old) bs h =
    let last =
      save_batch-last (upgraded v) bs (All-before_one bs (map upgraded old) (upgraded v) h) in
    let joined = append-one bs (map upgraded old) (upgraded v) in
    rw last (save_all-append old (bs ++ (upgraded v ∷ [])) (rw joined h) ∙ joined)

map-Ascending :
    (old : List BatchV100)
    → Ascending (λ (v w : BatchV100). ltb v.id w.id) old
    → Ascending batch_before (map upgraded old)
unfolding upgraded
map-Ascending [] h = tt
map-Ascending (v ∷ old) h = (later old h.0, map-Ascending old h.1)
  where
    later :
        (ws : List BatchV100)
        → All (λ w. ltb v.id w.id ≡ true) ws
        → All (λ b. batch_before (upgraded v) b ≡ true) (map upgraded ws)
    later [] all = tt
    later (w ∷ ws) all = (all.0, later ws all.1)

-- The batch with the fields of an old one.
abbrev pub carried : BatchV100 → Batch
carried v = record {
  id = v.id;
  reconciled = v.reconciled;
  total_shares = v.total_shares;
  amount_unclaimed = v.native_token_unclaimed;
  est_unbond_end_time = v.est_unbond_end_time;
}

-- Where no batch is stored under the new key and the old batches have ascending ids, the upgrade
-- succeeds as soon as the denom and the validators are stored and the balance is known; the batches
-- are then the old ones, each with its own fields, in order, all validators are active, the
-- previous balance is the balance, and nothing else is changed.
pub upgrade_stores_carries :
    (cw : Cosmwasm) (env : Env) (old : List BatchV100) (s : State) (denom : String)
    (validators : List String) (balance : ℕ)
    → s.previous_batches ≡ []
    → Ascending (λ (v w : BatchV100). ltb v.id w.id) old
    → s.denom ≡ some denom
    → s.validators ≡ some validators
    → cw.query_balance env.contract denom ≡ ok balance
    → upgrade_stores cw env old s
      ≡ ok (record s {
        previous_batches = map carried old;
        validators_active = some validators;
        prev_denom = some balance;
      })
unfolding upgrade_stores save_prev_denom get_denom_balance upgraded
upgrade_stores_carries cw env old s denom validators balance fresh order denom_is validators_is
      balance_is =
    let saved = save_all-append old [] (map-Ascending old order) in
    rw denom_is (rw balance_is (rw (validators_is, fresh, saved) refl))
