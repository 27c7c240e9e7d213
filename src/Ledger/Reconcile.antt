-- ===== src/Ledger/Reconcile.antt =====
-- `reconcile`: it keeps the books, and takes out of the batches that are due exactly the shortfall.
use joe_liquid_staking.Prelude.{
  ℕ, ◌+◌, ◌≤◌, ◌≡◌, refl, true, some, List, [], ◌∷◌, map, arith, total, All, ◌==◌, Bool-cases, inl,
  inr,
}
use joe_liquid_staking.Types.{PendingBatch, Batch, UnbondRequest}
use joe_liquid_staking.Store.{measure}
use joe_liquid_staking.Store.Laws.{count}
use joe_liquid_staking.State.{find_batch, save_batch}
use joe_liquid_staking.Math.Reconcile.{kept}
use joe_liquid_staking.Execute.Reconcile.{save_reconciled}
use joe_liquid_staking.Ledger.{IsBalanced}
use joe_liquid_staking.Ledger.Maps.{find-save_batch, save_batch-total, save_batch-one}

-- Each batch stands in the store under its id with the same shares.
abbrev pub Shadows : List Batch → List Batch → Type 0
Shadows bs store =
    All
      (λ (b : Batch).
        (old : Batch) × (find_batch b.id store ≡ some old) × (old.total_shares ≡ b.total_shares))
      bs

Shadows-save :
    (b old : Batch) (bs store : List Batch)
    → find_batch b.id store ≡ some old
    → old.total_shares ≡ b.total_shares
    → Shadows bs store
    → Shadows bs (save_batch b store)
Shadows-save b old [] store e same h = tt
Shadows-save b old (x ∷ bs) store e same h = (
  elim (Bool-cases (b.id == x.id)) [
    | inl hit ↦ (b, ground (arith, find-save_batch x.id b store), ground (arith, h.0))
    | inr miss ↦ (h.0.0, ground (arith, find-save_batch x.id b store, h.0), h.0.2)
  ],
  Shadows-save b old bs store e same h.1,
)

pub save_reconciled-books :
    (pending : PendingBatch) (bs store : List Batch) (requests : List UnbondRequest)
    → IsBalanced pending store requests
    → Shadows bs store
    → IsBalanced pending (save_reconciled bs store) requests
unfolding save_reconciled
save_reconciled-books pending [] store requests books h = books
save_reconciled-books pending (b ∷ bs) store requests books h =
    let (old, e, same) = h.0 in
    let b' = record b { reconciled = true } in
    save_reconciled-books pending bs (save_batch b' store) requests
      (record {
        queued = books.queued;
        later = books.later;
        shared = λ id c ec.
            ground (
              arith,
              find-save_batch id b' store,
              books.shared b.id old e,
              books.shared id c,
              same,
            );
        fresh = λ id le.
            ground (arith, find-save_batch id b' store, books.fresh id le, books.fresh b.id, e);
        one_batch = λ id. save_batch-one b' store id (books.one_batch id);
        one_request = books.one_request;
      })
      (Shadows-save b' old bs store e same h.1)

abbrev pub Apart : List Batch → Type 0
Apart bs = (id : ℕ) → count (λ (b : Batch). b.id == id) bs ≤ 1

abbrev marked : Batch → Batch
marked b = record b { reconciled = true }

module _ (f : Batch → ℕ) where
  -- What the store measures under the ids of a list.
  abbrev pub held : List Batch → List Batch → ℕ
  held bs store = total (λ b. measure f (find_batch b.id store)) bs

  held-save :
      (b : Batch) (bs store : List Batch)
      → count (λ (x : Batch). x.id == b.id) bs ≡ 0
      → held bs (save_batch b store) ≡ held bs store
  held-save b [] store h = refl
  held-save b (x ∷ bs) store h = ground (arith, find-save_batch x.id b store, held-save b bs store)

  pub save_reconciled-total :
      (bs store : List Batch)
      → Apart bs
      → total f (save_reconciled bs store) + held bs store
        ≡ total f store + total (λ b. f (marked b)) bs
  unfolding save_reconciled
  save_reconciled-total [] store apart = omega arith
  save_reconciled-total (b ∷ bs) store apart = omega (
    arith,
    save_reconciled-total bs (save_batch (marked b) store) (λ id. omega (arith, apart id)),
    held-save (marked b) bs store (ground (arith, apart b.id)),
    save_batch-total f (marked b) store,
  )

  -- Lists with the same ids, shares and end times agree on what only the ids decide.
  pub kept-held :
      (store bs bs' : List Batch) → map kept bs' ≡ map kept bs → held bs' store ≡ held bs store
  kept-held store [] [] h = refl
  kept-held store [] (b' ∷ bs') h = cc
  kept-held store (b ∷ bs) [] h = cc
  kept-held store (b ∷ bs) (b' ∷ bs') h = ground (arith, h, kept-held store bs bs' (cc))

-- A reconciled batch stands in the store under the id.
abbrev pub Marked : List Batch → ℕ → Type 0
Marked store id = (c : Batch) × (find_batch id store ≡ some c) × (c.reconciled ≡ true)

Marked-save :
    (b : Batch) (store : List Batch) (id : ℕ)
    → b.reconciled ≡ true
    → Marked store id
    → Marked (save_batch b store) id
Marked-save b store id done (c, e, m) = elim (Bool-cases (b.id == id)) [
  | inl hit ↦ (b, ground (arith, find-save_batch id b store), done)
  | inr miss ↦ (c, ground (arith, find-save_batch id b store), m)
]

Marked-save_reconciled :
    (bs store : List Batch) (id : ℕ) → Marked store id → Marked (save_reconciled bs store) id
unfolding save_reconciled
Marked-save_reconciled [] store id m = m
Marked-save_reconciled (b ∷ bs) store id m =
    Marked-save_reconciled bs _ id (Marked-save (record b { reconciled = true }) store id refl m)

pub save_reconciled-Marked :
    (bs store : List Batch) → All (λ (b : Batch). Marked (save_reconciled bs store) b.id) bs
unfolding save_reconciled
save_reconciled-Marked [] store = tt
save_reconciled-Marked (b ∷ bs) store =
    let b' = record b { reconciled = true } in
    (
      Marked-save_reconciled bs (save_batch b' store) b.id
          (b', ground (arith, find-save_batch b.id b' store), refl),
      save_reconciled-Marked bs (save_batch b' store),
    )

-- Lists with the same ids, shares and end times agree on what only these decide.
module _ (store : List Batch) where
  pub kept-Shadows :
      (bs bs' : List Batch) → map kept bs' ≡ map kept bs → Shadows bs store → Shadows bs' store
  kept-Shadows [] [] h s = tt
  kept-Shadows [] (b' ∷ bs') h s = absurd (cc)
  kept-Shadows (b ∷ bs) [] h s = absurd (cc)
  kept-Shadows (b ∷ bs) (b' ∷ bs') h s =
      ((s.0.0, ground (arith, h, s.0), ground (arith, h, s.0)), kept-Shadows bs bs' (cc) s.1)

  pub kept-Marked :
      (bs bs' : List Batch)
      → map kept bs' ≡ map kept bs
      → All (λ (b : Batch). Marked store b.id) bs'
      → All (λ (b : Batch). Marked store b.id) bs
  kept-Marked [] [] h m = tt
  kept-Marked [] (b' ∷ bs') h m = tt
  kept-Marked (b ∷ bs) [] h m = absurd (cc)
  kept-Marked (b ∷ bs) (b' ∷ bs') h m =
      ((m.0.0, ground (arith, h, m.0), m.0.2), kept-Marked bs bs' (cc) m.1)

pub kept-Apart : (bs bs' : List Batch) → map kept bs' ≡ map kept bs → Apart bs → Apart bs'
kept-Apart bs bs' h apart id = rw (count_ids bs bs' h) (apart id)
  where
    count_ids :
        (xs ys : List Batch)
        → map kept ys ≡ map kept xs
        → count (λ (b : Batch). b.id == id) ys ≡ count (λ (b : Batch). b.id == id) xs
    count_ids [] [] e = refl
    count_ids [] (y ∷ ys) e = cc
    count_ids (x ∷ xs) [] e = cc
    count_ids (x ∷ xs) (y ∷ ys) e = ground (arith, e, count_ids xs ys (cc))
