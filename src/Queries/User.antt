-- ===== src/Queries/User.antt =====
-- `unbond_requests_by_user` of contracts/hub/src/queries.rs: the bound its `start_after` makes.
use joe_liquid_staking.Prelude.{
  ℕ, ◌^◌, ◌<◌, ◌≡◌, ◌≢◌, refl, sym, ap, ◌∙◌, String, Option, some, List, [], ◌∷◌, ◌++◌, map, ok,
  All, retain, take, ltb, leb, Bool-cases, inl, inr, bytes_lt, as_bytes, utf8, str_eq, eq_iff,
}
use Prim.Native.Char.{code}
use native.Mathlib.Nat.{div-eq_of_lt}
use joe_liquid_staking.Prelude.Bytes.Order.{be_bytes-lt}
use joe_liquid_staking.Types.{UnbondRequest, by_user_item}
use joe_liquid_staking.State.{State, requests_of}
use joe_liquid_staking.Queries.{
  limit_of, range_after, unbond_requests_by_user, after_raw, request_key,
}

-- A character has a first byte.
first_of : (c : ℕ) (bs : List ℕ) → (y : ℕ) × (ys : List ℕ) × (utf8 c ++ bs ≡ y ∷ ys)
unfolding utf8
first_of c bs = elim (Bool-cases (ltb c 0x80)) [
  | inl e ↦ rw e (_, _, refl)
  | inr e ↦ rw e (elim (Bool-cases (ltb c 0x800)) [
    | inl f ↦ rw f (_, _, refl)
    | inr f ↦ rw f (elim (Bool-cases (ltb c 0x10000)) [
      | inl g ↦ rw g (_, _, refl)
      | inr g ↦ rw g (_, _, refl)
    ])
  ])
]

first_byte : (u : String) → u ≢ "" → (y : ℕ) × (ys : List ℕ) × (as_bytes u ≡ y ∷ ys)
unfolding as_bytes
first_byte String.[] h = absurd (h refl)
first_byte (String.◌∷◌ c u) h = first_of (code c) (as_bytes u)

-- The bound lets pass the requests of the given id and the later ones.
after_raw-leb :
    (id : ℕ) (r : UnbondRequest)
    → id < 256 ^ 8
    → r.id < 256 ^ 8
    → r.user ≢ ""
    → after_raw id r ≡ leb id r.id
unfolding after_raw request_key bytes_lt
after_raw-leb id r small stored named =
    let (y, ys, e) = first_byte r.user named in
    let high = div-eq_of_lt small ∙ sym (div-eq_of_lt stored) in
    rw e (be_bytes-lt 8 id r.id y ys high)

retain-after_raw :
    (id : ℕ) (user : String) (rs : List UnbondRequest)
    → id < 256 ^ 8
    → user ≢ ""
    → All (λ r. r.id < 256 ^ 8) rs
    → retain (after_raw id) (requests_of user rs) ≡ retain (λ r. leb id r.id) (requests_of user rs)
unfolding requests_of
retain-after_raw id user [] small named stored = refl
retain-after_raw id user (r ∷ rs) small named stored =
    let rest = retain-after_raw id user rs small named stored.1 in
    elim (Bool-cases (str_eq r.user user)) [
      | inl e ↦
          let own : r.user ≢ "" = rw ((eq_iff r.user user).0 e) named in
          rw e (rw (after_raw-leb id r small stored.0 own, rest) refl)
      | inr e ↦ rw e rest
    ]

-- With a start of `id`, the answer to `UnbondRequestsByUser` is the first requests of the user whose
-- id is `id` or more, up to the limit, where the ids are 64-bit numbers and the user is not the
-- empty text: the request of `id` itself is in the answer.
pub unbond_requests_by_user_from :
    (user : String) (id : ℕ) (limit : Option ℕ) (s : State)
    → id < 256 ^ 8
    → user ≢ ""
    → All (λ r. r.id < 256 ^ 8) s.unbond_requests
    → unbond_requests_by_user user (some id) limit s
      ≡ ok (
          map by_user_item (
            take (limit_of limit) (retain (λ r. leb id r.id) (requests_of user s.unbond_requests))))
unfolding unbond_requests_by_user range_after
unbond_requests_by_user_from user id limit s small named stored =
    ap (λ rs. ok (map by_user_item (take (limit_of limit) rs)))
      (retain-after_raw id user s.unbond_requests small named stored)
