-- ===== src/Prelude/Results.antt =====
-- `StdResult` of cosmwasm_std as a sum, with its monad. A panic (an overflow under
-- `overflow-checks`, an index out of range, a division by zero) aborts the transaction as an error
-- does, and is the error `panic`.
use mathlib.Core.Path.{◌≡◌, refl}
use mathlib.Core.Bool.{Bool, true, false}
use mathlib.Core.Option.{Option, none, some}
use mathlib.Core.List.{List, [], ◌∷◌}
use Prim.Native.String.{String}

-- A format argument of a message is left out of its text.
pub data StdError : Type 0 where
  generic_err : String → StdError
  not_found overflow invalid panic : StdError

pub data Result {ℓ} (Value : Type ℓ) : Type ℓ where
  err : StdError → Result Value
  ok : Value → Result Value

-- `if !test { return Err(..) }`
abbrev pub guard : Bool → StdError → Result (Unit {0})
guard false error = err error
guard true error = ok tt

-- `Option::ok_or`; also `Item::load`, with `not_found`.
abbrev pub ok_or {ℓ} : {Value : Type ℓ} → Option Value → StdError → Result Value
ok_or none error = err error
ok_or (some value) error = ok value

-- `Item::load`
abbrev pub load {ℓ} : {Value : Type ℓ} → Option Value → Result Value
load item = ok_or item StdError.not_found

-- `Option::unwrap_or`
abbrev pub unwrap_or {ℓ} : {Value : Type ℓ} → Option Value → Value → Value
unwrap_or none default = default
unwrap_or (some value) default = value

-- The operator `?`: the rest of the function runs on the value, and an error returns at once.
infixl 5 ◌>>=◌
abbrev pub ◌>>=◌ {ℓ κ} :
    {Value : Type ℓ} {Next : Type κ} → Result Value → (Value → Result Next) → Result Next
err error >>= rest = err error
ok value >>= rest = rest value

infixl 5 ◌>>◌
abbrev pub ◌>>◌ {ℓ} : {Next : Type ℓ} → Result (Unit {0}) → Result Next → Result Next
checked >> next = checked >>= λ done. next

-- A fallible map over a list: `collect::<StdResult<Vec<_>>>()`.
abbrev pub map_result {ℓ κ} :
    {Value : Type ℓ} {Next : Type κ} → (Value → Result Next) → List Value → Result (List Next)
map_result f [] = ok []
map_result f (value ∷ values) = do next ← f value; nexts ← map_result f values; ok (next ∷ nexts)

-- A chain that succeeds: its first part does, and the rest of the proof is a function of the value.
pub bind_ok {ℓ κ ι} :
    {Value : Type ℓ} {Next : Type κ} {Goal : Type ι} (first : Result Value)
    (rest : Value → Result Next) {out : Next}
    → (first >>= rest) ≡ ok out
    → ((value : Value) → first ≡ ok value → rest value ≡ ok out → Goal)
    → Goal
bind_ok (err error) rest h k = absurd (cc)
bind_ok (ok value) rest h k = k value refl h

-- The same with the value and the two equations as a tuple.
pub bind_parts {ℓ κ} :
    {Value : Type ℓ} {Next : Type κ} (first : Result Value) (rest : Value → Result Next)
    {out : Next}
    → (first >>= rest) ≡ ok out
    → (value : Value) × (first ≡ ok value) × (rest value ≡ ok out)
bind_parts first rest h = bind_ok first rest h λ value e e'. (value, e, e')

pub guard-eq-ok {ℓ} :
    {Next : Type ℓ} (test : Bool) (error : StdError) (next : Result Next) {out : Next}
    → (guard test error >> next) ≡ ok out
    → (test ≡ true) × (next ≡ ok out)
guard-eq-ok false error next h = cc
guard-eq-ok true error next h = (refl, h)

-- A chain of which the first part succeeds, and then the rest does.
pub continues {ℓ κ} :
    {V : Type ℓ} {W : Type κ} (r : Result V) {v : V} (f : V → Result W)
    → r ≡ ok v
    → (out : W) × (f v ≡ ok out)
    → (out : W) × ((r >>= f) ≡ ok out)
continues r f e (out, h) = (out, rw e h)

-- The same, with a result of which `P` holds.
pub continues_with {ℓ κ μ} :
    {V : Type ℓ} {W : Type κ} (P : W → Type μ) (r : Result V) {v : V} (f : V → Result W)
    → r ≡ ok v
    → (out : W) × (f v ≡ ok out) × P out
    → (out : W) × ((r >>= f) ≡ ok out) × P out
continues_with P r f e (out, h, p) = (out, rw e h, p)

pub ok-injective {ℓ} : {Value : Type ℓ} {x y : Value} → ok x ≡ ok y → x ≡ y
ok-injective h = cc

pub load-eq-ok {ℓ} :
    {Value : Type ℓ} (item : Option Value) (value : Value)
    → load item ≡ ok value
    → item ≡ some value
load-eq-ok none value h = cc
load-eq-ok (some stored) value h = cc
