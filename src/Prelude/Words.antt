-- ===== src/Prelude/Words.antt =====
-- Machine words as numbers with a range: u128 and u64 arithmetic under `overflow-checks = true`
-- (Cargo.toml), which panics where the result does not fit.
use Prim.Native.Nat.{ℕ, ◌+◌, ◌-◌, ◌/◌, ◌%◌, ◌^◌, ◌≤◌, ◌<◌}
use mathlib.Core.Path.{◌≡◌}
use native.Mathlib.Omega.{arith}
use joe_liquid_staking.Prelude.Tests.{ltb, leb, ◌==◌, if◌then◌else◌}
use joe_liquid_staking.Prelude.Results.{StdError, panic, overflow, Result, ok, err}

abbrev pub u64_mod : ℕ
u64_mod = 2 ^ 64

abbrev pub u128_mod : ℕ
u128_mod = 2 ^ 128

-- The value, if it fits the modulus `m`; else the given error.
unfoldable pub fit : ℕ → StdError → ℕ → Result ℕ
fit m e x = if ltb x m then ok x else err e

abbrev pub add128 : ℕ → ℕ → Result ℕ
add128 a b = fit u128_mod panic (a + b)

abbrev pub add64 : ℕ → ℕ → Result ℕ
add64 a b = fit u64_mod panic (a + b)

-- `-` on u128 and u64
unfoldable pub sub_word : ℕ → ℕ → Result ℕ
sub_word a b = if leb b a then ok (a - b) else err panic

unfoldable pub div_word : ℕ → ℕ → Result ℕ
div_word a b = if b == 0 then err panic else ok (a / b)

unfoldable pub rem_word : ℕ → ℕ → Result ℕ
rem_word a b = if b == 0 then err panic else ok (a % b)

-- `Uint128::checked_add`, `Uint64::checked_add`, and their errors.
abbrev pub checked_add128 : ℕ → ℕ → Result ℕ
checked_add128 a b = fit u128_mod overflow (a + b)

abbrev pub checked_add64 : ℕ → ℕ → Result ℕ
checked_add64 a b = fit u64_mod overflow (a + b)

unfoldable pub checked_sub : ℕ → ℕ → Result ℕ
checked_sub a b = if leb b a then ok (a - b) else err overflow

pub fit_eq : (m : ℕ) (e : StdError) (x : ℕ) → x < m → fit m e x ≡ ok x
unfolding fit
fit_eq m e x h = ground arith

pub fit-eq-ok : (m : ℕ) (e : StdError) (x : ℕ) {y : ℕ} → fit m e x ≡ ok y → (y ≡ x) × (x < m)
unfolding fit
fit-eq-ok m e x h = ground arith

pub sub_word_eq : (a b : ℕ) → b ≤ a → sub_word a b ≡ ok (a - b)
unfolding sub_word
sub_word_eq a b h = ground arith

pub sub_word-eq-ok : (a b : ℕ) {y : ℕ} → sub_word a b ≡ ok y → (y + b ≡ a) × (b ≤ a)
unfolding sub_word
sub_word-eq-ok a b h = ground arith

pub div_word_eq : (a b : ℕ) → 0 < b → div_word a b ≡ ok (a / b)
unfolding div_word
div_word_eq a b h = ground arith

pub rem_word_eq : (a b : ℕ) → 0 < b → rem_word a b ≡ ok (a % b)
unfolding rem_word
rem_word_eq a b h = ground arith

pub div_word-eq-ok : (a b y : ℕ) → div_word a b ≡ ok y → (0 < b) × (y ≡ a / b)
unfolding div_word
div_word-eq-ok a b y h = ground arith

pub rem_word-eq-ok : (a b y : ℕ) → rem_word a b ≡ ok y → (0 < b) × (y ≡ a % b)
unfolding rem_word
rem_word-eq-ok a b y h = ground arith
