-- ===== src/Prelude/Bytes/Order.antt =====
-- The order of big-endian bytes is that of the numbers.
use joe_liquid_staking.Prelude.{
  ℕ, zero, suc, ◌/◌, ◌^◌, ◌≤◌, ◌≡◌, sym, List, ◌∷◌, ◌++◌, arith, leb, be_bytes, bytes_lt,
}
use native.Mathlib.Nat.{div-mul-le_self, le-div_iff_mul-le, div-div-eq-div-mul, pow-suc}

pow_pos : (n : ℕ) → 1 ≤ 256 ^ n
pow_pos zero = omega arith
pow_pos (suc n) = omega (arith, pow_pos n, pow-suc 256 n)

div_mono : (a b n : ℕ) → a ≤ b → a / 256 ^ n ≤ b / 256 ^ n
div_mono a b n h = (le-div_iff_mul-le (pow_pos n)).1 (omega (arith, div-mul-le_self a (256 ^ n)))

div-suc : (a n : ℕ) → a / 256 ^ suc n ≡ a / 256 ^ n / 256
div-suc a n = rw (pow-suc 256 n) (sym (div-div-eq-div-mul a (256 ^ n) 256))

-- Where two numbers have the same part above `n` bytes, the bytes of the first stand before those of
-- the second with more after them just where the first is at most the second.
pub be_bytes-lt :
    (n a b y : ℕ) (ys : List ℕ)
    → a / 256 ^ n ≡ b / 256 ^ n
    → bytes_lt (be_bytes n a) (be_bytes n b ++ (y ∷ ys)) ≡ leb a b
unfolding be_bytes bytes_lt
be_bytes-lt zero a b y ys h = ground (arith, h)
be_bytes-lt (suc n) a b y ys h =
    ground (arith, div_mono a b n, div_mono b a n, div-suc a n, div-suc b n, be_bytes-lt n a b y ys)
