-- ===== src/Prelude/Strings.antt =====
-- The order of texts by their characters, which is that of their UTF-8 bytes: it is strict and total.
use Prim.Native.Nat.{Ordering, compare as compare_nat}
use Prim.Native.Char.{Char, code}
use Prim.Native.String.{String, compare, then}
use Prim.Native.String.compare as compare_law
use mathlib.Core.Path.{◌≡◌, refl}
use mathlib.Core.Bool.{Bool, true, false}
use native.Mathlib.Omega.{arith}
use text.Mathlib.Text.{is_lt, ◌==◌ as str_eq}
use text.Mathlib.TextPositions.{compare_refl}

-- `a` stands before `b`.
abbrev pub str_lt : String → String → Bool
str_lt a b = is_lt (compare a b)

-- The clauses of `compare` as equations between tests.
cons-cons :
    (x y : Char) (a b : String)
    → compare (String.◌∷◌ x a) (String.◌∷◌ y b) ≡ then (compare_nat (code x) (code y)) (compare a b)
cons-cons x y a b = compare_law.cons-cons x y a b

nil-cons : (y : Char) (b : String) → compare "" (String.◌∷◌ y b) ≡ Ordering.lt
nil-cons y b = compare_law.nil-cons y b

cons-nil : (y : Char) (b : String) → compare (String.◌∷◌ y b) "" ≡ Ordering.gt
cons-nil y b = compare_law.cons-nil y b

pub str_lt_irrefl : (a : String) → str_lt a a ≡ false
str_lt_irrefl a = rw (compare_refl a) refl

pub str_lt_trans : (a b c : String) → str_lt a b ≡ true → str_lt b c ≡ true → str_lt a c ≡ true
str_lt_trans String.[] String.[] c h k = k
str_lt_trans String.[] (String.◌∷◌ y b) String.[] h k = ground (arith, cons-nil y b)
str_lt_trans String.[] (String.◌∷◌ y b) (String.◌∷◌ z c) h k = rw (nil-cons z c) refl
str_lt_trans (String.◌∷◌ x a) String.[] c h k = ground (arith, cons-nil x a)
str_lt_trans (String.◌∷◌ x a) (String.◌∷◌ y b) String.[] h k = ground (arith, cons-nil y b)
str_lt_trans (String.◌∷◌ x a) (String.◌∷◌ y b) (String.◌∷◌ z c) h k =
    ground (arith, cons-cons x y a b, cons-cons y z b c, cons-cons x z a c, str_lt_trans a b c)

-- Two texts that are not equal are in order one way or the other.
pub str_lt_total : (a b : String) → str_eq a b ≡ false → str_lt b a ≡ false → str_lt a b ≡ true
str_lt_total String.[] String.[] h k = cc
str_lt_total String.[] (String.◌∷◌ y b) h k = rw (nil-cons y b) refl
str_lt_total (String.◌∷◌ x a) String.[] h k = ground (arith, nil-cons x a)
str_lt_total (String.◌∷◌ x a) (String.◌∷◌ y b) h k =
    ground (arith, cons-cons x y a b, cons-cons y x b a, str_lt_total a b)
