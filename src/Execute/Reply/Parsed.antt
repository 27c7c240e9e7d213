-- ===== src/Execute/Reply/Parsed.antt =====
-- `parse_coin` of contracts/hub/src/helpers.rs reads what a coin is printed as.
use joe_liquid_staking.Prelude.{
  ℕ, suc, ◌-◌, ◌+◌, ◌≡◌, refl, ap, ◌∙◌, String, Bool, true, false, Result, ok, arith, leb,
}
use Prim.Native.Char.{Char}
use Prim.Native.String.{count, ◌++◌}
use native.Mathlib.Nat.{zero-add}
use text.Mathlib.TextLemmas.{nil-append, cons-append, length-cons}
use joe_liquid_staking.Execute.Reply.{width, split_bytes, parse_from, parse_coin}

module _ (is_alphabetic : Char → Bool) (uint128_from_str : String → Result ℕ) where
  -- The characters are no letters and have one byte, as digits.
  abbrev pub Plain : String → Type 0
  Plain String.[] = Unit
  Plain (String.◌∷◌ c s) = (is_alphabetic c ≡ false) × (width c ≡ 1) × Plain s

  parse_from-Plain :
      (i : ℕ) (whole digits rest : String)
      → Plain digits
      → parse_from is_alphabetic uint128_from_str i whole (digits ++ rest)
        ≡ parse_from is_alphabetic uint128_from_str (i + count digits) whole rest
  unfolding parse_from
  parse_from-Plain i whole String.[] rest h =
      let e : i ≡ i + 0 = omega arith in
      rw (nil-append rest)
        (ap (λ (k : ℕ). parse_from is_alphabetic uint128_from_str k whole rest) e)
  parse_from-Plain i whole (String.◌∷◌ c digits) rest h =
      let e : i + 1 + count digits ≡ i + count (String.◌∷◌ c digits) =
        omega (arith, length-cons c digits) in
      rw (cons-append c digits rest, h.0)
        (parse_from-Plain (i + 1) whole digits rest h.2
          ∙ ap (λ (k : ℕ). parse_from is_alphabetic uint128_from_str k whole rest) e)

  split_bytes-Plain :
      (digits rest : String)
      → Plain digits
      → split_bytes (count digits) (digits ++ rest) ≡ ok (digits, rest)
  unfolding split_bytes
  split_bytes-Plain String.[] rest h = rw (nil-append rest) refl
  split_bytes-Plain (String.◌∷◌ c digits) rest h =
      let n = count digits in
      let back : suc n - 1 ≡ n = omega arith in
      let within : leb 1 (suc n) ≡ true = ground arith in
      rw (length-cons c digits, cons-append c digits rest, h.1, within, back)
        (rw (split_bytes-Plain digits rest h.2) refl)

  -- A text of an amount, in characters that are no letters and have one byte, before a denom that
  -- begins with a letter is read as the coin of that denom and amount.
  pub parse_coin_reads :
      (digits denom : String) (c : Char) (amount : ℕ)
      → Plain digits
      → is_alphabetic c ≡ true
      → uint128_from_str digits ≡ ok amount
      → parse_coin is_alphabetic uint128_from_str (digits ++ String.◌∷◌ c denom)
        ≡ ok (record { denom = String.◌∷◌ c denom; amount = amount })
  unfolding parse_coin parse_from
  parse_coin_reads digits denom c amount plain letter reads =
      parse_from-Plain 0 (digits ++ String.◌∷◌ c denom) digits (String.◌∷◌ c denom) plain
      ∙ rw
          (
            letter,
            zero-add (count digits),
            split_bytes-Plain digits (String.◌∷◌ c denom) plain,
            reads,
          )
          refl
