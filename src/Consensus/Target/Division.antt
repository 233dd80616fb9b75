-- ===== src/Consensus/Target/Division.antt =====
-- Long division over big-endian bytes computes the exact quotient.
use bc3_online_miner.Common.{
  ℕ, suc, ◌+◌, ◌*◌, ◌/◌, ◌%◌, ◌^◌, ◌<◌, ◌≡◌, refl, ap, sym, ◌∙◌, List, [], ◌∷◌, length, IsBytes,
  be_value, bit_or, bit_or_fields, arith,
}
use native.Mathlib.Nat.{
  pow-suc, div-add-mod, mod-lt, mod-eq_of_lt, div-lt_iff_lt-mul, div-eq_of_lt-le,
}
use bc3_online_miner.Consensus.Target.{divide}

module _ (divisor : ℕ) (pos : 0 < divisor) (fits : divisor < 2 ^ 120) where
  -- A remainder below the divisor, a byte behind it: nothing is lost in 128 bits.
  append_byte :
      (rem d : ℕ) → rem < divisor → d < 256 → bit_or (rem * 2 ^ 8 % 2 ^ 128) d ≡ rem * 256 + d
  append_byte rem d small byte =
      let whole : rem * 2 ^ 8 % 2 ^ 128 ≡ rem * 2 ^ 8 = omega arith in
      ap (λ t. bit_or t d) whole ∙ bit_or_fields 8 rem d byte

  quotient_byte : (rem d : ℕ) → rem < divisor → d < 256 → (rem * 256 + d) / divisor < 256
  quotient_byte rem d small byte = (div-lt_iff_lt-mul pos).1 (grind arith)

  divide-length : (rem : ℕ) (ds : List ℕ) → length (divide divisor rem ds) ≡ length ds
  unfolding divide
  divide-length rem [] = refl
  divide-length rem (d ∷ ds) =
      ap suc (divide-length (bit_or (rem * 2 ^ 8 % 2 ^ 128) d % divisor) ds)

  divides :
      (rem : ℕ) (ds : List ℕ)
      → rem < divisor
      → IsBytes ds
      → (left : ℕ) × (left < divisor)
        × (be_value (divide divisor rem ds) * divisor + left ≡ rem * 256 ^ length ds + be_value ds)
  unfolding divide be_value
  divides rem [] small h = (rem, small, omega arith)
  divides rem (d ∷ ds) small h =
      let n = rem * 256 + d in
      let p = 256 ^ length ds in
      let (left, below, ih) = divides (n % divisor) ds (mod-lt n pos) h.1 in
      let byte : n / divisor % 256 ≡ n / divisor = mod-eq_of_lt (quotient_byte rem d small h.0) in
      let whole : (divisor * (n / divisor) + n % divisor) * p ≡ n * p =
        ap (λ t. t * p) (div-add-mod n divisor) in
      (
        left,
        below,
        rw (append_byte rem d small h.0, divide-length (n % divisor) ds, byte)
            (omega (arith, ih, whole, ap (λ t. rem * t) (pow-suc 256 (length ds)))),
      )

  pub length-divide : (ds : List ℕ) → length (divide divisor 0 ds) ≡ length ds
  length-divide = divide-length 0

  -- The quotient as a number.
  pub be_value-divide :
      (ds : List ℕ) → IsBytes ds → be_value (divide divisor 0 ds) ≡ be_value ds / divisor
  be_value-divide ds h =
      let (left, below, e) = divides 0 ds pos h in
      sym (div-eq_of_lt-le divisor (omega (arith, e)) (grind (arith, e)))
