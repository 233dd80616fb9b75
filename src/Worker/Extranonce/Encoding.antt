-- ===== src/Worker/Extranonce/Encoding.antt =====
-- The encoding is the counter in `size` big-endian bytes, so distinct counters never share one.
use bc3_online_miner.Common.{
  ℕ, zero, suc, ◌+◌, ◌-◌, ◌*◌, ◌/◌, ◌%◌, ◌^◌, ◌<◌, true, ◌≡◌, refl, ap, sym, ◌∙◌, inl, inr, length,
  drop, replicate, length-append, length-replicate, be_value, to_be_bytes, length-to_be_bytes,
  be_value-zeros, arith, leb→le, leb-false, false, u64_mod, leb, Bool-cases, pow-add,
}
use native.Mathlib.Nat.{
  pow-suc, div-add-mod, mod-lt, mod-eq_of_lt, mul-add-mod_self_left, one-le-pow,
}
use bc3_online_miner.Worker.Extranonce.{en2_fits, encode_extranonce2}

drop-to_be_bytes : (k n x : ℕ) → drop k (to_be_bytes (k + n) x) ≡ to_be_bytes n x
unfolding to_be_bytes
drop-to_be_bytes zero n x = ap (λ m. to_be_bytes m x) (omega arith)
drop-to_be_bytes (suc k) n x =
    let e : suc k + n ≡ suc (k + n) = omega arith in rw e (drop-to_be_bytes k n x)

mod-mul : (x p : ℕ) → 0 < p → x % (p * 256) ≡ x / p % 256 * p + x % p
mod-mul x p pos =
    let q = x / p in
    let low : ℕ = q % 256 * p + x % p in
    let high : p * (256 * (q / 256) + q % 256) ≡ p * q = ap (λ t. p * t) (div-add-mod q 256) in
    let parts : x ≡ p * 256 * (q / 256) + low = omega (arith, div-add-mod x p, high) in
    let small : low < p * 256 = below (q % 256) (x % p) p (omega arith) (mod-lt x pos) in
    ap (λ t. t % (p * 256)) parts
    ∙ mul-add-mod_self_left (p * 256) (q / 256) low
    ∙ mod-eq_of_lt small
  where
    below : (d r m : ℕ) → d < 256 → r < m → d * m + r < m * 256
    below d r m h k = grind arith

be_value-to_be_bytes : (n x : ℕ) → be_value (to_be_bytes n x) ≡ x % 256 ^ n
unfolding be_value to_be_bytes
be_value-to_be_bytes zero x = omega arith
be_value-to_be_bytes (suc n) x =
    rw (length-to_be_bytes n x, be_value-to_be_bytes n x, pow-suc 256 n)
      (sym (mod-mul x (256 ^ n) (one-le-pow n 256 (omega arith))))

-- `2^(8 * size)` is the number of strings of `size` bytes.
pow-mul : (n : ℕ) → 2 ^ (8 * n) ≡ 256 ^ n
pow-mul zero = refl
pow-mul (suc n) =
    let e : 8 * suc n ≡ 8 * n + 8 = omega arith in
    ap (λ k. 2 ^ k) e ∙ pow-add 2 (8 * n) 8 ∙ omega (arith, pow-suc 256 n, pow-mul n)

en2_fits-lt :
    (counter size : ℕ) → leb 8 size ≡ false → en2_fits counter size ≡ true → counter < 256 ^ size
unfolding en2_fits
en2_fits-lt counter size narrow fits = rw (← pow-mul size) (ground arith)

-- For a counter of 64 bits that fits the size, the encoding has exactly `size` bytes and its
-- big-endian value is the counter.
pub encode_extranonce2-value :
    (counter size : ℕ)
    → counter < u64_mod
    → en2_fits counter size ≡ true
    → (length (encode_extranonce2 counter size) ≡ size)
      × (be_value (encode_extranonce2 counter size) ≡ counter)
unfolding encode_extranonce2
encode_extranonce2-value counter size word fits = elim (Bool-cases (leb 8 size)) [
  | inl wide ↦ rw wide (
    omega (
      arith,
      leb→le 8 size wide,
      length-append (replicate (size - 8) 0) (to_be_bytes 8 counter),
      length-replicate {A = ℕ} (size - 8) 0,
      length-to_be_bytes 8 counter,
    ),
    be_value-zeros (size - 8) (to_be_bytes 8 counter)
        ∙ be_value-to_be_bytes 8 counter
        ∙ mod-eq_of_lt word,
  )
  | inr narrow ↦
      let split : 8 - size + size ≡ 8 = omega (arith, leb-false 8 size narrow) in
      let kept : drop (8 - size) (to_be_bytes 8 counter) ≡ to_be_bytes size counter =
        ap (λ n. drop (8 - size) (to_be_bytes n counter)) (sym split)
        ∙ drop-to_be_bytes (8 - size) size counter in
      let small : counter < 256 ^ size = en2_fits-lt counter size narrow fits in
      rw (narrow, kept)
        (length-to_be_bytes size counter, be_value-to_be_bytes size counter ∙ mod-eq_of_lt small)
]

-- Two counters of 64 bits that fit the size and are encoded alike are the same counter.
pub encode_extranonce2-injective :
    (a b size : ℕ)
    → a < u64_mod
    → b < u64_mod
    → en2_fits a size ≡ true
    → en2_fits b size ≡ true
    → encode_extranonce2 a size ≡ encode_extranonce2 b size
    → a ≡ b
encode_extranonce2-injective a b size ha hb fa fb e =
    sym (encode_extranonce2-value a size ha fa).1
    ∙ ap be_value e
    ∙ (encode_extranonce2-value b size hb fb).1
