-- ===== src/Common/Bytes.antt =====
-- Bytes as numbers below 256, little- and big-endian values of byte strings.
use Prim.Native.Nat.{ℕ, zero, suc, ◌+◌, ◌*◌, ◌/◌, ◌%◌, ◌^◌, ◌<◌}
use mathlib.Core.Path.{◌≡◌, refl, ap}
use mathlib.Core.List.{List, [], ◌∷◌, ◌++◌}
use native.Mathlib.Omega.{arith}
use native.Mathlib.Nat.{pow-suc, pow-zero}
use bc3_online_miner.Common.Lists.{length, All, replicate}

abbrev pub u32_mod : ℕ
u32_mod = 4294967296

abbrev pub u64_mod : ℕ
u64_mod = 18446744073709551616

abbrev pub IsByte : ℕ → Type 0
IsByte b = b < 256

abbrev pub IsBytes : List ℕ → Type 0
IsBytes = All IsByte

-- `to_le_bytes` of an integer of `n` bytes.
unfoldable pub to_le_bytes : ℕ → ℕ → List ℕ
to_le_bytes zero x = []
to_le_bytes (suc n) x = (x % 256) ∷ to_le_bytes n (x / 256)

unfoldable pub le_value : List ℕ → ℕ
le_value [] = 0
le_value (b ∷ bs) = b + le_value bs * 256

-- The number that a big-endian byte string stands for.
unfoldable pub be_value : List ℕ → ℕ
be_value [] = 0
be_value (b ∷ bs) = b * 256 ^ length bs + be_value bs

-- `to_be_bytes` of an integer of `n` bytes.
unfoldable pub to_be_bytes : ℕ → ℕ → List ℕ
to_be_bytes zero x = []
to_be_bytes (suc n) x = (x / 256 ^ n % 256) ∷ to_be_bytes n x

pub length-to_le_bytes : (n x : ℕ) → length (to_le_bytes n x) ≡ n
unfolding to_le_bytes
length-to_le_bytes zero x = refl
length-to_le_bytes (suc n) x = omega (arith, length-to_le_bytes n (x / 256))

pub to_le_bytes-IsBytes : (n x : ℕ) → IsBytes (to_le_bytes n x)
unfolding to_le_bytes
to_le_bytes-IsBytes zero x = tt
to_le_bytes-IsBytes (suc n) x = (omega arith, to_le_bytes-IsBytes n (x / 256))

pub le_value-to_le_bytes : (n x : ℕ) → x < 256 ^ n → le_value (to_le_bytes n x) ≡ x
unfolding to_le_bytes le_value
le_value-to_le_bytes zero x h = omega arith
le_value-to_le_bytes (suc n) x h = omega (arith, pow-suc 256 n, le_value-to_le_bytes n (x / 256))

pub length-to_be_bytes : (n x : ℕ) → length (to_be_bytes n x) ≡ n
unfolding to_be_bytes
length-to_be_bytes zero x = refl
length-to_be_bytes (suc n) x = omega (arith, length-to_be_bytes n x)

pub be_value-replicate : (n : ℕ) → be_value (replicate n 0) ≡ 0
unfolding be_value
be_value-replicate zero = refl
be_value-replicate (suc n) = omega (arith, be_value-replicate n)

pub be_value-lt : (bs : List ℕ) → IsBytes bs → be_value bs < 256 ^ length bs
unfolding be_value
be_value-lt [] h = omega arith
be_value-lt (b ∷ bs) h = grind (arith, pow-suc 256 (length bs), be_value-lt bs h.1)

pub pow-add : (b m n : ℕ) → b ^ (m + n) ≡ b ^ m * b ^ n
pow-add b m zero = let e : m + 0 ≡ m = omega arith in rw (e, pow-zero b) (omega arith)
pow-add b m (suc n) =
    let e : m + suc n ≡ suc (m + n) = omega arith in
    rw e (
      omega (
        arith,
        pow-suc b (m + n),
        pow-suc b n,
        ap (λ t. b ^ m * t) (pow-suc b n),
        ap (λ t. t * b) (pow-add b m n),
      ))

pub be_value-zeros : (n : ℕ) (xs : List ℕ) → be_value (replicate n 0 ++ xs) ≡ be_value xs
unfolding be_value
be_value-zeros zero xs = refl
be_value-zeros (suc n) xs = omega (arith, be_value-zeros n xs)
