-- ===== src/Consensus/Target/Compact.antt =====
-- Which compact targets expand, and to which number.
use bc3_online_miner.Common.{
  ℕ, zero, suc, ◌+◌, ◌-◌, ◌*◌, ◌/◌, ◌%◌, ◌^◌, ◌≤◌, ◌<◌, ◌≡◌, refl, ap, sym, ◌∙◌, List, [], ◌∷◌,
  ◌++◌, length, set, replicate, Option, none, some, ◌⊎◌, inl, inr, IsBytes, All-append, be_value,
  bit_and_single, bit_and_mask, arith, length-replicate, length-append, be_value-replicate,
  be_value-zeros, pow-add,
}
use native.Mathlib.Decide.{ℕ_discrete, dec_le}
use native.Mathlib.Nat.{pow-suc}
use bc3_online_miner.Consensus.Target.{place, compact_to_target}

-- Three bytes written into zeros at `p`, `p + 1` and `p + 2`.
three_sets :
    (p k a b c : ℕ)
    → set (set (set (replicate (p + (3 + k)) 0) p a) (p + 1) b) (p + 2) c
      ≡ replicate p 0 ++ (a ∷ b ∷ c ∷ replicate k 0)
three_sets zero k a b c = let n : 0 + (3 + k) ≡ suc (suc (suc k)) = omega arith in rw n refl
three_sets (suc p) k a b c =
    let n : suc p + (3 + k) ≡ suc (p + (3 + k)) = omega arith in
    let i : suc p + 1 ≡ suc (p + 1) = omega arith in
    let j : suc p + 2 ≡ suc (p + 2) = omega arith in
    rw (n, i, j) (ap (λ l. 0 ∷ l) (three_sets p k a b c))

expanded-value :
    (p k a b c : ℕ)
    → be_value (replicate p 0 ++ (a ∷ b ∷ c ∷ replicate k 0)) ≡ (a * 65536 + b * 256 + c) * 256 ^ k
unfolding be_value
expanded-value p k a b c =
    be_value-zeros p _
    ∙ rw (length-replicate {A = ℕ} k 0, be_value-replicate k)
        (omega (
          arith,
          pow-suc 256 k,
          pow-suc 256 (suc k),
          ap (λ t. b * t) (pow-suc 256 k),
          ap (λ t. a * t) (pow-suc 256 k),
          ap (λ t. a * t) (pow-suc 256 (suc k)),
        ))

-- The three mantissa bytes, most significant first.
abbrev bytes_of : ℕ → List ℕ
bytes_of m = (m / 2 ^ 16 % 256) ∷ (m / 2 ^ 8 % 256) ∷ (m % 256) ∷ []

-- `mantissa * 256^(exponent - 3)` is a whole number of at most 32 bytes.
abbrev pub Fits : ℕ → ℕ → Type 0
Fits e m = (e ≤ 32) × (m * 256 ^ e % 2 ^ 24 ≡ 0)

-- `t` is 32 bytes of the value `mantissa * 256^(exponent - 3)`.
abbrev pub IsTarget : ℕ → ℕ → List ℕ → Type 0
IsTarget e m t = (length t ≡ 32) × IsBytes t × (be_value t * 2 ^ 24 ≡ m * 256 ^ e)

abbrev Outcome : ℕ → ℕ → Option (List ℕ) → Type 0
Outcome e m r =
    ((r ≡ none) × ¬ Fits e m) ⊎ ((t : List ℕ) × (r ≡ some t) × Fits e m × IsTarget e m t)

place_step :
    (e i b : ℕ) (bs out : List ℕ)
    → e ≤ 32
    → 32 - e + i < 32
    → place e i (b ∷ bs) out ≡ place e (i + 1) bs (set out (32 - e + i) b)
unfolding place
place_step e i b bs out h k = ground arith

expanded : ℕ → ℕ → ℕ → ℕ → ℕ → List ℕ
expanded p k a b c = replicate p 0 ++ (a ∷ b ∷ c ∷ replicate k 0)

zeros-IsBytes : (n : ℕ) → IsBytes (replicate n 0)
zeros-IsBytes zero = tt
zeros-IsBytes (suc n) = (omega arith, zeros-IsBytes n)

expanded-IsTarget :
    (p k m : ℕ)
    → p + (3 + k) ≡ 32
    → m < 2 ^ 23
    → IsTarget (3 + k) m (expanded p k (m / 2 ^ 16 % 256) (m / 2 ^ 8 % 256) (m % 256))
unfolding expanded
expanded-IsTarget p k m e small =
    let tail : List ℕ = bytes_of m ++ replicate k 0 in
    (
      omega (
        arith,
        length-append (replicate p 0) tail,
        length-replicate {A = ℕ} p 0,
        length-replicate {A = ℕ} k 0,
      ),
      All-append (λ x. x < 256) (replicate p 0) tail (zeros-IsBytes p)
          (omega arith, (omega arith, (omega arith, zeros-IsBytes k))),
      rw (expanded-value p k (m / 2 ^ 16 % 256) (m / 2 ^ 8 % 256) (m % 256), pow-add 256 3 k)
          (let whole : m / 2 ^ 16 % 256 * 65536 + m / 2 ^ 8 % 256 * 256 + m % 256 ≡ m =
              omega arith in
            rw whole (omega arith)),
    )

place_three :
    (e p a b c : ℕ) (out : List ℕ)
    → e ≤ 32
    → 32 - e ≡ p
    → p + 2 < 32
    → place e 0 (a ∷ b ∷ c ∷ []) out ≡ some (set (set (set out p a) (p + 1) b) (p + 2) c)
unfolding place
place_three e p a b c out h d k =
    let at_0 : 32 - e + 0 ≡ p = omega arith in
    let at_1 : 32 - e + 1 ≡ p + 1 = omega arith in
    let at_2 : 32 - e + 2 ≡ p + 2 = omega arith in
    place_step e 0 a (b ∷ c ∷ []) out h (omega arith)
    ∙ place_step e 1 b (c ∷ []) (set out (32 - e + 0) a) h (omega arith)
    ∙ place_step e 2 c [] (set (set out (32 - e + 0) a) (32 - e + 1) b) h (omega arith)
    ∙ rw (at_0, at_1, at_2)

place-high :
    (p k m : ℕ)
    → p + (3 + k) ≡ 32
    → place (3 + k) 0 (bytes_of m) (replicate 32 0)
      ≡ some (expanded p k (m / 2 ^ 16 % 256) (m / 2 ^ 8 % 256) (m % 256))
unfolding expanded
place-high p k m e =
    let a = m / 2 ^ 16 % 256 in
    let b = m / 2 ^ 8 % 256 in
    let c = m % 256 in
    place_three (3 + k) p a b c (replicate 32 0) (omega arith) (omega arith) (omega arith)
    ∙ ap (λ n. some (set (set (set (replicate n 0) p a) (p + 1) b) (p + 2) c)) (sym e)
    ∙ ap some (three_sets p k a b c)

-- One, two or all three bytes lie below the number: they have to be zero.
place-low_0 : (m : ℕ) → m < 2 ^ 23 → Outcome 0 m (place 0 0 (bytes_of m) (replicate 32 0))
unfolding place be_value
place-low_0 m small = elim (ℕ_discrete m 0) [
  | yes z ↦ rw z (inr (replicate 32 0, refl, omega arith, (refl, zeros-IsBytes 32, refl)))
  | no nz ↦ inl (ground arith, omega arith)
]

place-low_1 : (m : ℕ) → m < 2 ^ 23 → Outcome 1 m (place 1 0 (bytes_of m) (replicate 32 0))
unfolding place be_value
place-low_1 m small = elim (ℕ_discrete (m % 2 ^ 16) 0) [
  | yes z ↦ inr (
    replicate 31 0 ++ ((m / 2 ^ 16 % 256) ∷ []),
    ground arith,
    omega arith,
    (refl, omega arith, omega arith),
  )
  | no nz ↦ inl (ground arith, omega arith)
]

place-low_2 : (m : ℕ) → m < 2 ^ 23 → Outcome 2 m (place 2 0 (bytes_of m) (replicate 32 0))
unfolding place be_value
place-low_2 m small = elim (ℕ_discrete (m % 2 ^ 8) 0) [
  | yes z ↦ inr (
    replicate 30 0 ++ ((m / 2 ^ 16 % 256) ∷ (m / 2 ^ 8 % 256) ∷ []),
    ground arith,
    omega arith,
    (refl, omega arith, omega arith),
  )
  | no nz ↦ inl (ground arith, omega arith)
]

place-over : (e m : ℕ) → 32 < e → Outcome e m (place e 0 (bytes_of m) (replicate 32 0))
unfolding place
place-over e m h = inl (ground arith, omega arith)

Fits-high : (k m : ℕ) → 3 + k ≤ 32 → Fits (3 + k) m
Fits-high k m h = rw (pow-add 256 3 k) (h, omega arith)

place-cases : (e m : ℕ) → m < 2 ^ 23 → Outcome e m (place e 0 (bytes_of m) (replicate 32 0))
place-cases zero m small = place-low_0 m small
place-cases (suc zero) m small = place-low_1 m small
place-cases (suc (suc zero)) m small = place-low_2 m small
place-cases (suc (suc (suc k))) m small =
    let e : suc (suc (suc k)) ≡ 3 + k = omega arith in
    rw e (elim (dec_le (3 + k) 32) [
      | yes h ↦
          let p : 29 - k + (3 + k) ≡ 32 = omega arith in
          inr (
            expanded (29 - k) k (m / 2 ^ 16 % 256) (m / 2 ^ 8 % 256) (m % 256),
            place-high (29 - k) k m p,
            Fits-high k m h,
            expanded-IsTarget (29 - k) k m p small,
          )
      | no h ↦ place-over (3 + k) m (omega arith)
    ])

-- Sign, exponent and mantissa of a compact target.
abbrev pub sign : ℕ → ℕ
sign bits = bits / 2 ^ 23 % 2

abbrev pub exponent : ℕ → ℕ
exponent bits = bits / 2 ^ 24

abbrev pub mantissa : ℕ → ℕ
mantissa bits = bits % 2 ^ 23

-- The expansion is the exact number `mantissa * 256^(exponent - 3)` on 32 bytes wherever the sign
-- bit is clear, the exponent is at most 32 and that number is whole; everything else is `none`.
pub compact_to_target-cases :
    (bits : ℕ)
    → ((compact_to_target bits ≡ none) × ¬ ((sign bits ≡ 0) × Fits (exponent bits) (mantissa bits)))
      ⊎ ((t : List ℕ) × (compact_to_target bits ≡ some t)
          × (sign bits ≡ 0)
          × Fits (exponent bits) (mantissa bits)
          × IsTarget (exponent bits) (mantissa bits) t)
unfolding compact_to_target
compact_to_target-cases bits = rw (bit_and_mask 23 bits 0x7fffff refl) (
    ground
      (arith, bit_and_single 23 bits, place-cases (bits / 2 ^ 24) (bits % 2 ^ 23) (omega arith)))
