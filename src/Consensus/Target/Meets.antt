-- ===== src/Consensus/Target/Meets.antt =====
-- The byte-wise test is the comparison of the two 256-bit numbers.
use bc3_online_miner.Common.{
  ℕ, zero, suc, ◌+◌, ◌-◌, ◌*◌, ◌^◌, ◌≤◌, ◌<◌, true, ◌≡◌, ◌↔◌, refl, ap, sym, ◌∙◌, List, [], ◌∷◌,
  length, get_or, drop, length-drop, IsBytes, le_value, be_value, arith,
}
use native.Mathlib.Nat.{pow-suc}
use bc3_online_miner.Consensus.Target.{meets_from, hash_meets_target}

get_or-IsByte : (xs : List ℕ) (i : ℕ) → IsBytes xs → get_or xs i 0 < 256
get_or-IsByte [] i h = omega arith
get_or-IsByte (x ∷ xs) zero h = h.0
get_or-IsByte (x ∷ xs) (suc i) h = get_or-IsByte xs i h.1

-- The number of the `k` low bytes of a hash, and of a target.
hash_low : List ℕ → ℕ → ℕ
hash_low hash zero = 0
hash_low hash (suc k) = hash_low hash k + get_or hash k 0 * 256 ^ k

target_low : List ℕ → ℕ → ℕ
target_low target zero = 0
target_low target (suc k) = target_low target k + get_or target (31 - k) 0 * 256 ^ k

hash_low-lt : (hash : List ℕ) (k : ℕ) → IsBytes hash → hash_low hash k < 256 ^ k
unfolding hash_low
hash_low-lt hash zero h = omega arith
hash_low-lt hash (suc k) h =
    grind (arith, pow-suc 256 k, hash_low-lt hash k h, get_or-IsByte hash k h)

target_low-lt : (target : List ℕ) (k : ℕ) → IsBytes target → target_low target k < 256 ^ k
unfolding target_low
target_low-lt target zero h = omega arith
target_low-lt target (suc k) h =
    grind (arith, pow-suc 256 k, target_low-lt target k h, get_or-IsByte target (31 - k) h)

-- The top byte decides, unless it is equal.
top_lt : (a b p lo lo' : ℕ) → a < b → lo < p → lo + a * p < lo' + b * p
top_lt a b p lo lo' h small = grind arith

meets_from_iff :
    (hash target : List ℕ) (k : ℕ)
    → IsBytes hash
    → IsBytes target
    → (meets_from hash target k ≡ true) ↔ (hash_low hash k ≤ target_low target k)
unfolding meets_from hash_low target_low
meets_from_iff hash target zero p q = ((λ _. omega arith), λ _. refl)
meets_from_iff hash target (suc k) p q =
    let h = get_or hash k 0 in
    let t = get_or target (31 - k) 0 in
    let low = hash_low hash k in
    let high = target_low target k in
    let ih = meets_from_iff hash target k p q in
    let less = top_lt h t (256 ^ k) low high in
    let more = top_lt t h (256 ^ k) high low in
    let equal : h ≡ t → h * 256 ^ k ≡ t * 256 ^ k = ap (λ x. x * 256 ^ k) in
    (
      (λ m. ground (arith, ih, less, equal, hash_low-lt hash k p)),
      λ m. ground (arith, ih, more, equal, target_low-lt target k q),
    )

hash_low-cons : (x : ℕ) (xs : List ℕ) (k : ℕ) → hash_low (x ∷ xs) (suc k) ≡ x + hash_low xs k * 256
unfolding hash_low
hash_low-cons x xs zero = omega arith
hash_low-cons x xs (suc k) =
    omega (arith, hash_low-cons x xs k, ap (λ t. get_or xs k 0 * t) (pow-suc 256 k))

hash_low-length : (xs : List ℕ) → hash_low xs (length xs) ≡ le_value xs
unfolding le_value hash_low
hash_low-length [] = refl
hash_low-length (x ∷ xs) =
    hash_low-cons x xs (length xs) ∙ ap (λ t. x + t * 256) (hash_low-length xs)

drop-get_or : (xs : List ℕ) (i : ℕ) → i < length xs → drop i xs ≡ get_or xs i 0 ∷ drop (suc i) xs
drop-get_or [] i h = absurd (omega arith)
drop-get_or (x ∷ xs) zero h = refl
drop-get_or (x ∷ xs) (suc i) h = drop-get_or xs i (omega arith)

target_low-drop :
    (t : List ℕ) (k i : ℕ) → length t ≡ 32 → i + k ≡ 32 → target_low t k ≡ be_value (drop i t)
unfolding target_low be_value
target_low-drop t zero i l e = sym (ap be_value (drop_all t i (omega arith)))
  where
    drop_all : (xs : List ℕ) (n : ℕ) → n ≡ length xs → drop n xs ≡ []
    drop_all [] zero e = refl
    drop_all [] (suc n) e = refl
    drop_all (x ∷ xs) zero e = absurd (omega arith)
    drop_all (x ∷ xs) (suc n) e = drop_all xs n (omega arith)
target_low-drop t (suc k) i l e =
    let at : 31 - k ≡ i = omega arith in
    let rest : length (drop (suc i) t) ≡ k = omega (arith, length-drop (suc i) t) in
    rw (drop-get_or t i (omega arith), at, target_low-drop t k (suc i) l (omega arith), rest)
      (omega arith)

-- For a 32-byte hash and a 32-byte target, the test passes exactly when the hash as a
-- little-endian number is at most the target as a big-endian number.
pub hash_meets_target_iff :
    (hash target : List ℕ)
    → length hash ≡ 32
    → length target ≡ 32
    → IsBytes hash
    → IsBytes target
    → (hash_meets_target hash target ≡ true) ↔ (le_value hash ≤ be_value target)
unfolding hash_meets_target
hash_meets_target_iff hash target lh lt p q =
    let eh : hash_low hash 32 ≡ le_value hash =
      ap (hash_low hash) (sym lh) ∙ hash_low-length hash in
    let et : target_low target 32 ≡ be_value target = target_low-drop target 32 0 lt refl in
    rw (← eh, ← et) (meets_from_iff hash target 32 p q)
