-- ===== src/Gpu/Hits/Sorted.antt =====
-- Sorting and deduplicating the hits loses none and gives them in ascending order.
use bc3_online_miner.Common.{
  ℕ, suc, ◌≤◌, ◌<◌, List, [], ◌∷◌, leb, leb→le, leb-false, ◌==◌, ◌≡◌, ◌∙◌, arith, ◌⊎◌, inl, inr,
  All, u32_mod, if_cases, Bool-cases, ==_iff, subst,
}
use bc3_online_miner.Gpu.Hits.{insert, sort_unstable, dedup_after, dedup}

-- A number stands in the list.
abbrev pub Has : ℕ → List ℕ → Type 0
Has n [] = ⊥
Has n (x ∷ xs) = (n ≡ x) ⊎ Has n xs

-- Words that never fall below `a`, and words that rise from `a` on.
abbrev Rises : ℕ → List ℕ → Type 0
Rises a [] = Unit
Rises a (x ∷ xs) = (a ≤ x) × (x < u32_mod) × Rises x xs

abbrev pub Ascends : ℕ → List ℕ → Type 0
Ascends a [] = Unit
Ascends a (x ∷ xs) = (a ≤ x) × (x < u32_mod) × Ascends (suc x) xs

insert-Rises : (n a : ℕ) (xs : List ℕ) → a ≤ n → n < u32_mod → Rises a xs → Rises a (insert n xs)
unfolding insert
insert-Rises n a [] low word h = (low, word, tt)
insert-Rises n a (x ∷ xs) low word (up, small, onward) =
    if_cases (Rises a) (leb n x) (λ e. (low, word, (leb→le n x e, small, onward)))
      (λ e. (up, small, insert-Rises n x xs (omega (arith, leb-false n x e)) word onward))

insert-Has : (n m : ℕ) (xs : List ℕ) → (n ≡ m) ⊎ Has n xs → Has n (insert m xs)
unfolding insert
insert-Has n m [] (inl e) = inl e
insert-Has n m [] (inr h) = absurd h
insert-Has n m (x ∷ xs) (inl e) =
    if_cases (Has n) (leb m x) (λ _. inl e) (λ _. inr (insert-Has n m xs (inl e)))
insert-Has n m (x ∷ xs) (inr (inl e)) = if_cases (Has n) (leb m x) (λ _. inr (inl e)) (λ _. inl e)
insert-Has n m (x ∷ xs) (inr (inr h)) =
    if_cases (Has n) (leb m x) (λ _. inr (inr h)) (λ _. inr (insert-Has n m xs (inr h)))

sort_unstable-Rises : (xs : List ℕ) → All (λ n. n < u32_mod) xs → Rises 0 (sort_unstable xs)
unfolding sort_unstable
sort_unstable-Rises [] h = tt
sort_unstable-Rises (x ∷ xs) h =
    insert-Rises x 0 (sort_unstable xs) (omega arith) h.0 (sort_unstable-Rises xs h.1)

sort_unstable-Has : (n : ℕ) (xs : List ℕ) → Has n xs → Has n (sort_unstable xs)
unfolding sort_unstable
sort_unstable-Has n [] h = h
sort_unstable-Has n (x ∷ xs) (inl e) = insert-Has n x (sort_unstable xs) (inl e)
sort_unstable-Has n (x ∷ xs) (inr h) =
    insert-Has n x (sort_unstable xs) (inr (sort_unstable-Has n xs h))

dedup_after-Ascends :
    (last : ℕ) (xs : List ℕ) → Rises last xs → Ascends (suc last) (dedup_after last xs)
unfolding dedup_after
dedup_after-Ascends last [] h = tt
dedup_after-Ascends last (x ∷ xs) (up, small, onward) = elim (Bool-cases (x == last)) [
  | inl same ↦
      let e : x ≡ last = (==_iff x last).0 same in
      rw same (dedup_after-Ascends last xs (subst (λ k. Rises k xs) e onward))
  | inr other ↦ rw other (ground (arith, other), small, dedup_after-Ascends x xs onward)
]

dedup_after-Has : (n last : ℕ) (xs : List ℕ) → Has n xs → (n ≡ last) ⊎ Has n (dedup_after last xs)
unfolding dedup_after
dedup_after-Has n last [] h = absurd h
dedup_after-Has n last (x ∷ xs) (inl e) = elim (Bool-cases (x == last)) [
  | inl same ↦ inl (e ∙ (==_iff x last).0 same)
  | inr other ↦ rw other (inr (inl e))
]
dedup_after-Has n last (x ∷ xs) (inr h) = elim (Bool-cases (x == last)) [
  | inl same ↦ rw same (dedup_after-Has n last xs h)
  | inr other ↦ rw other (inr (dedup_after-Has n x xs h))
]

dedup-Ascends : (xs : List ℕ) → Rises 0 xs → Ascends 0 (dedup xs)
unfolding dedup
dedup-Ascends [] h = tt
dedup-Ascends (x ∷ xs) (up, small, onward) = (up, small, dedup_after-Ascends x xs onward)

dedup-Has : (n : ℕ) (xs : List ℕ) → Has n xs → Has n (dedup xs)
unfolding dedup
dedup-Has n [] h = h
dedup-Has n (x ∷ xs) (inl e) = inl e
dedup-Has n (x ∷ xs) (inr h) = dedup_after-Has n x xs h

pub hits-Ascends :
    (hits : List ℕ) → All (λ n. n < u32_mod) hits → Ascends 0 (dedup (sort_unstable hits))
hits-Ascends hits h = dedup-Ascends (sort_unstable hits) (sort_unstable-Rises hits h)

pub hits-Has : (n : ℕ) (hits : List ℕ) → Has n hits → Has n (dedup (sort_unstable hits))
hits-Has n hits h = dedup-Has n (sort_unstable hits) (sort_unstable-Has n hits h)
