-- ===== src/Gpu/Hits/Along.antt =====
-- Ascending numbers that miss nothing of a range are as good as the range itself.
use bc3_online_miner.Common.{
  ℕ, zero, suc, ◌+◌, ◌≤◌, ◌<◌, List, [], ◌∷◌, ◌++◌, ◌≡◌, refl, ap, ap₂, sym, ◌∙◌, arith, ◌⊎◌, inl,
  inr, u32_mod, ◌==◌, Bool-cases, ==_iff, subst,
}
use bc3_online_miner.Gpu.Hits.Sorted.{Has, Ascends}

module _ {ℓ} {A : Type ℓ} (v : ℕ → List A) where
  -- What the numbers of a list lead to, and what those from `a` on lead to, `c` of them.
  abbrev pub gather : List ℕ → List A
  gather [] = []
  gather (x ∷ xs) = v x ++ gather xs

  abbrev pub along : ℕ → ℕ → List A
  along a zero = []
  along a (suc c) = v a ++ along (suc a) c

  below-absent : (n a : ℕ) (xs : List ℕ) → Ascends a xs → Has n xs → n < a → ⊥
  below-absent n a [] asc h low = h
  below-absent n a (x ∷ xs) (up, small, onward) (inl e) low = omega arith
  below-absent n a (x ∷ xs) (up, small, onward) (inr h) low =
      below-absent n (suc x) xs onward h (omega arith)

  gather-none :
      (a : ℕ) (xs : List ℕ)
      → Ascends a xs
      → ((n : ℕ) → a ≤ n → n < u32_mod → v n ≡ [])
      → gather xs ≡ []
  gather-none a [] asc none = refl
  gather-none a (x ∷ xs) (up, small, onward) none =
      ap₂ ◌++◌ (none x up small)
        (gather-none (suc x) xs onward (λ n more word. none n (omega arith) word))

  pub along-none : (a c : ℕ) → ((n : ℕ) → a ≤ n → n < a + c → v n ≡ []) → along a c ≡ []
  along-none a zero none = refl
  along-none a (suc c) none =
      ap₂ ◌++◌ (none a (omega arith) (omega arith))
        (along-none (suc a) c (λ n low high. none n (omega arith) (omega arith)))

  -- A number that is not the first one stands behind it.
  behind_first :
      (n a x : ℕ) (xs : List ℕ)
      → x ≡ a
      → a < n
      → (v n ≡ []) ⊎ Has n (x ∷ xs)
      → (v n ≡ []) ⊎ Has n xs
  behind_first n a x xs e low (inl none) = inl none
  behind_first n a x xs e low (inr (inl same)) = absurd (omega arith)
  behind_first n a x xs e low (inr (inr h)) = inr h

  not_first : (a : ℕ) (xs : List ℕ) → Ascends (suc a) xs → (v a ≡ []) ⊎ Has a xs → v a ≡ []
  not_first a xs asc (inl none) = none
  not_first a xs asc (inr h) = absurd (below-absent a (suc a) xs asc h (omega arith))

  pub gather-along :
      (c a : ℕ) (xs : List ℕ)
      → Ascends a xs
      → ((n : ℕ) → a ≤ n → n < a + c → (v n ≡ []) ⊎ Has n xs)
      → ((n : ℕ) → a + c ≤ n → n < u32_mod → v n ≡ [])
      → gather xs ≡ along a c
  gather-along zero a xs asc all after =
      gather-none a xs asc (λ n low word. after n (omega arith) word)
  gather-along (suc c) a [] asc all after =
      sym (along-none a (suc c) (λ n low high. not_first n [] tt (all n low high)))
  gather-along (suc c) a (x ∷ xs) (up, small, onward) all after = elim (Bool-cases (x == a)) [
    | inl same ↦
        let e : x ≡ a = (==_iff x a).0 same in
        ap₂ ◌++◌ (ap v e) (
          gather-along c (suc a) xs (subst (λ k. Ascends (suc k) xs) e onward)
            (λ n low high. behind_first n a x xs e low (all n (omega arith) (omega arith)))
            (λ n low word. after n (omega arith) word))
    | inr other ↦
        let up' : suc a ≤ x = ground (arith, other) in
        let none = not_first a (x ∷ xs) (up', small, onward) (all a (omega arith) (omega arith)) in
        gather-along c (suc a) (x ∷ xs) (up', small, onward)
          (λ n low high. all n (omega arith) (omega arith))
          (λ n low word. after n (omega arith) word)
        ∙ sym (ap (λ l. l ++ along (suc a) c) none)
  ]

  pub along-skip :
      (c a d : ℕ) → ((n : ℕ) → a ≤ n → n < a + c → v n ≡ []) → along a (c + d) ≡ along (a + c) d
  along-skip zero a d none =
      let e : 0 + d ≡ d = omega arith in let f : a + 0 ≡ a = omega arith in rw (e, f) refl
  along-skip (suc c) a d none =
      let e : suc c + d ≡ suc (c + d) = omega arith in
      let f : a + suc c ≡ suc a + c = omega arith in
      ap (along a) e
      ∙ ap (λ l. l ++ along (suc a) (c + d)) (none a (omega arith) (omega arith))
      ∙ along-skip c (suc a) d (λ n low high. none n (omega arith) (omega arith))
      ∙ ap (λ k. along k d) (sym f)
