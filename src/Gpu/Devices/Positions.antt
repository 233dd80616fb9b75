-- ===== src/Gpu/Devices/Positions.antt =====
-- The places that an enumeration with a filter gives.
use Prim.Native.String.{String}
use bc3_online_miner.Common.{
  ℕ, zero, suc, ◌+◌, ◌-◌, ◌≤◌, Bool, true, none, some, List, [], ◌∷◌, get_elem?, if◌then◌else◌,
  if_cases, Bool-cases, ◌≡◌, refl, ap, sym, ◌∙◌, subst, arith, inl, inr,
}
use bc3_online_miner.Gpu.Devices.{GpuDevice, positions}

module _ (same : String → String → Bool) (nvidia : String → Bool) where
  -- A position of the enumeration is the place of a device that passes the test.
  pub record At (test : GpuDevice → Bool) (n : ℕ) (ds : List GpuDevice) (k : ℕ) : Type 0 where
    pub after : n ≤ k
    pub device : GpuDevice
    pub stands : get_elem? ds (k - n) ≡ some device
    pub passes : test device ≡ true

  At-cons :
      (test : GpuDevice → Bool) (n : ℕ) (d : GpuDevice) (ds : List GpuDevice) (k : ℕ)
      → At test (n + 1) ds k
      → At test n (d ∷ ds) k
  At-cons test n d ds k h =
      let step : k - n ≡ suc (k - (n + 1)) = omega (arith, h.after) in
      record {
        after = omega (arith, h.after);
        device = h.device;
        stands = ap (get_elem? (d ∷ ds)) step ∙ h.stands;
        passes = h.passes;
      }

  pub some-inj : {A : Type 0} (a b : A) → some a ≡ some b → a ≡ b
  some-inj a b e = ap (λ o. elim o [ none ↦ a | some x ↦ x ]) e

  pub none-some : {A : Type 0} (a : A) (P : Type 0) → none ≡ some a → P
  none-some a P e = absurd (subst (λ o. elim o [ none ↦ Unit | some _ ↦ ⊥ ]) e tt)

  positions-first :
      (test : GpuDevice → Bool) (d : GpuDevice) (ds : List GpuDevice) (n : ℕ) (rest : List ℕ)
      → test d ≡ true
      → ((r k : ℕ) → get_elem? rest r ≡ some k → At test (n + 1) ds k)
      → (r k : ℕ) → get_elem? (n ∷ rest) r ≡ some k
      → At test n (d ∷ ds) k
  positions-first test d ds n rest passes later zero k e =
      let here : n ≡ k = some-inj n k e in
      let none_before : k - n ≡ 0 = omega arith in
      record {
        after = omega arith;
        device = d;
        stands = ap (get_elem? (d ∷ ds)) none_before;
        passes = passes;
      }
  positions-first test d ds n rest passes later (suc r) k e = At-cons test n d ds k (later r k e)

  pub positions-At :
      (test : GpuDevice → Bool) (ds : List GpuDevice) (n r k : ℕ)
      → get_elem? (positions same nvidia test n ds) r ≡ some k
      → At test n ds k
  unfolding positions
  positions-At test [] n r k e = none-some k (At test n [] k) e
  positions-At test (d ∷ ds) n r k e = elim (Bool-cases (test d)) [
    | inl passes ↦
        positions-first test d ds n (positions same nvidia test (n + 1) ds) passes
          (positions-At test ds (n + 1)) r k
          (ap
              (λ b.
                get_elem?
                  (if b
                    then n ∷ positions same nvidia test (n + 1) ds
                    else positions same nvidia test (n + 1) ds)
                  r)
              (sym passes)
            ∙ e)
    | inr fails ↦ At-cons test n d ds k (
        positions-At test ds (n + 1) r k (
          ap
            (λ b.
              get_elem?
                (if b
                  then n ∷ positions same nvidia test (n + 1) ds
                  else positions same nvidia test (n + 1) ds)
                r)
            (sym fails)
          ∙ e))
  ]

  -- Numbers that rise: a value stands at one place only.
  abbrev pub Rising : ℕ → List ℕ → Type 0
  Rising n [] = Unit
  Rising n (k ∷ ks) = (n ≤ k) × Rising (suc k) ks

  Rising-least : (ks : List ℕ) (n r k : ℕ) → Rising n ks → get_elem? ks r ≡ some k → n ≤ k
  Rising-least [] n r k h e = none-some k (n ≤ k) e
  Rising-least (x ∷ ks) n zero k h e = omega (arith, h.0, some-inj x k e)
  Rising-least (x ∷ ks) n (suc r) k h e = omega (arith, h.0, Rising-least ks (suc x) r k h.1 e)

  pub Rising-once :
      (ks : List ℕ) (n r s k : ℕ)
      → Rising n ks
      → get_elem? ks r ≡ some k
      → get_elem? ks s ≡ some k
      → r ≡ s
  Rising-once [] n r s k h e f = none-some k (r ≡ s) e
  Rising-once (x ∷ ks) n zero zero k h e f = refl
  Rising-once (x ∷ ks) n zero (suc s) k h e f =
      absurd (omega (arith, some-inj x k e, Rising-least ks (suc x) s k h.1 f))
  Rising-once (x ∷ ks) n (suc r) zero k h e f =
      absurd (omega (arith, some-inj x k f, Rising-least ks (suc x) r k h.1 e))
  Rising-once (x ∷ ks) n (suc r) (suc s) k h e f = ap suc (Rising-once ks (suc x) r s k h.1 e f)

  Rising-weaken : (ks : List ℕ) (m n : ℕ) → m ≤ n → Rising n ks → Rising m ks
  Rising-weaken [] m n le h = tt
  Rising-weaken (k ∷ ks) m n le h = (omega (arith, h.0), h.1)

  pub positions-Rising :
      (test : GpuDevice → Bool) (ds : List GpuDevice) (n : ℕ)
      → Rising n (positions same nvidia test n ds)
  unfolding positions
  positions-Rising test [] n = tt
  positions-Rising test (d ∷ ds) n =
      let later = positions-Rising test ds (n + 1) in
      if_cases (Rising n) (test d)
        (λ _. (
          omega arith,
          Rising-weaken (positions same nvidia test (n + 1) ds) (suc n) (n + 1) (omega arith) later,
        ))
        (λ _. Rising-weaken (positions same nvidia test (n + 1) ds) n (n + 1) (omega arith) later)

  pub positions-cong :
      (f g : GpuDevice → Bool) (ds : List GpuDevice) (n : ℕ)
      → ((d : GpuDevice) → f d ≡ g d)
      → positions same nvidia f n ds ≡ positions same nvidia g n ds
  unfolding positions
  positions-cong f g [] n e = refl
  positions-cong f g (d ∷ ds) n e = rw (e d, positions-cong f g ds (n + 1) e) refl
