-- ===== src/Gpu/Devices/Picks.antt =====
-- Two cards do not fall back to one OpenCL device.
use Prim.Native.String.{String}
use bc3_online_miner.Common.{
  ℕ, zero, suc, ◌+◌, ◌-◌, ◌≤◌, Bool, true, false, Option, none, some, List, [], ◌∷◌, ==_iff, length,
  get_elem?, if◌then◌else◌, if_cases, Bool-cases, ◌>>=◌, ◌≡◌, ◌≢◌, refl, ap, sym, ◌∙◌, subst, arith,
  inl, inr,
}
use bc3_online_miner.Gpu.Devices.{
  GpuDevice, cuda, opencl, is_cuda_named, is_opencl_named, has_index, rank_from, positions, by_rank,
  by_elimination, or_else, pick_opencl_for_cuda,
}
use bc3_online_miner.Gpu.Devices.Positions.{
  some-inj, none-some, positions-At, Rising-once, positions-Rising, positions-cong,
}

-- Equality but for the case of ASCII letters is an equivalence.
pub record IsEquivalence (same : String → String → Bool) : Type 0 where
  pub symmetric : (a b : String) → same a b ≡ same b a
  pub transitive : (a b : String) → same a b ≡ true → (c : String) → same c a ≡ same c b

module _ (same : String → String → Bool) (nvidia : String → Bool) where
  rank-least :
      (name : String) (index before : ℕ) (ds : List GpuDevice) (r : ℕ)
      → rank_from same nvidia name index before ds ≡ some r
      → before ≤ r
  unfolding rank_from
  rank-least name index before [] r = λ e. none-some same nvidia r (before ≤ r) e
  rank-least name index before (d ∷ ds) r =
      if_cases (λ o. o ≡ some r → before ≤ r) (is_cuda_named same nvidia name d)
        (λ _.
          if_cases (λ o. o ≡ some r → before ≤ r) (has_index same nvidia index d)
            (λ _ e. omega (arith, some-inj same nvidia before r e))
            (λ _ e. omega (arith, rank-least name index (before + 1) ds r e)))
        (λ _ e. rank-least name index before ds r e)

  -- One device of the list, seen by two searches.
  both_ranks :
      (named first second : Bool) (i j before r : ℕ) (next next' same_rank same_rank' : Option ℕ)
      → (first ≡ true → second ≡ true → i ≡ j)
      → (next ≡ some r → before + 1 ≤ r)
      → (next' ≡ some r → before + 1 ≤ r)
      → (next ≡ some r → next' ≡ some r → i ≡ j)
      → (same_rank ≡ some r → same_rank' ≡ some r → i ≡ j)
      → (if named then (if first then some before else next) else same_rank) ≡ some r
      → (if named then (if second then some before else next') else same_rank') ≡ some r
      → i ≡ j
  both_ranks true true true i j before r next next' same_rank same_rank' one low low' later other e
        f =
      one refl refl
  both_ranks true true false i j before r next next' same_rank same_rank' one low low' later other e
        f =
      absurd (omega (arith, some-inj same nvidia before r e, low' f))
  both_ranks true false true i j before r next next' same_rank same_rank' one low low' later other e
        f =
      absurd (omega (arith, some-inj same nvidia before r f, low e))
  both_ranks true false false i j before r next next' same_rank same_rank' one low low' later other
        e f =
      later e f
  both_ranks false first second i j before r next next' same_rank same_rank' one low low' later
        other e f =
      other e f

  same_index :
      (i j : ℕ) (d : GpuDevice)
      → has_index same nvidia i d ≡ true
      → has_index same nvidia j d ≡ true
      → i ≡ j
  same_index i j (cuda k n) e f = sym ((==_iff k i).0 e) ∙ (==_iff k j).0 f
  same_index i j (opencl p k n v) e f = ground (arith, e)

  -- Among the cards of one name, a rank belongs to one index.
  rank-once :
      (name : String) (i j before : ℕ) (ds : List GpuDevice) (r : ℕ)
      → rank_from same nvidia name i before ds ≡ some r
      → rank_from same nvidia name j before ds ≡ some r
      → i ≡ j
  unfolding rank_from
  rank-once name i j before [] r e f = none-some same nvidia r (i ≡ j) e
  rank-once name i j before (d ∷ ds) r e f =
      both_ranks (is_cuda_named same nvidia name d) (has_index same nvidia i d)
        (has_index same nvidia j d) i j before r (rank_from same nvidia name i (before + 1) ds)
        (rank_from same nvidia name j (before + 1) ds) (rank_from same nvidia name i before ds)
        (rank_from same nvidia name j before ds) (same_index i j d)
        (rank-least name i (before + 1) ds r) (rank-least name j (before + 1) ds r)
        (rank-once name i j (before + 1) ds r) (rank-once name i j before ds r) e f

  rank-cong :
      (name name' : String) (i before : ℕ) (ds : List GpuDevice)
      → ((d : GpuDevice) → is_cuda_named same nvidia name d ≡ is_cuda_named same nvidia name' d)
      → rank_from same nvidia name i before ds ≡ rank_from same nvidia name' i before ds
  unfolding rank_from
  rank-cong name name' i before [] e = refl
  rank-cong name name' i before (d ∷ ds) e =
      rw (e d, rank-cong name name' i (before + 1) ds e, rank-cong name name' i before ds e) refl

  -- With several cards a pick comes from the rank.
  record Ranked (cudas opencls : List GpuDevice) (i : ℕ) (name : String) (k : ℕ) : Type 0 where
    rank : ℕ
    found : rank_from same nvidia name i 0 cudas ≡ some rank
    picked :
        get_elem? (positions same nvidia (is_opencl_named same nvidia name) 0 opencls) rank ≡ some k

  bind-inv :
      {A : Type 0} (o : Option ℕ) (f : ℕ → Option A) (a : A)
      → (o >>= f) ≡ some a
      → (r : ℕ) × (o ≡ some r) × (f r ≡ some a)
  bind-inv none f a e = none-some same nvidia a _ e
  bind-inv (some r) f a e = (r, refl, e)

  by_elimination-none :
      (cudas opencls : List GpuDevice)
      → length cudas ≢ 1
      → by_elimination same nvidia cudas opencls ≡ none
  unfolding by_elimination
  by_elimination-none cudas opencls several = ground arith

  or_else-inv :
      (o other : Option ℕ) (k : ℕ)
      → other ≡ none
      → or_else same nvidia o other ≡ some k
      → o ≡ some k
  or_else-inv none other k none_left e = none-some same nvidia k (none ≡ some k) (sym none_left ∙ e)
  or_else-inv (some i) other k none_left e = e

  pick-Ranked :
      (cudas opencls : List GpuDevice) (i : ℕ) (name : String) (k : ℕ)
      → length cudas ≢ 1
      → pick_opencl_for_cuda same nvidia cudas opencls i name ≡ some k
      → Ranked cudas opencls i name k
  unfolding pick_opencl_for_cuda by_rank
  pick-Ranked cudas opencls i name k several e =
      let ranked =
        or_else-inv (by_rank same nvidia cudas opencls i name)
          (by_elimination same nvidia cudas opencls) k (by_elimination-none cudas opencls several)
          e in
      let (r, found, picked) = bind-inv (rank_from same nvidia name i 0 cudas) _ k ranked in
      record { rank = r; found = found; picked = picked }

  some_device : (a b : GpuDevice) → some a ≡ some b → a ≡ b
  some_device a b e = ap (λ o. elim o [ none ↦ a | some x ↦ x ]) e

  none-some_device : (a : GpuDevice) → none ≡ some a → ⊥
  none-some_device a e = subst (λ o. elim o [ none ↦ Unit | some _ ↦ ⊥ ]) e tt

  entry-index : (d : GpuDevice) (i j : ℕ) (n m : String) → d ≡ cuda i n → d ≡ cuda j m → i ≡ j
  entry-index d i j n m e f =
      ap (λ g. elim g [ cuda k name ↦ k | opencl p k name v ↦ i ]) (sym e ∙ f)

  -- Two cards of different indices are two entries.
  several :
      (cudas : List GpuDevice) (a b i j : ℕ) (n m : String)
      → get_elem? cudas a ≡ some (cuda i n)
      → get_elem? cudas b ≡ some (cuda j m)
      → i ≢ j
      → length cudas ≢ 1
  several [] a b i j n m e f apart one = omega arith
  several (d ∷ []) zero zero i j n m e f apart one =
      let first : d ≡ cuda i n = some_device d (cuda i n) e in
      let second : d ≡ cuda j m = some_device d (cuda j m) f in
      apart (entry-index d i j n m first second)
  several (d ∷ []) (suc a) b i j n m e f apart one = none-some_device (cuda i n) e
  several (d ∷ []) zero (suc b) i j n m e f apart one = none-some_device (cuda j m) f
  several (d ∷ d' ∷ ds) a b i j n m e f apart one = omega arith

  opencl-alike :
      IsEquivalence same
      → (n m : String) → same n m ≡ true
      → (d : GpuDevice) → is_opencl_named same nvidia m d ≡ is_opencl_named same nvidia n d
  opencl-alike laws n m names (cuda k name) = refl
  opencl-alike laws n m names (opencl p k name v) = sym (laws.transitive n m names name)

  cuda-alike :
      IsEquivalence same
      → (n m : String) → same n m ≡ true
      → (d : GpuDevice) → is_cuda_named same nvidia n d ≡ is_cuda_named same nvidia m d
  cuda-alike laws n m names (cuda k name) = laws.transitive n m names name
  cuda-alike laws n m names (opencl p k name v) = refl

  -- A device whose name is like both makes the two names alike.
  alike :
      IsEquivalence same
      → (d : GpuDevice) (n m : String) → is_opencl_named same nvidia n d ≡ true
      → is_opencl_named same nvidia m d ≡ true
      → same n m ≡ true
  alike laws (cuda k name) n m e f = ground (arith, e)
  alike laws (opencl p k name v) n m e f =
      laws.symmetric n m ∙ sym (laws.transitive name n e m) ∙ laws.symmetric m name ∙ f

  -- Cards of one name have different ranks, and ranks different places.
  same_cards :
      IsEquivalence same
      → (cudas opencls : List GpuDevice) (i j : ℕ) (n m : String) (k l : ℕ) → same n m ≡ true
      → Ranked cudas opencls i n k
      → Ranked cudas opencls j m l
      → k ≡ l
      → i ≡ j
  same_cards laws cudas opencls i j n m k l names first second picks =
      let places = positions same nvidia (is_opencl_named same nvidia n) 0 opencls in
      let one_list : positions same nvidia (is_opencl_named same nvidia m) 0 opencls ≡ places =
        positions-cong same nvidia (is_opencl_named same nvidia m) (is_opencl_named same nvidia n)
          opencls 0 (opencl-alike laws n m names) in
      let ranks : first.rank ≡ second.rank =
        Rising-once same nvidia places 0 first.rank second.rank k
          (positions-Rising same nvidia (is_opencl_named same nvidia n) opencls 0) first.picked
          (ap (λ ks. get_elem? ks second.rank) (sym one_list)
            ∙ second.picked
            ∙ ap some (sym picks)) in
      rank-once n i j 0 cudas first.rank first.found
        (rank-cong n m j 0 cudas (cuda-alike laws n m names) ∙ second.found ∙ ap some (sym ranks))

  -- Cards of different names are looked up among devices of different names.
  different_cards :
      IsEquivalence same
      → (cudas opencls : List GpuDevice) (i j : ℕ) (n m : String) (k l : ℕ) → same n m ≡ false
      → Ranked cudas opencls i n k
      → Ranked cudas opencls j m l
      → k ≡ l
      → ⊥
  different_cards laws cudas opencls i j n m k l names first second picks =
      let one =
        positions-At same nvidia (is_opencl_named same nvidia n) opencls 0 first.rank k
          first.picked in
      let two =
        positions-At same nvidia (is_opencl_named same nvidia m) opencls 0 second.rank l
          second.picked in
      let device : one.device ≡ two.device =
        some_device one.device two.device
          (sym one.stands ∙ ap (λ p. get_elem? opencls (p - 0)) picks ∙ two.stands) in
      let both : same n m ≡ true =
        alike laws one.device n m one.passes
          (ap (is_opencl_named same nvidia m) device ∙ two.passes) in
      ground (arith, both, names)

-- Two CUDA devices of the list, of different indices, that are each matched to an OpenCL device by
-- name or by elimination: the two OpenCL devices are different, whatever the lists hold, if the
-- comparison of names is an equivalence.
pub pick_opencl_for_cuda-distinct :
    (same : String → String → Bool) (nvidia : String → Bool)
    → IsEquivalence same
    → (cudas opencls : List GpuDevice) (a b i j : ℕ) (n m : String) (k l : ℕ)
    → get_elem? cudas a ≡ some (cuda i n)
    → get_elem? cudas b ≡ some (cuda j m)
    → i ≢ j
    → pick_opencl_for_cuda same nvidia cudas opencls i n ≡ some k
    → pick_opencl_for_cuda same nvidia cudas opencls j m ≡ some l
    → k ≢ l
pick_opencl_for_cuda-distinct same nvidia laws cudas opencls a b i j n m k l e f apart p q
      alike_picks =
    let two = several same nvidia cudas a b i j n m e f apart in
    let first = pick-Ranked same nvidia cudas opencls i n k two p in
    let second = pick-Ranked same nvidia cudas opencls j m l two q in
    elim (Bool-cases (same n m)) [
      | inl alike ↦
          apart
            (same_cards same nvidia laws cudas opencls i j n m k l alike first second alike_picks)
      | inr other ↦
          different_cards same nvidia laws cudas opencls i j n m k l other first second alike_picks
    ]
