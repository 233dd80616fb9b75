-- ===== src/Gpu/Run/Chain.antt =====
-- Launches that follow one another: each begins where the one before it ends.
use bc3_online_miner.Common.{
  ℕ, ◌+◌, ◌≤◌, ◌<◌, List, [], ◌∷◌, ◌++◌, ◌≡◌, ◌∙◌, sym, subst, arith, true, Option, none, some,
  u32_mod,
}
use bc3_online_miner.Shared.Job.{MinerJob}
use bc3_online_miner.Worker.Extranonce.{encode_extranonce2, en2_fits}
use bc3_online_miner.Worker.Mine.{header_of}
use bc3_online_miner.Gpu.Cursor.{Cursor}
use bc3_online_miner.Gpu.Cursor.Steps.{walk, walk-add}
use bc3_online_miner.Gpu.Run.{InFlight, En2Header, en2_header}
use bc3_online_miner.Gpu.Run.Loop.{oldest}

-- Where a launch begins.
abbrev pub begins : InFlight → Cursor
begins l = record { en2 = l.en2; nonce = l.start }

-- The nonces of launches, added up.
unfoldable pub nonces : List InFlight → ℕ
nonces [] = 0
nonces (l ∷ ls) = l.count + nonces ls

module _ (stride : ℕ) where
  -- From the first cursor, launch after launch, to the second: no position twice, none left out.
  abbrev pub Chain : Cursor → List InFlight → Cursor → Type 0
  Chain c [] end = c ≡ end
  Chain c (l ∷ ls) end = (begins l ≡ c) × Chain (walk stride l.count c) ls end

  pub Chain-append :
      (c : Cursor) (xs : List InFlight) (m : Cursor) (ys : List InFlight) (end : Cursor)
      → Chain c xs m
      → Chain m ys end
      → Chain c (xs ++ ys) end
  Chain-append c [] m ys end here there = subst (λ k. Chain k ys end) (sym here) there
  Chain-append c (l ∷ ls) m ys end (at, onward) there =
      (at, Chain-append (walk stride l.count c) ls m ys end onward there)

  -- A launch behind the others.
  pub Chain-last :
      (c : Cursor) (xs : List InFlight) (m : Cursor) (l : InFlight) (end : Cursor)
      → Chain c xs m
      → begins l ≡ m
      → walk stride l.count m ≡ end
      → Chain c (xs ++ (l ∷ [])) end
  Chain-last c xs m l end before at moves = Chain-append c xs m (l ∷ []) end before (at, moves)

  pub Chain-walk :
      (c : Cursor) (xs : List InFlight) (end : Cursor)
      → Chain c xs end
      → walk stride (nonces xs) c ≡ end
  unfolding walk nonces
  Chain-walk c [] end e = e
  Chain-walk c (l ∷ ls) end (at, onward) =
      walk-add stride l.count (nonces ls) c ∙ Chain-walk (walk stride l.count c) ls end onward

  pub oldest-Chain :
      (c : Cursor) (xs : List InFlight) (end : Cursor) → Chain c xs end → oldest xs end ≡ c
  oldest-Chain c [] end e = sym e
  oldest-Chain c (l ∷ ls) end (at, onward) = at

pub nonces-append : (xs ys : List InFlight) → nonces (xs ++ ys) ≡ nonces xs + nonces ys
unfolding nonces
nonces-append [] ys = omega arith
nonces-append (l ∷ ls) ys = omega (arith, nonces-append ls ys)

module _ (sha256 : List ℕ → List ℕ) (job : MinerJob) where
  -- A launch of this job: the header belongs to its extranonce2, which fits the job, and its
  -- nonces, at least one, lie within the nonce space.
  pub record IsLaunch (l : InFlight) : Type 0 where
    pub encodes : l.extranonce2 ≡ encode_extranonce2 l.en2 job.extranonce2_size
    pub heads : l.header ≡ header_of sha256 job l.extranonce2 0
    pub fits : en2_fits l.en2 job.extranonce2_size ≡ true
    pub some_nonces : 0 < l.count
    pub within : l.start + l.count ≤ u32_mod

  -- The header kept for an extranonce2 is the one that would be built for it.
  abbrev pub Cached : Option En2Header → Type 0
  Cached none = Unit
  Cached (some h) = h ≡ en2_header sha256 job h.en2
