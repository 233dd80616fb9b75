-- ===== src/Gpu/Run/Coverage.antt =====
-- A job's run covers its part of the search space in order.
use Prim.Native.String.{String}
use bc3_online_miner.Common.{
  ℕ, zero, suc, ◌+◌, ◌<◌, List, [], ◌∷◌, ◌≡◌, refl, sym, subst, arith, true, Option, none, some,
  u32_mod, All, All-append, if_cases, ltb, ltb→lt, ◌⊎◌, inl, inr,
}
use bc3_online_miner.Worker.Mine.Shares.{IsShare}
use bc3_online_miner.Gpu.Cursor.{Cursor}
use bc3_online_miner.Gpu.Cursor.Steps.{walk}
use bc3_online_miner.Gpu.Hits.{sort_unstable, dedup}
use bc3_online_miner.Gpu.Hits.Verified.{verify_hits-IsShare}
use bc3_online_miner.Gpu.Run.{Outside, Setup, State, InFlight, Scan, device_gone, finish}
use bc3_online_miner.Gpu.Run.Loop.{
  Step, go, gone, starved, Ended, ended, hungry, device_error, top_up, rounds, recover, collect_one,
  settle, receive, pop_front, after_top_up, pump,
}
use bc3_online_miner.Gpu.Run.Chain.{begins, Chain, Chain-last, IsLaunch, nonces, nonces-append}
use bc3_online_miner.Gpu.Run.Launches.{
  OnStep, IsSound, device_error-IsSound, recover-IsSound, top_up-IsSound,
}

module _ (sha256 : List ℕ → List ℕ) (hex_encode : List ℕ → String) (outside : Outside)
    (setup : Setup) (start : Cursor) where
  -- A launch that came back joins the finished ones.
  finish-IsSound :
      (s : State) (l : InFlight) (scan : Scan) (done base : Cursor)
      → IsSound sha256 setup start done base s
      → IsLaunch sha256 setup.job l
      → begins l ≡ done
      → walk setup.stride l.count done ≡ base
      → IsSound sha256 setup start base base
          (record (finish hex_encode outside setup s l scan) { said_hashing = true })
  unfolding finish nonces
  finish-IsSound s l scan done base sound launch at moves = record {
    finished = Chain-last setup.stride start s.finished done l base sound.finished at moves;
    inflight = sound.inflight;
    within = sound.within;
    launches = sound.launches;
    came_back =
        All-append (IsLaunch sha256 setup.job) s.finished (l ∷ []) sound.came_back (launch, tt);
    cached = sound.cached;
    shares = All-append (IsShare sha256 setup.verify setup.job) s.finds _ sound.shares (
        rw launch.heads (
          verify_hits-IsShare sha256 hex_encode setup.verify setup.job l.extranonce2 l.start l.count
            (dedup (sort_unstable scan.hits))));
    counted = omega (arith, sound.counted, nonces-append s.finished (l ∷ []));
  }

  -- All that came back is finished, but for one launch if the device went away with it at hand.
  abbrev pub Lost : Cursor → Cursor → Type 0
  Lost done base =
      (1 < setup.depth)
      × (l : InFlight) × IsLaunch sha256 setup.job l
      × (begins l ≡ done)
      × (walk setup.stride l.count done ≡ base)

  abbrev After : Step → Type 0
  After (go s) = (base : Cursor) × IsSound sha256 setup start base base s
  After (gone s) =
      (done : Cursor) × (base : Cursor) × IsSound sha256 setup start done base s
      × (s.inflight ≡ [])
      × ((done ≡ base) ⊎ Lost done base)
  After (starved s) = (done : Cursor) × (base : Cursor) × IsSound sha256 setup start done base s

  -- What is left to do for a launch at hand once the second `top_up` has run.
  finish_topped :
      (l : InFlight) (scan : Scan) (done base : Cursor) (topped : Step)
      → OnStep (IsSound sha256 setup start done base) topped
      → 1 < setup.depth
      → IsLaunch sha256 setup.job l
      → begins l ≡ done
      → walk setup.stride l.count done ≡ base
      → After (settle sha256 outside setup hex_encode l scan topped)
  finish_topped l scan done base (go s) h deep launch at moves =
      (base, finish-IsSound s l scan done base h launch at moves)
  finish_topped l scan done base (gone s) h deep launch at moves =
      (done, base, h.0, h.1, inr (deep, l, launch, at, moves))
  finish_topped l scan done base (starved s) h deep launch at moves = (done, base, h)

  -- No error so far.
  fine-IsSound :
      (s : State) (done base : Cursor)
      → IsSound sha256 setup start done base s
      → IsSound sha256 setup start done base (record s { errors = 0 })
  fine-IsSound s done base sound = record {
    finished = sound.finished;
    inflight = sound.inflight;
    within = sound.within;
    launches = sound.launches;
    came_back = sound.came_back;
    cached = sound.cached;
    shares = sound.shares;
    counted = sound.counted;
  }

  collect_one-After :
      (s : State) (l : InFlight) (scan : Scan) (done base : Cursor)
      → IsSound sha256 setup start done base s
      → IsLaunch sha256 setup.job l
      → begins l ≡ done
      → walk setup.stride l.count done ≡ base
      → After (collect_one sha256 outside setup hex_encode s l scan)
  unfolding collect_one
  collect_one-After s l scan done base sound launch at moves =
      let fine : State = record s { errors = 0 } in
      let settled = fine-IsSound s done base sound in
      if_cases (λ t. After (settle sha256 outside setup hex_encode l scan t)) (ltb 1 setup.depth)
        (λ deep.
          finish_topped l scan done base
            (top_up sha256 outside setup (rounds sha256 outside setup) fine)
            (top_up-IsSound sha256 setup start done base outside (rounds sha256 outside setup) fine
              settled)
            (ltb→lt 1 setup.depth deep) launch at moves)
        (λ shallow. (base, finish-IsSound fine l scan done base settled launch at moves))

  on_error : (base : Cursor) (r : Step) → OnStep (IsSound sha256 setup start base base) r → After r
  on_error base (go s) h = (base, h)
  on_error base (gone s) h = (base, base, h.0, h.1, inl refl)
  on_error base (starved s) h = (base, base, h)

  -- The launch at the front has been taken out.
  receive-After :
      (s : State) (l : InFlight) (behind : List InFlight) (turns : ℕ) (base : Cursor)
      (answer : Option Scan)
      → IsSound sha256 setup start base base s
      → s.inflight ≡ l ∷ behind
      → After (
          receive sha256 outside setup hex_encode
            (record s { inflight = behind; turns = turns })
            l
            answer)
  receive-After s l behind turns base answer sound e =
      let waiting = subst (λ ls. Chain setup.stride base ls s.cursor) e sound.inflight in
      let launches = subst (All (IsLaunch sha256 setup.job)) e sound.launches in
      let small : l.start < u32_mod = omega (arith, launches.0.within, launches.0.some_nonces) in
      let popped : State = record s { inflight = behind; turns = turns } in
      elim answer as (λ a. After (receive sha256 outside setup hex_encode popped l a)) [
        | none ↦ on_error base (recover (device_error popped (begins l))) (
            recover-IsSound sha256 setup start base base (device_error popped (begins l)) (
              device_error-IsSound sha256 setup start base base popped (begins l) sound.finished
                sound.came_back sound.cached sound.shares sound.counted (sym waiting.0) small))
        | some scan ↦
            collect_one-After popped l scan base (walk setup.stride l.count base)
              (record {
                finished = sound.finished;
                inflight = waiting.1;
                within = sound.within;
                launches = launches.1;
                came_back = sound.came_back;
                cached = sound.cached;
                shares = sound.shares;
                counted = sound.counted;
              })
              launches.0 waiting.0 refl
      ]

  abbrev pub Covers : Ended → Type 0
  Covers (ended e s) =
      (done : Cursor) × (base : Cursor) × IsSound sha256 setup start done base s
      × (s.inflight ≡ [])
      × ((done ≡ base) ⊎ ((e ≡ device_gone) × Lost done base))
  Covers (hungry s) = (done : Cursor) × (base : Cursor) × IsSound sha256 setup start done base s

  after_top_up-Covers :
      (onward : State → Ended) (r : Step)
      → ((s : State) (base : Cursor) → IsSound sha256 setup start base base s → Covers (onward s))
      → After r
      → Covers (after_top_up sha256 outside setup onward r)
  after_top_up-Covers onward (go s) k h = k s h.0 h.1
  after_top_up-Covers onward (gone s) k (done, base, sound, empty, inl same) =
      (done, base, sound, empty, inl same)
  after_top_up-Covers onward (gone s) k (done, base, sound, empty, inr lost) =
      (done, base, sound, empty, inr (refl, lost))
  after_top_up-Covers onward (starved s) k h = h

  pop_front-Covers :
      (onward : State → Ended) (s : State) (base : Cursor) (waiting : List InFlight)
      → ((s' : State) (base : Cursor)
          → IsSound sha256 setup start base base s'
          → Covers (onward s'))
      → IsSound sha256 setup start base base s
      → s.inflight ≡ waiting
      → Covers (pop_front sha256 outside setup hex_encode onward s waiting)
  pop_front-Covers onward s base [] k sound e = (base, base, sound, e, inl refl)
  pop_front-Covers onward s base (l ∷ behind) k sound e =
      after_top_up-Covers onward _ k
        (receive-After s l behind (s.turns + 1) base (outside.collect s.turns) sound e)

  pub pump-Covers :
      (fuel : ℕ) (s : State) (base : Cursor)
      → IsSound sha256 setup start base base s
      → Covers (pump sha256 outside setup hex_encode fuel s)
  unfolding pump
  pump-Covers zero s base sound = (base, base, sound)
  pump-Covers (suc fuel) s base sound =
      let enough = rounds sha256 outside setup in
      after_top_up-Covers
        (λ s'.
          pop_front sha256 outside setup hex_encode (pump sha256 outside setup hex_encode fuel) s'
            s'.inflight)
        (top_up sha256 outside setup enough s)
        (λ s' base' sound'.
          pop_front-Covers (pump sha256 outside setup hex_encode fuel) s' base' s'.inflight
            (pump-Covers fuel) sound' refl)
        (on_error base (top_up sha256 outside setup enough s)
          (top_up-IsSound sha256 setup start base base outside enough s sound))
