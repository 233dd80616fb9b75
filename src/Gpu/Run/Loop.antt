-- ===== src/Gpu/Run/Loop.antt =====
-- src/gpu_worker.rs: `device_error`, `top_up`, `pump` and `mine_job`.
use Prim.Native.String.{String}
use bc3_online_miner.Common.{
  ℕ, zero, suc, ◌+◌, ◌*◌, max, Bool, true, false, Option, none, some, List, [], ◌∷◌, ◌++◌,
  if◌then◌else◌, ltb, leb, length,
}
use bc3_online_miner.Shared.Job.{MinerJob, same_search_space}
use bc3_online_miner.Worker.Extranonce.{en2_fits}
use bc3_online_miner.Gpu.Budget.{chunk}
use bc3_online_miner.Gpu.Autotune.{first_batch}
use bc3_online_miner.Gpu.Cursor.{Cursor, take_launch}
use bc3_online_miner.Gpu.Run.{
  Outside, Setup, State, Launch, InFlight, Scan, JobEnd, changed, exhausted, device_gone,
  max_scan_errors, en2_header, header_or_new, finish,
}

-- `Result<(), JobEnd>` of `device_error`; the error is always that the device is gone.
pub data Recovery : Type 0 where
  recovered : State → Recovery
  unrecovered : State → Recovery

-- The same of `top_up`, or that the model's fuel ran out.
pub data Step : Type 0 where
  go : State → Step
  gone : State → Step
  starved : State → Step

-- One round of `top_up`'s loop: it is over, or goes on, or the device is gone.
pub data Round : Type 0 where
  over : State → Round
  again : State → Round
  lost : State → Round

-- How a job ended for the worker, or that the model's fuel ran out.
pub data Ended : Type 0 where
  ended : JobEnd → State → Ended
  hungry : State → Ended

unfoldable pub device_error : State → Cursor → Recovery
device_error s restart =
    let given_up = record s {
      inflight = [];
      cursor = restart;
      last_collect = none;
      errors = s.errors + 1;
    } in
    if leb max_scan_errors (s.errors + 1)
    then unrecovered (record given_up { errors = 0 })
    else recovered given_up

-- The oldest launch not done is where to start again.
abbrev pub oldest : List InFlight → Cursor → Cursor
oldest [] restart = restart
oldest (l ∷ ls) restart = record { en2 = l.en2; nonce = l.start }

abbrev pub retry : Recovery → Round
retry (recovered s) = again s
retry (unrecovered s) = lost s

abbrev pub recover : Recovery → Step
recover (recovered s) = go s
recover (unrecovered s) = gone s

abbrev pub is_open : Option JobEnd → Bool
is_open none = true
is_open (some e) = false

module _ (sha256 : List ℕ → List ℕ) (outside : Outside) (setup : Setup) where
  -- Queue the launch that `take_launch` gave.
  unfoldable pub queue_launch : State → Cursor × ℕ × ℕ × ℕ → Round
  unfolding device_error en2_header
  queue_launch s taken =
      let (after, en2, start, count) = taken in
      let h = header_or_new sha256 setup.job en2 s.header in
      let launch : Launch = record {
        algo = setup.algo;
        header76 = h.header76;
        start = start;
        count = count;
        target = setup.job.share_target;
      } in
      let asked = record s { cursor = after; header = some h; turns = s.turns + 2 } in
      if outside.enqueue (s.turns + 1) launch
      then again (record asked {
        inflight =
            s.inflight
            ++ (record {
              en2 = en2;
              extranonce2 = h.extranonce2;
              header = h.header;
              start = start;
              count = count;
              queued = outside.clock (s.turns + 1);
            }
                ∷ []);
      })
      else retry (device_error asked (oldest s.inflight s.cursor))

  unfoldable pub round : State → Round
  unfolding queue_launch
  round s =
      if is_open s.ending
      then (if ltb (length s.inflight) setup.depth
          then (if outside.has_changed s.turns
              then over (record s { ending = some changed; turns = s.turns + 1 })
              else if en2_fits s.cursor.en2 setup.job.extranonce2_size
              then queue_launch s
                  (take_launch s.cursor (max (chunk s.budget s.batch) 1) setup.stride)
              else over (record s { ending = some exhausted; turns = s.turns + 1 }))
          else over s)
      else over s

  abbrev pub after_round : (State → Step) → Round → Step
  after_round onward (over s) = go s
  after_round onward (again s) = onward s
  after_round onward (lost s) = gone s

  unfoldable pub top_up : ℕ → State → Step
  unfolding round
  top_up zero s = starved s
  top_up (suc fuel) s = after_round (top_up fuel) (round s)

  -- Rounds that are enough for `top_up`: errors are never reset in it, and between two of them
  -- it queues `depth` launches at most.
  abbrev pub rounds : ℕ
  rounds = 6 * (setup.depth + 1)

  abbrev pub after_top_up : (State → Ended) → Step → Ended
  after_top_up onward (go s) = onward s
  after_top_up onward (gone s) = ended device_gone s
  after_top_up onward (starved s) = hungry s

  abbrev pub end_of : Option JobEnd → JobEnd
  end_of none = changed
  end_of (some e) = e

  module _ (hex_encode : List ℕ → String) where
    -- `let elapsed = self.finish(run, done, scan)` and what follows it.
    abbrev pub settle : InFlight → Scan → Step → Step
    settle done scan (go s) =
        go (record (finish hex_encode outside setup s done scan) { said_hashing = true })
    settle done scan (gone s) = gone s
    settle done scan (starved s) = starved s

    -- `if run.depth > 1 { self.top_up(...)?; }`, then the launch that came back is finished.
    unfoldable pub collect_one : State → InFlight → Scan → Step
    unfolding top_up
    collect_one s done scan =
        let fine = record s { errors = 0 } in
        let topped = if ltb 1 setup.depth then top_up rounds fine else go fine in
        settle done scan topped

    -- The launch `done` has been taken from the queue.
    abbrev pub receive : State → InFlight → Option Scan → Step
    receive s done none = recover (device_error s (record { en2 = done.en2; nonce = done.start }))
    receive s done (some scan) = collect_one s done scan

    abbrev pub pop_front : (State → Ended) → State → List InFlight → Ended
    pop_front onward s [] = ended (end_of s.ending) s
    pop_front onward s (done ∷ behind) = after_top_up onward (
        receive (record s { inflight = behind; turns = s.turns + 1 }) done
          (outside.collect s.turns))

    unfoldable pub pump : ℕ → State → Ended
    unfolding top_up collect_one device_error
    pump zero s = hungry s
    pump (suc fuel) s = after_top_up (λ s'. pop_front (pump fuel) s' s'.inflight) (top_up rounds s)

-- `self.prev.as_ref().is_none_or(|p| !p.same_search_space(job))`
abbrev pub is_new : Option MinerJob → MinerJob → Bool
is_new none job = true
is_new (some p) job = if same_search_space p job then false else true

-- The worker before `mine_job`, and what the run of the job starts from.
unfoldable pub begin : Setup → Option MinerJob → ℕ → State → State
unfolding same_search_space
begin setup prev worker_index s = record s {
  cursor = if is_new prev setup.job then record { en2 = worker_index; nonce = 0 } else s.cursor;
  batch = first_batch setup.granule s.batch;
  inflight = [];
  ending = none;
  header = none;
}

unfoldable pub mine_job :
    (List ℕ → List ℕ)
    → (List ℕ → String)
    → Outside
    → Setup
    → ℕ
    → Option MinerJob
    → ℕ
    → State
    → Ended
unfolding begin pump
mine_job sha256 hex_encode outside setup fuel prev worker_index s =
    pump sha256 outside setup hex_encode fuel (begin setup prev worker_index s)

-- The device was opened again.
unfoldable pub reopened : State → State
reopened s = record s { errors = 0; said_hashing = false; last_collect = none }
