-- ===== src/Lib.antt =====
-- The bc3.online miner: a client that mines BC3 for a pool over stratum, or one published
-- template by itself, on the CPU and on GPUs.
--
-- The program's parts and how they interact. The stratum client (src/stratum.rs) reads lines
-- from the pool and makes a job (`MinerJob`, src/shared.rs) of each notification. CPU threads
-- (src/worker.rs) and GPU workers (src/gpu_worker.rs) search the job's headers, each on its own
-- extranonce2 values, by the rules of src/consensus.rs, and queue each share found for the
-- client to send. The GPU workers tune the window of their BC3Hash tables with src/tuning.rs.
-- src/solve.rs takes the place of the client for a template of its own.
--
-- Which file models which part:
-- - Common: tests, lists, bytes and words, `Option` and results. `naturals` is a stand-in for
--   floating-point numbers in the examples.
-- - Consensus (src/consensus.rs): Pow is `PowAlgo`; Header is `BlockHeader::serialize`; Target
--   is `compact_to_target`, `hash_meets_target`, `shl` and `target_for_difficulty`; Height is
--   `bip34_height`; Difficulty is `difficulty_of_hash` and `difficulty_of_bits`; Merkle is
--   `sha256d`, `root_from_steps`, `swab32` and `hash_to_display`.
-- - Solve (src/solve.rs): Script is `push_varint` and `bip34_height`, the writer of what
--   Consensus/Height reads; Template is `Template` with `parse` and `job`, and `assemble`; Dates
--   is `chrono_utc`, and Dates/Calendar the calendar it is compared with.
-- - Shared (src/shared.rs): Job is `MinerJob`, `FoundShare` and `same_search_space`; Claims is
--   `GpuCapability::set`, `gpus_mine` and `check_gpu_stalls`, on one record per GPU slot, with a
--   test of the PoW for a bit mask of them; Feed is the job and its generation, `publish_job`,
--   `clear_job`, `nudge` and `wait_for_job_after`, with its condition variable as a count of
--   notifications and a waiting thread that looks, sleeps or has returned; Gate is `AlgoGate`;
--   Best is `record_share`, what `note_pow` does to the best share, and `submit`; Plan is
--   `MiningPlan` with `status`, and `plan_cpu` of src/main.rs.
-- - Worker (src/worker.rs): Extranonce is `resume_point`, `en2_fits` and `encode_extranonce2`;
--   Mine is `mine_job`, whose three nested loops are `mine_job`, `sweep` and `run_batch`; Role
--   is `cpu_supports`, `CpuRole` and `start_on`; Thread is `run_worker`, a function of the jobs
--   a thread is woken with.
-- - Gpu (src/gpu_worker.rs, src/backend/mod.rs): Devices is `GpuDevice`, `select_gpu` and
--   `pick_opencl_for_cuda`; Budget is `HitBudget`; Autotune is `autotune` and the launch sizes
--   of `mine_job`; Cursor is `Cursor::take`; Hits is what `finish` does with the nonces of a
--   launch; Run is the state of `Worker` and `JobRun` with `finish`, and Run/Loop
--   `device_error`, `top_up`, `pump` and `mine_job`; Tune is `Tune`, through which the worker
--   drives Tuning/Tuner; Worker is `run_gpu_worker` with `switch_bc3`, `prepare_bc3` and the
--   drop of `GpuCapability`, a function of the rounds of its loop.
-- - Stratum (src/stratum.rs): Messages is `parse_difficulty`, `parse_extranonce1` and
--   `parse_notify`; Session is the state of `session` and what it sends, Session/Dispatch the
--   messages of the pool (`on_message`), Session/Connections the loop of `session` (`run_turns`)
--   and `run_client`, where a queue of shares that a failed session leaves is dropped; Backoff,
--   Requests (`Outstanding`), Rejects (`RejectLog`), Report (`HashrateReport`) and Lines
--   (`next_line`).
-- - Stats (src/stats.rs): `ShareRate`, the units of `format_duration` and what `format_shares`
--   counts.
-- - Wasm (wasm/src/lib.rs): the algorithm ids, `search_with`, `search_algo`, `hash_header_algo`
--   and `build_header`.
-- - Tuning (src/tuning.rs): Layout is `digits`, `rows`, `table_bytes` and `largest_fitting`;
--   Tuner is `Tuner::start`, `launched`, `ready` and `switched`.
--
-- How state and operations correspond. A method that changes its object is a function from the
-- object to the object and what is returned. Machine integers are natural numbers with the wrap-
-- around written out; `saturating_add` and `overflowing_add` likewise. Times are natural numbers
-- on one clock, milliseconds in Stratum and nanoseconds in Tuning, and a difference of times
-- stops at 0 as `duration_since` does. The bytes that a connection delivers are a list of reads.
-- The check of `generation` in `mine_job` is a function of how often it was made, so a theorem
-- about it holds for every moment at which a job may change. The atomic counters and the queue
-- that `mine_job` writes to are what it returns: the finds in their order and the hashes
-- counted.
--
-- The GPU worker runs against `Outside`: what the device answers, what the clock says and
-- whether the job has changed, each a function of how often the outside has been asked, so that
-- a theorem holds for every device and every moment. Its state keeps, beside the fields of the
-- source, the launches that came back, which no definition reads.
--
-- The loop around a card's jobs takes a list of rounds, each with its job, the clock, what
-- `mine_job` returned and whether the device reopens; the device has the operations of
-- `MiningBackend`.
--
-- Parameters. SHA-256, the BC3Hash function, hex encoding, JSON values (`Json`, and `Decoders`
-- for the solver's file) and `f64` are not part of the repository: they are arguments of the
-- definitions that use them, and what a theorem relies on stands among its hypotheses.
--
-- Fuel. `sweep` and `mine_job` take fuel. 2^32 is enough for the nonces of one extranonce2,
-- since a batch hashes at least one; the rounds of `mine_job` are enough when the counter has no
-- more steps left in its size, and for every size when the job has changed by then, as the
-- theorem on its end says. On the GPU `top_up` takes `rounds` of its queue's depth, which is
-- always enough: between two errors it queues no more launches than the depth, and five errors
-- end it. The switches that a tuning asks for are at most its tuner's fallbacks and one more.
-- `pump` takes fuel for each launch; there is enough for the turns until the job has changed and
-- the launches then in flight.
--
-- Not modelled: the rest of the state behind `Shared` and what its changes announce, the
-- solver's threads and output, the GPU drivers, the loop of the statistics, telemetry, the rest
-- of the command line, the window around the miner; of the browser's hasher, what only copies
-- memory; the sleep that lowers the intensity, and what is only printed.
pub mod Common
pub mod Consensus
pub mod Solve
pub mod Stats
pub mod Shared
pub mod Gpu
pub mod Wasm
pub mod Worker
pub mod Stratum
pub mod Tuning
