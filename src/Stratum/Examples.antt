-- ===== src/Stratum/Examples.antt =====
-- src/stratum.rs: the connection's parts at small inputs.
use Prim.Native.String.{String}
use bc3_online_miner.Stratum.Messages.{
  Json, text_eq, parse_extranonce1, parse_notify, parse_steps, bytes_32,
}
use bc3_online_miner.Stratum.Messages.Jobs.{GivesWords, just}
use bc3_online_miner.Stratum.Session
use bc3_online_miner.Stratum.Messages
use bc3_online_miner.Stratum.Report
use bc3_online_miner.Stratum.Rejects
use bc3_online_miner.Shared.Feed.{publish_job}
use bc3_online_miner.Stratum.Session.{Turn, hello, request, send, submit_all}
use bc3_online_miner.Stratum.Session.Dispatch.{on_message, on_subscribe, on_authorize, on_notify}
use bc3_online_miner.Stratum.Session.Connections.{
  Connection, Client, run_client, session, fresh, run_turns, turn_once,
}
use bc3_online_miner.Stratum.Session.Fed.{IsFed}
use bc3_online_miner.Consensus.Pow.{PowFn, hash_fn}
use bc3_online_miner.Consensus.Pow.Version.{bit}
use bc3_online_miner.Shared.Job.{MinerJob}
use bc3_online_miner.Common.{◌↔◌}
use bc3_online_miner.Stratum.Session.Clients.{run_client-IsFed}
use bc3_online_miner.Common.{
  ℕ, Bool, Option, ◌==◌, ◌<◌, if◌then◌else◌, naturals, replicate, u32_mod, ◌+◌, ◌≤◌, true, false,
  none, some, List, [], ◌∷◌, ◌≡◌, refl, arith, All,
}
use bc3_online_miner.Stratum.Requests.{answered, sent, forget_old, take_out}
use bc3_online_miner.Stratum.Rejects.Account.{run-account, rejects, dues, run, told, held}
use bc3_online_miner.Stratum.Report.{HashrateReport, start, due, answer, hashrate_report_every}
use bc3_online_miner.Stratum.Report.Windows.{reports-cover, reports, total, count_of}
use bc3_online_miner.Stratum.Lines.{Read, chunk, timed_out, next_line, split_line, strip_cr}
use bc3_online_miner.Stratum.Lines.Whole.{calls, calls-lines_of, cut, Capped-short}
use bc3_online_miner.Stratum.Lines.Framing.{next_line-Bounded, Bounded, stream}

-- `ab\r\nc`, cut in the middle.
abbrev two_reads : List Read
two_reads = chunk (97 ∷ 98 ∷ []) ∷ chunk (13 ∷ 10 ∷ 99 ∷ []) ∷ timed_out ∷ []

calls-lines_of_example : calls 8 two_reads [] ≡ ((97 ∷ 98 ∷ []) ∷ [], [], 99 ∷ [], none)
unfolding cut strip_cr
calls-lines_of_example =
    calls-lines_of 8 two_reads [] (tt, (tt, (tt, tt)))
      (Capped-short 0 (stream two_reads) (omega arith)) (omega arith)

next_line-Bounded_example : Bounded (next_line two_reads [])
next_line-Bounded_example = next_line-Bounded two_reads [] (omega arith) (omega arith)

run-account_example :
    told (run (rejects (1 ∷ []) 0 ∷ rejects (1 ∷ []) 5 ∷ dues 90000 ∷ []) []).0
      + held (run (rejects (1 ∷ []) 0 ∷ rejects (1 ∷ []) 5 ∷ dues 90000 ∷ []) []).1
    ≡ 2 + 0
run-account_example = run-account (rejects (1 ∷ []) 0 ∷ rejects (1 ∷ []) 5 ∷ dues 90000 ∷ []) []

reports-cover_example :
    let r =
      reports ((30000, 5) ∷ (61000, 9) ∷ []) (record { since = some (0, 2); refused = false }) in
    (total r.0 + 2 ≡ count_of r.1.since) × All (λ x. hashrate_report_every ≤ x.1) r.0
reports-cover_example = reports-cover ((30000, 5) ∷ (61000, 9) ∷ []) 0 2 (omega arith)

-- A stand-in for JSON: three messages of a pool, told apart by their first byte.
data JsonValue : Type 0 where
  null yes result params no_steps subscribed authorized notify : JsonValue
  number : ℕ → JsonValue
  text : String → JsonValue

abbrev key_of : JsonValue → String → JsonValue
key_of subscribed name =
    if text_eq name "id" then number 1 else if text_eq name "result" then result else null
key_of authorized name =
    if text_eq name "id" then number 2 else if text_eq name "result" then yes else null
key_of notify name =
    if text_eq name "method"
    then text "mining.notify"
    else if text_eq name "params"
    then params
    else null
key_of v name = null

abbrev at_of : JsonValue → ℕ → JsonValue
at_of result i = if i == 1 then text "f0" else number 4
at_of v i = null

abbrev number_of : JsonValue → Option ℕ
number_of (number n) = some n
number_of v = none

abbrev text_of : JsonValue → Option String
text_of (text t) = some t
text_of v = none

abbrev values_of : JsonValue → Option (List JsonValue)
values_of params = some (
    text "job"
    ∷ text "00"
    ∷ text "01"
    ∷ text "02"
    ∷ no_steps
    ∷ text "03"
    ∷ text "04"
    ∷ text "05"
    ∷ yes
    ∷ [])
values_of no_steps = some []
values_of v = none

abbrev is_number_of : JsonValue → ℕ → Bool
is_number_of (number n) k = n == k
is_number_of v k = false

abbrev is_yes : JsonValue → Bool
is_yes yes = true
is_yes v = false

abbrev is_null_of : JsonValue → Bool
is_null_of null = true
is_null_of v = false

abbrev first_byte : List ℕ → Option JsonValue
first_byte [] = none
first_byte (b ∷ bs) = some (if b == 1 then subscribed else if b == 2 then authorized else notify)

abbrev stand_in : Json ℕ
stand_in = record {
  Value = JsonValue;
  from_line = first_byte;
  key = key_of;
  at = at_of;
  as_u64 = number_of;
  as_f64 = number_of;
  as_str = text_of;
  as_array = values_of;
  is_null = is_null_of;
  is_number = is_number_of;
  is_true = is_yes;
  is_false = λ v. false;
  to_text = λ v. [];
  hex_decode = λ t. some (replicate 32 7);
  from_hex_u32 = λ t. some 0x20000800;
}

stand_in-GivesWords : GivesWords naturals stand_in
stand_in-GivesWords t = just (λ n. n < u32_mod) 0x20000800 (omega arith)

abbrev nobody : Client naturals stand_in
nobody = record {
  state = record {
    extranonce1 = [];
    subscribed = false;
    extranonce2_size = 4;
    difficulty = 1;
    warned_difficulty = false;
    next_submit_id = 100;
    rx_buf = [];
    reads = [];
    last_rx = 0;
    rejects = [];
    report = record { since = none; refused = false };
    outstanding = [];
    authorized_at = none;
    messages = [];
    accepted = 0;
    rejected = 0;
    stale = 0;
    pool_rtt = 0;
    feed = record {
      job = none;
      generation = 0;
      job_since = 0;
      algo = none;
      network_bits = 0;
      job_height = 0;
      notified = 0;
    };
  };
  ladder = record { next = 1 };
  waits = [];
  dropped = 0;
}

abbrev quiet_turn : Turn
quiet_turn = record { now = 5; hashes = 0; shares = []; writable = true }

-- The pool accepts, and sends a job.
abbrev a_connection : Connection naturals stand_in
a_connection = record {
  opens = true;
  opening = quiet_turn;
  suggestion = some 3;
  stream = chunk (1 ∷ 10 ∷ 2 ∷ []) ∷ chunk (10 ∷ 11 ∷ 10 ∷ []) ∷ [];
  loop = replicate 3 quiet_turn;
  failed_at = 9;
  queued = [];
}

-- The job was published.
fed_by_pool : (run_client naturals stand_in (a_connection ∷ []) nobody).state.feed.generation ≡ 1
unfolding run_client session fresh hello request send Session.◌>>=◌ run_turns turn_once submit_all
    next_line split_line strip_cr on_message on_subscribe on_authorize on_notify parse_extranonce1
    parse_notify parse_steps bytes_32 Messages.◌>>=◌ publish_job answered sent take_out forget_old
    due Report.due_since start Rejects.due Report.new
fed_by_pool = refl

run_client-IsFed_example :
    let fed = (run_client naturals stand_in (a_connection ∷ []) nobody).state.feed.job in
    IsFed naturals stand_in stand_in-GivesWords fed
    × ((build : PowFn) (job : MinerJob)
        → fed ≡ some job
        → (hash_fn (some build) job.algo ≡ some build) ↔ (bit 11 job.version ≡ 1))
run_client-IsFed_example =
    run_client-IsFed naturals stand_in stand_in-GivesWords (a_connection ∷ []) nobody tt
