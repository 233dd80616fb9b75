-- ===== src/Stratum/Session.antt =====
-- src/stratum.rs: the state of `session`, and what it sends. What the socket gives is the list of
-- its reads; one turn of the loop has one reading of the clock. What is only printed is left out.
pub mod Dispatch
pub mod Connections
pub mod Fed
pub mod Answers
pub mod Clients
use Prim.Native.String.{String}
use bc3_online_miner.Common.{
  ℕ, zero, suc, ◌+◌, ◌-◌, ◌*◌, min, max, Bool, true, false, not, ◌&&◌, ◌||◌, Option, none, some,
  List, [], ◌∷◌, ◌++◌, ◌==◌, leb, ltb, length, if◌then◌else◌, u32_mod, u64_mod, Float,
}
use bc3_online_miner.Shared.Job.{MinerJob, FoundShare}
use bc3_online_miner.Shared.Feed.{Feed, publish_job, clear_job}
use bc3_online_miner.Stratum.Backoff.{Backoff, after}
use bc3_online_miner.Stratum.Requests.{Outstanding, sent, answered}
use bc3_online_miner.Stratum.Report as Report
use bc3_online_miner.Stratum.Report.{HashrateReport}
use bc3_online_miner.Stratum.Rejects as Rejects
use bc3_online_miner.Stratum.Rejects.{Window}
use bc3_online_miner.Stratum.Lines.{Read, Next, line, nothing_yet, error, next_line}
use bc3_online_miner.Stratum.Messages.{
  Json, text_eq, parse_difficulty, parse_extranonce1, parse_notify,
}

abbrev pub hashrate_id : ℕ
hashrate_id = 4

abbrev pub pool_silence_timeout : ℕ
pool_silence_timeout = 90000

abbrev pub healthy_session : ℕ
healthy_session = 60000

-- `io::Error`, by its kind; `from_socket` for those that the socket's calls return.
pub data SessionError : Type 0 where
  from_socket timed_out invalid_data permission_denied connection_reset : SessionError

-- What the miner sends; the texts of the configuration are left out.
pub data Message (F64 : Type 0) : Type 0 where
  subscribe : ℕ → Message F64
  suggest_difficulty : ℕ → F64 → Message F64
  authorize : ℕ → Message F64
  hashrate : ℕ → F64 → Message F64
  submit : ℕ → FoundShare → Message F64

-- The variables of `session`, and what it changes of the shared state.
pub record State (F64 : Type 0) : Type 0 where
  pub extranonce1 : List ℕ
  pub subscribed : Bool
  pub extranonce2_size : ℕ
  pub difficulty : F64
  pub warned_difficulty : Bool
  pub next_submit_id : ℕ
  pub rx_buf : List ℕ
  pub reads : List Read
  pub last_rx : ℕ
  pub rejects : List Window
  pub report : HashrateReport
  pub outstanding : Outstanding
  pub authorized_at : Option ℕ
  pub messages : List (Message F64)
  pub accepted : ℕ
  pub rejected : ℕ
  pub stale : ℕ
  -- microseconds; 0 before the first answer
  pub pool_rtt : ℕ
  pub feed : Feed

-- One turn of the loop: the clock, the hash counter, the shares in the queue, and whether the
-- socket takes what is sent.
pub record Turn : Type 0 where
  pub now : ℕ
  pub hashes : ℕ
  pub shares : List FoundShare
  pub writable : Bool

pub data Outcome (F64 : Type 0) : Type 0 where
  going : State F64 → Outcome F64
  failed : SessionError → State F64 → Outcome F64

infixl 5 ◌>>=◌
-- `?` on a result.
unfoldable pub ◌>>=◌ : {F64 : Type 0} → Outcome F64 → (State F64 → Outcome F64) → Outcome F64
going s >>= f = f s
failed e s >>= f = failed e s

module _ (float : Float) (json : Json float.F64) where
  open float use {F64, of_nat}
  open json use {
    Value, from_line, key, at, as_u64, as_str, as_array, is_null, is_number, is_true, is_false,
    to_text,
  }

  unfoldable pub send : Bool → Message F64 → State F64 → Outcome F64
  send true message s = going (record s { messages = s.messages ++ (message ∷ []) })
  send false message s = failed from_socket s

  -- A request whose answer is timed.
  unfoldable pub request : Turn → ℕ → Message F64 → State F64 → Outcome F64
  unfolding send
  request turn id message s = do
    s' ← send turn.writable message s
    going (record s' { outstanding = sent id turn.now s'.outstanding })

  abbrev pub suggest : Turn → Option F64 → State F64 → Outcome F64
  suggest turn none s = going s
  suggest turn (some d) s = request turn 3 (suggest_difficulty 3 d) s

  -- What is sent before the loop.
  unfoldable pub hello : Turn → Option F64 → State F64 → Outcome F64
  unfolding request
  hello turn suggestion s = do
    s1 ← request turn 1 (subscribe 1) s
    s2 ← suggest turn suggestion s1
    request turn 2 (authorize 2) s2

  abbrev pub report_rate : Turn → Option (ℕ × ℕ) × HashrateReport → State F64 → Outcome F64
  report_rate turn (none, report) s = going (record s { report = report })
  report_rate turn (some interval, report) s =
      send turn.writable (hashrate hashrate_id (Report.rate float interval))
        (record s { report = report })

  unfoldable pub submit_all : Turn → List FoundShare → State F64 → Outcome F64
  unfolding request
  submit_all turn [] s = going s
  submit_all turn (share ∷ shares) s = do
    s' ← request turn s.next_submit_id (submit s.next_submit_id share) s
    submit_all turn shares (record s' { next_submit_id = s'.next_submit_id + 1 })
