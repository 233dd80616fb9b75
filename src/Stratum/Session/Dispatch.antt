-- ===== src/Stratum/Session/Dispatch.antt =====
-- src/stratum.rs: what `session` does with one message of the pool.
use Prim.Native.String.{String}
use bc3_online_miner.Common.{
  ℕ, ◌+◌, ◌-◌, ◌*◌, min, max, Bool, true, false, not, ◌&&◌, ◌||◌, Option, none, some, List, [], leb,
  ltb, length, if◌then◌else◌, u64_mod, Float,
}
use bc3_online_miner.Shared.Job.{MinerJob}
use bc3_online_miner.Shared.Feed.{publish_job}
use bc3_online_miner.Stratum.Requests.{Outstanding, answered}
use bc3_online_miner.Stratum.Report as Report
use bc3_online_miner.Stratum.Report.{HashrateReport}
use bc3_online_miner.Stratum.Rejects as Rejects
use bc3_online_miner.Stratum.Rejects.{Window}
use bc3_online_miner.Stratum.Messages.{
  Json, text_eq, parse_difficulty, parse_extranonce1, parse_notify,
}
use bc3_online_miner.Stratum.Session.{
  hashrate_id, invalid_data, permission_denied, connection_reset, State, Turn, Outcome, going,
  failed, ◌>>=◌,
}

module _ (float : Float) (json : Json float.F64) where
  open float use {F64, of_nat}
  open json use {
    Value, from_line, key, at, as_u64, as_str, as_array, is_null, is_number, is_true, is_false,
    to_text,
  }

  -- `record_pool_rtt`: microseconds, at least 1.
  abbrev pub timed : Option ℕ × Outstanding → State F64 → State F64
  timed (none, o) s = record s { outstanding = o }
  timed (some rtt, o) s = record s {
    outstanding = o;
    pool_rtt = min (max (rtt * 1000) 1) (u64_mod - 1);
  }

  abbrev pub time_answer : ℕ → Option ℕ → State F64 → State F64
  time_answer now none s = s
  time_answer now (some id) s = timed (answered id now s.outstanding) s

  abbrev pub with_extranonce1 : Option (List ℕ) → State F64 → Outcome F64
  with_extranonce1 none s = failed invalid_data s
  with_extranonce1 (some extranonce1) s =
      going (record s { extranonce1 = extranonce1; subscribed = true })

  abbrev pub or_four : Option ℕ → ℕ
  or_four none = 4
  or_four (some size) = size

  -- The answer to `mining.subscribe`.
  unfoldable pub on_subscribe : Value → State F64 → Outcome F64
  on_subscribe msg s =
      let r = key msg "result" in
      if is_null r then failed invalid_data s else (do
        s' ← with_extranonce1 (parse_extranonce1 float json (at r 1)) s
        let size = or_four (as_u64 (at r 2))
        let sized = record s' { extranonce2_size = size }
        if leb 1 size && leb size 16 then going sized else failed invalid_data sized)

  unfoldable pub on_authorize : Turn → Value → State F64 → Outcome F64
  on_authorize turn msg s =
      if is_true (key msg "result")
      then going (record s {
        authorized_at = some turn.now;
        report = Report.start turn.now turn.hashes s.report;
      })
      else failed permission_denied s

  -- The answer to a reported hashrate.
  unfoldable pub on_hashrate : Value → State F64 → Outcome F64
  on_hashrate msg s =
      let refused = not (is_null (key msg "error")) || is_false (key msg "result") in
      going (record s { report = (Report.answer refused s.report).1 })

  -- The answer to a share.
  unfoldable pub on_share : Turn → Value → State F64 → Outcome F64
  on_share turn msg s =
      let error = key msg "error" in
      if is_true (key msg "result")
      then going (record s { accepted = s.accepted + 1 })
      else going (record s {
        rejected = s.rejected + 1;
        rejects = (Rejects.reject (to_text error) turn.now s.rejects).1;
        stale = if is_number (at error 0) 21 then s.stale + 1 else s.stale;
      })

  abbrev pub set_difficulty : Option F64 → State F64 → State F64
  set_difficulty (some d) s = record s { difficulty = d }
  set_difficulty none s = record s { warned_difficulty = true }

  abbrev pub publish : Turn → Option MinerJob → State F64 → State F64
  publish turn (some job) s = record s { feed = publish_job job (turn.now * 1000) s.feed }
  publish turn none s = s

  abbrev pub or_no_values : Option (List Value) → List Value
  or_no_values none = []
  or_no_values (some vs) = vs

  unfoldable pub on_notify : Turn → Value → State F64 → State F64
  on_notify turn msg s =
      let p = or_no_values (as_array (key msg "params")) in
      if ltb (length p) 9 || not s.subscribed
      then s
      else publish turn (parse_notify float json p s.extranonce1 s.extranonce2_size s.difficulty) s

  abbrev pub on_method : Turn → Value → Option String → State F64 → Outcome F64
  on_method turn msg none s = going s
  on_method turn msg (some method) s =
      if text_eq method "mining.set_difficulty"
      then going (set_difficulty (parse_difficulty float json (at (key msg "params") 0)) s)
      else if text_eq method "mining.notify"
      then going (on_notify turn msg s)
      else if text_eq method "client.reconnect"
      then failed connection_reset s
      else going s

  -- `if let Some(id) = msg["id"].as_u64() { if id >= 100 {`
  abbrev pub is_share_id : Option ℕ → Bool
  is_share_id none = false
  is_share_id (some id) = leb 100 id

  -- One message of the pool.
  unfoldable pub on_message : Turn → Value → State F64 → Outcome F64
  unfolding on_subscribe on_authorize on_hashrate on_share on_notify
  on_message turn msg s0 =
      let id = key msg "id" in
      let s = time_answer turn.now (as_u64 id) s0 in
      if is_number id 1
      then on_subscribe msg s
      else if is_number id 2
      then on_authorize turn msg s
      else if is_number id hashrate_id
      then on_hashrate msg s
      else if is_share_id (as_u64 id)
      then on_share turn msg s
      else on_method turn msg (as_str (key msg "method")) s

  abbrev pub on_json : Turn → Option Value → State F64 → Outcome F64
  on_json turn none s = going s
  on_json turn (some msg) s = on_message turn msg s
