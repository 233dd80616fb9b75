-- ===== src/Stratum/Session/Answers.antt =====
-- What the pool says, message by message, keeps the connection's job well formed.
use Prim.Native.String.{String}
use bc3_online_miner.Common.{
  ℕ, ◌-◌, ◌≤◌, Bool, true, false, not, ◌&&◌, ◌||◌, Option, none, some, List, ◌≡◌, refl, ap, inl,
  inr, arith, leb, leb→le, ltb, length, if◌then◌else◌, if_cases, if_either, Bool-cases, Float,
}
use bc3_online_miner.Shared.Job.{MinerJob}
use bc3_online_miner.Shared.Feed.{publish_job}
use bc3_online_miner.Stratum.Lines.{Read, Next, line, nothing_yet, error}
use bc3_online_miner.Stratum.Messages.{Json, text_eq, parse_extranonce1, max_extranonce1}
use bc3_online_miner.Stratum.Messages.Jobs.{
  OnSome, GivesWords, IsNotified, IsDifficulty, parse_notify-IsNotified,
  parse_difficulty-IsDifficulty, parse_extranonce1-length,
}
use bc3_online_miner.Stratum.Session.{
  State, Turn, going, failed, SessionError, ◌>>=◌, hashrate_id, pool_silence_timeout,
}
use bc3_online_miner.Stratum.Session.Dispatch.{
  publish, time_answer, with_extranonce1, on_subscribe, on_authorize, on_hashrate, on_share,
  on_notify, set_difficulty, on_method, on_message, is_share_id, on_json, or_four, or_no_values,
}
use bc3_online_miner.Stratum.Session.Connections.{on_next}
use bc3_online_miner.Stratum.Session.Fed.{IsSession, OnOutcome, time_answer-IsSession}

&&-both : (a b : Bool) → (a && b) ≡ true → (a ≡ true) × (b ≡ true)
&&-both true b e = (refl, e)
&&-both false b e = ground (arith, e)

module _ (float : Float) (json : Json float.F64) (words : GivesWords float json) where
  open float use {F64, of_nat}
  open json use {Value, from_line, key, at, as_u64, as_str, as_array, is_number}

  -- An extranonce1 that decodes, and a size within its bounds.
  sized-IsSession :
      (o : Option (List ℕ)) (size : ℕ) (s : State F64)
      → OnSome (λ b. length b ≤ max_extranonce1) o
      → IsSession float json words s
      → OnOutcome float json words (
          with_extranonce1 float json o s >>= λ s'.
          if leb 1 size && leb size 16
          then going (record s' { extranonce2_size = size })
          else failed SessionError.invalid_data (record s' { extranonce2_size = size }))
  unfolding ◌>>=◌
  sized-IsSession none size s short h = h.0
  sized-IsSession (some extranonce1) size s short h =
      if_cases (OnOutcome float json words) (leb 1 size && leb size 16)
        (λ e.
          let (low, high) = &&-both (leb 1 size) (leb size 16) e in
          (h.0, h.1, λ _. (short.holds extranonce1 refl, leb→le 1 size low, leb→le size 16 high)))
        (λ _. h.0)

  pub on_subscribe-IsSession :
      (msg : Value) (s : State F64)
      → IsSession float json words s
      → OnOutcome float json words (on_subscribe float json msg s)
  unfolding on_subscribe
  on_subscribe-IsSession msg s h =
      let r = key msg "result" in
      if_either (OnOutcome float json words) (json.is_null r) h.0 (
        sized-IsSession (parse_extranonce1 float json (at r 1))
          (or_four float json (as_u64 (at r 2))) s (parse_extranonce1-length float json (at r 1)) h)

  pub on_authorize-IsSession :
      (turn : Turn) (msg : Value) (s : State F64)
      → IsSession float json words s
      → OnOutcome float json words (on_authorize float json turn msg s)
  unfolding on_authorize
  on_authorize-IsSession turn msg s h =
      if_either (OnOutcome float json words) (json.is_true (key msg "result")) h h.0

  pub on_share-IsSession :
      (turn : Turn) (msg : Value) (s : State F64)
      → IsSession float json words s
      → OnOutcome float json words (on_share float json turn msg s)
  unfolding on_share
  on_share-IsSession turn msg s h =
      if_either (OnOutcome float json words) (json.is_true (key msg "result")) h h

  set_difficulty-IsSession :
      (o : Option F64) (s : State F64)
      → OnSome (IsDifficulty float json) o
      → IsSession float json words s
      → IsSession float json words (set_difficulty float json o s)
  set_difficulty-IsSession none s good h = h
  set_difficulty-IsSession (some d) s good h = (h.0, inr (good.holds d refl), h.2)

  -- A job made of what the connection has agreed on.
  publish-IsSession :
      (turn : Turn) (o : Option MinerJob) (s : State F64)
      → OnSome (IsNotified float json s.extranonce1 s.extranonce2_size s.difficulty) o
      → s.subscribed ≡ true
      → IsSession float json words s
      → IsSession float json words (publish float json turn o s)
  unfolding publish_job
  publish-IsSession turn none s good on h = h
  publish-IsSession turn (some job) s good on h =
      let told = good.holds job refl in
      let (short, low, high) = h.2 on in
      (
        record {
          difficulty = s.difficulty;
          set_before = h.1;
          notified = record {
            widths = told.widths;
            steps = told.steps;
            proof_of_work = told.proof_of_work;
            height_read = told.height_read;
            target = told.target;
            own_extranonce1 = refl;
            own_size = refl;
          };
          short = omega (arith, short, ap length told.own_extranonce1);
          not_empty = omega (arith, low, told.own_size);
          bounded = omega (arith, high, told.own_size);
        },
        h.1,
        h.2,
      )

  pub on_notify-IsSession :
      (turn : Turn) (msg : Value) (s : State F64)
      → IsSession float json words s
      → IsSession float json words (on_notify float json turn msg s)
  unfolding on_notify
  on_notify-IsSession turn msg s h =
      let p = or_no_values float json (as_array (key msg "params")) in
      elim (Bool-cases s.subscribed) [
        | inl on ↦ if_either (IsSession float json words) (ltb (length p) 9 || not s.subscribed) h (
            publish-IsSession turn _ s
              (parse_notify-IsNotified float json words p s.extranonce1 s.extranonce2_size
                s.difficulty)
              on h)
        | inr off ↦
            if_cases (IsSession float json words) (ltb (length p) 9 || not s.subscribed) (λ _. h)
              (λ no. ground (arith, off, no))
      ]

  pub on_method-IsSession :
      (turn : Turn) (msg : Value) (method : Option String) (s : State F64)
      → IsSession float json words s
      → OnOutcome float json words (on_method float json turn msg method s)
  on_method-IsSession turn msg none s h = h
  on_method-IsSession turn msg (some method) s h =
      if_either (OnOutcome float json words) (text_eq method "mining.set_difficulty")
        (set_difficulty-IsSession _ s
          (parse_difficulty-IsDifficulty float json (at (key msg "params") 0)) h)
        (if_either (OnOutcome float json words) (text_eq method "mining.notify")
          (on_notify-IsSession turn msg s h)
          (if_either (OnOutcome float json words) (text_eq method "client.reconnect") h.0 h))

  pub on_message-IsSession :
      (turn : Turn) (msg : Value) (s : State F64)
      → IsSession float json words s
      → OnOutcome float json words (on_message float json turn msg s)
  unfolding on_message on_hashrate
  on_message-IsSession turn msg s h =
      let id = key msg "id" in
      let timed = time_answer float json turn.now (as_u64 id) s in
      let h' = time_answer-IsSession float json words turn.now (as_u64 id) s h in
      if_either (OnOutcome float json words) (is_number id 1) (on_subscribe-IsSession msg timed h')
        (if_either (OnOutcome float json words) (is_number id 2)
          (on_authorize-IsSession turn msg timed h')
          (if_either (OnOutcome float json words) (is_number id hashrate_id) h' (
            if_either (OnOutcome float json words) (is_share_id float json (as_u64 id))
              (on_share-IsSession turn msg timed h')
              (on_method-IsSession turn msg (as_str (key msg "method")) timed h'))))

  pub on_json-IsSession :
      (turn : Turn) (msg : Option Value) (s : State F64)
      → IsSession float json words s
      → OnOutcome float json words (on_json float json turn msg s)
  on_json-IsSession turn none s h = h
  on_json-IsSession turn (some msg) s h = on_message-IsSession turn msg s h

  pub on_next-IsSession :
      (turn : Turn) (next : Next × List Read × List ℕ) (s : State F64)
      → IsSession float json words s
      → OnOutcome float json words (on_next float json turn next s)
  on_next-IsSession turn (line bytes, reads, buf) s h =
      on_json-IsSession turn (from_line bytes)
        (record s { reads = reads; rx_buf = buf; last_rx = turn.now }) h
  on_next-IsSession turn (nothing_yet, reads, buf) s h =
      if_either (OnOutcome float json words) (ltb pool_silence_timeout (turn.now - s.last_rx)) h.0 h
  on_next-IsSession turn (error e, reads, buf) s h = h.0
