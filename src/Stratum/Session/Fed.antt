-- ===== src/Stratum/Session/Fed.antt =====
-- Every job that a session publishes is well formed.
use bc3_online_miner.Common.{
  ℕ, ◌+◌, ◌≤◌, Bool, true, false, Option, none, some, List, [], ◌∷◌, ◌≡◌, ◌⊎◌, length, Float,
}
use bc3_online_miner.Shared.Job.{MinerJob, FoundShare}
use bc3_online_miner.Stratum.Requests.{Outstanding, answered}
use bc3_online_miner.Stratum.Report.{HashrateReport}
use bc3_online_miner.Stratum.Messages.{Json, max_extranonce1}
use bc3_online_miner.Stratum.Messages.Jobs.{GivesWords, IsNotified, IsDifficulty}
use bc3_online_miner.Stratum.Session.{
  State, Turn, Outcome, going, failed, Message, ◌>>=◌, send, request, suggest, hello, report_rate,
  submit_all,
}
use bc3_online_miner.Stratum.Session.Dispatch.{timed, time_answer}

module _ (float : Float) (json : Json float.F64) (words : GivesWords float json) where
  open float use {F64, of_nat}
  open json use {Value, from_line, key, at, as_u64, as_str, as_array, is_number}

  -- The difficulty of the connection: the first one, or one that a message has set.
  abbrev pub Set : F64 → Type 0
  Set d = (d ≡ of_nat 1) ⊎ IsDifficulty float json d

  -- A well-formed job, whether the workers have a hash for it or not: the widths of its fields, the proof of work of its version, the target
  -- of a share difficulty, and bounds on its two extranonces.
  pub record IsWellFormed (job : MinerJob) : Type 0 where
    pub difficulty : F64
    pub set_before : Set difficulty
    pub notified : IsNotified float json job.extranonce1 job.extranonce2_size difficulty job
    pub short : length job.extranonce1 ≤ max_extranonce1
    pub not_empty : 1 ≤ job.extranonce2_size
    pub bounded : job.extranonce2_size ≤ 16

  abbrev pub IsFed : Option MinerJob → Type 0
  IsFed none = Unit
  IsFed (some job) = IsWellFormed job

  -- What holds between two turns.
  abbrev pub IsSession : State F64 → Type 0
  IsSession s =
      IsFed s.feed.job
      × Set s.difficulty
      × (s.subscribed ≡ true
          → (length s.extranonce1 ≤ max_extranonce1)
            × (1 ≤ s.extranonce2_size)
            × (s.extranonce2_size ≤ 16))

  abbrev pub OnOutcome : Outcome F64 → Type 0
  OnOutcome (going s) = IsSession s
  OnOutcome (failed e s) = IsFed s.feed.job

  pub bind :
      (o : Outcome F64) (f : State F64 → Outcome F64)
      → OnOutcome o
      → ((s : State F64) → IsSession s → OnOutcome (f s))
      → OnOutcome (o >>= f)
  unfolding ◌>>=◌
  bind (going s) f h k = k s h
  bind (failed e s) f h k = h

  pub send-IsSession :
      (writable : Bool) (message : Message F64) (s : State F64)
      → IsSession s
      → OnOutcome (send float json writable message s)
  unfolding send
  send-IsSession true message s h = h
  send-IsSession false message s h = h.0

  pub request-IsSession :
      (turn : Turn) (id : ℕ) (message : Message F64) (s : State F64)
      → IsSession s
      → OnOutcome (request float json turn id message s)
  unfolding request
  request-IsSession turn id message s h =
      bind (send float json turn.writable message s) _ (send-IsSession turn.writable message s h)
        (λ s' h'. h')

  pub suggest-IsSession :
      (turn : Turn) (suggestion : Option F64) (s : State F64)
      → IsSession s
      → OnOutcome (suggest float json turn suggestion s)
  suggest-IsSession turn none s h = h
  suggest-IsSession turn (some d) s h = request-IsSession turn 3 _ s h

  pub hello-IsSession :
      (turn : Turn) (suggestion : Option F64) (s : State F64)
      → IsSession s
      → OnOutcome (hello float json turn suggestion s)
  unfolding hello
  hello-IsSession turn suggestion s h = bind _ _ (request-IsSession turn 1 _ s h) (λ s1 h1.
      bind _ _ (suggest-IsSession turn suggestion s1 h1)
        (λ s2 h2. request-IsSession turn 2 _ s2 h2))

  pub report_rate-IsSession :
      (turn : Turn) (due : Option (ℕ × ℕ) × HashrateReport) (s : State F64)
      → IsSession s
      → OnOutcome (report_rate float json turn due s)
  report_rate-IsSession turn (none, report) s h = h
  report_rate-IsSession turn (some interval, report) s h =
      send-IsSession turn.writable _ (record s { report = report }) h

  pub submit_all-IsSession :
      (turn : Turn) (shares : List FoundShare) (s : State F64)
      → IsSession s
      → OnOutcome (submit_all float json turn shares s)
  unfolding submit_all
  submit_all-IsSession turn [] s h = h
  submit_all-IsSession turn (share ∷ shares) s h =
      bind _ _ (request-IsSession turn s.next_submit_id _ s h) (λ s' h'.
        submit_all-IsSession turn shares (record s' { next_submit_id = s'.next_submit_id + 1 }) h')

  pub timed-IsSession :
      (answer : Option ℕ × Outstanding) (s : State F64)
      → IsSession s
      → IsSession (timed float json answer s)
  timed-IsSession (none, o) s h = h
  timed-IsSession (some rtt, o) s h = h

  pub time_answer-IsSession :
      (now : ℕ) (id : Option ℕ) (s : State F64)
      → IsSession s
      → IsSession (time_answer float json now id s)
  time_answer-IsSession now none s h = h
  time_answer-IsSession now (some id) s h = timed-IsSession (answered id now s.outstanding) s h
