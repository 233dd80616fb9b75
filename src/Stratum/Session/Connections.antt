-- ===== src/Stratum/Session/Connections.antt =====
-- src/stratum.rs: the loop of `session`, and `run_client`.
use bc3_online_miner.Common.{
  ℕ, ◌-◌, Bool, false, Option, none, some, List, [], ◌∷◌, ◌++◌, leb, ltb, if◌then◌else◌, Float, ◌+◌,
  length,
}
use bc3_online_miner.Shared.Feed.{clear_job}
use bc3_online_miner.Shared.Job.{FoundShare}
use bc3_online_miner.Stratum.Backoff.{Backoff, after}
use bc3_online_miner.Stratum.Report as Report
use bc3_online_miner.Stratum.Report.{HashrateReport}
use bc3_online_miner.Stratum.Rejects as Rejects
use bc3_online_miner.Stratum.Rejects.{Window}
use bc3_online_miner.Stratum.Lines.{Read, Next, line, nothing_yet, error, next_line}
use bc3_online_miner.Stratum.Messages.{Json}
use bc3_online_miner.Stratum.Session.{
  pool_silence_timeout, healthy_session, from_socket, timed_out, State, Turn, Outcome, going,
  failed, ◌>>=◌, hello, report_rate, submit_all,
}
use bc3_online_miner.Stratum.Session.Dispatch.{on_message, on_json}

module _ (float : Float) (json : Json float.F64) where
  open float use {F64, of_nat}
  open json use {
    Value, from_line, key, at, as_u64, as_str, as_array, is_null, is_number, is_true, is_false,
    to_text,
  }

  -- What a read gave, with the reads that are left and the buffer.
  abbrev pub on_next : Turn → Next × List Read × List ℕ → State F64 → Outcome F64
  on_next turn (line bytes, reads, buf) s =
      on_json float json turn (from_line bytes)
        (record s { reads = reads; rx_buf = buf; last_rx = turn.now })
  on_next turn (nothing_yet, reads, buf) s =
      if ltb pool_silence_timeout (turn.now - s.last_rx)
      then failed timed_out (record s { reads = reads; rx_buf = buf })
      else going (record s { reads = reads; rx_buf = buf })
  on_next turn (error e, reads, buf) s =
      failed from_socket (record s { reads = reads; rx_buf = buf })

  -- One turn of the loop of `session`.
  unfoldable pub turn_once : Turn → State F64 → Outcome F64
  unfolding submit_all on_message
  turn_once turn s = do
    s1 ←
        report_rate float json turn (Report.due turn.now turn.hashes s.report)
          (record s { rejects = (Rejects.due turn.now s.rejects).1 })
    s2 ← submit_all float json turn turn.shares s1
    on_next turn (next_line s2.reads s2.rx_buf) s2

  unfoldable pub run_turns : List Turn → State F64 → Outcome F64
  unfolding turn_once
  run_turns [] s = going s
  run_turns (turn ∷ turns) s = do s' ← turn_once turn s; run_turns turns s'

  -- One connection: whether it opens, when, what is asked for, what the socket gives, the turns of
  -- the loop, when it has failed, and the shares then in the queue.
  pub record Connection : Type 0 where
    pub opens : Bool
    pub opening : Turn
    pub suggestion : Option F64
    pub stream : List Read
    pub loop : List Turn
    pub failed_at : ℕ
    pub queued : List FoundShare

  -- The variables of a new session; the shared state stays.
  unfoldable pub fresh : Connection → State F64 → State F64
  fresh c s = record s {
    extranonce1 = [];
    subscribed = false;
    extranonce2_size = 4;
    difficulty = of_nat 1;
    warned_difficulty = false;
    next_submit_id = 100;
    rx_buf = [];
    reads = c.stream;
    last_rx = c.opening.now;
    rejects = [];
    report = Report.new;
    outstanding = [];
    authorized_at = none;
    messages = [];
  }

  unfoldable pub session : Connection → State F64 → Outcome F64
  unfolding fresh hello run_turns
  session c s =
      if c.opens
      then (do s' ← hello float json c.opening c.suggestion (fresh c s); run_turns c.loop s')
      else failed from_socket (fresh c s)

  abbrev pub is_healthy : ℕ → Option ℕ → Bool
  is_healthy failed_at none = false
  is_healthy failed_at (some t) = leb healthy_session (failed_at - t)

  -- The client: its sessions so far, the waits between them, and how many shares were dropped.
  pub record Client : Type 0 where
    pub state : State F64
    pub ladder : Backoff
    pub waits : List ℕ
    pub dropped : ℕ

  -- After a session: it is still running, or the job is cleared, the shares in
  -- the queue are dropped, which the next connection could not take, and a wait comes.
  abbrev pub after_session : Connection → Client → Outcome F64 → (Client → Client) → Client
  after_session c client (going s) onward = record client { state = s }
  after_session c client (failed e s) onward =
      let (wait, ladder) = after client.ladder (is_healthy c.failed_at s.authorized_at) in
      onward (record {
        state = record s { feed = clear_job s.feed };
        ladder = ladder;
        waits = client.waits ++ (wait ∷ []);
        dropped = client.dropped + length c.queued;
      })

  unfoldable pub run_client : List Connection → Client → Client
  unfolding session
  run_client [] client = client
  run_client (c ∷ cs) client = after_session c client (session c client.state) (run_client cs)
