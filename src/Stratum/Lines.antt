-- ===== src/Stratum/Lines.antt =====
-- src/stratum.rs: `next_line`. The socket is the list of what its reads give; at the end of the
-- list nothing more has arrived. A line stays bytes: `from_utf8_lossy` is the standard library's.
pub mod Framing
pub mod Whole
use bc3_online_miner.Common.{
  ℕ, ◌+◌, Option, none, some, List, [], ◌∷◌, ◌++◌, length, ltb, ◌==◌, if◌then◌else◌,
}

pub data Read : Type 0 where
  -- bytes read; no bytes mean the end of the stream
  chunk : List ℕ → Read
  timed_out : Read
  failed : Read

pub data LineError : Type 0 where
  line_too_long connection_aborted read_failed : LineError

pub data Next : Type 0 where
  line : List ℕ → Next
  nothing_yet : Next
  error : LineError → Next

abbrev pub max_line_bytes : ℕ
max_line_bytes = 65536

-- The bytes before the first newline, and those behind it.
unfoldable pub split_line : List ℕ → Option (List ℕ × List ℕ)
split_line [] = none
split_line (b ∷ bs) =
    if b == 10
    then some ([], bs)
    else (elim (split_line bs) [ none ↦ none | some (l, rest) ↦ some (b ∷ l, rest) ])

-- A carriage return at the end goes with the newline.
unfoldable pub strip_cr : List ℕ → List ℕ
strip_cr [] = []
strip_cr (b ∷ []) = if b == 13 then [] else b ∷ []
strip_cr (b ∷ c ∷ bs) = b ∷ strip_cr (c ∷ bs)

-- One turn of the loop, up to the read: a line of the buffer, the refusal of an endless one, or
-- what comes `next`.
abbrev pub turn :
    Option (List ℕ × List ℕ)
    → List Read
    → List ℕ
    → Next × List Read × List ℕ
    → Next × List Read × List ℕ
turn (some (l, rest)) reads buf next = (line (strip_cr l), reads, rest)
turn none reads buf next =
    if ltb max_line_bytes (length buf) then (error line_too_long, reads, buf) else next

-- What a call gives, the reads that are left and the buffer. A read of no bytes is the end of the
-- stream.
unfoldable pub next_line : List Read → List ℕ → Next × List Read × List ℕ
unfolding split_line strip_cr
next_line [] buf = turn (split_line buf) [] buf (nothing_yet, [], buf)
next_line (timed_out ∷ reads) buf =
    turn (split_line buf) (timed_out ∷ reads) buf (nothing_yet, reads, buf)
next_line (failed ∷ reads) buf =
    turn (split_line buf) (failed ∷ reads) buf (error read_failed, reads, buf)
next_line (chunk [] ∷ reads) buf =
    turn (split_line buf) (chunk [] ∷ reads) buf (error connection_aborted, reads, buf)
next_line (chunk (b ∷ bs) ∷ reads) buf =
    turn (split_line buf) (chunk (b ∷ bs) ∷ reads) buf (next_line reads (buf ++ (b ∷ bs)))
