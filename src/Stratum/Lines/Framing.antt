-- ===== src/Stratum/Lines/Framing.antt =====
-- What one call of `next_line` takes off the stream, and how far the buffer grows.
use bc3_online_miner.Common.{
  ℕ, ◌+◌, ◌≤◌, ◌≡◌, ◌≢◌, refl, ap, subst, ◌∙◌, arith, none, some, List, [], ◌∷◌, ◌++◌, length, ltb,
  All, Option-cases, inl, inr, length-append, Bool-cases, ltb-false,
}
use mathlib.Core.List.{append_assoc}
use bc3_online_miner.Stratum.Lines.{
  Read, chunk, timed_out, failed, Next, line, nothing_yet, error, split_line, strip_cr, turn,
  next_line, max_line_bytes,
}

-- The bytes that the reads have yet to give.
abbrev pub stream : List Read → List ℕ
stream [] = []
stream (chunk bs ∷ reads) = bs ++ stream reads
stream (timed_out ∷ reads) = stream reads
stream (failed ∷ reads) = stream reads

abbrev pub HasNoNewline : List ℕ → Type 0
HasNoNewline = All λ b. b ≢ 10

split_line-some :
    (bs l rest : List ℕ) → split_line bs ≡ some (l, rest) → (bs ≡ l ++ (10 ∷ rest)) × HasNoNewline l
unfolding split_line
split_line-some [] l rest e = cc
split_line-some (b ∷ bs) l rest e = elim (Option-cases (split_line bs)) [
  | inl n ↦ ground arith
  | inr ((l', rest'), s) ↦ ground (arith, split_line-some bs l' rest' s)
]

pub split_line-none : (bs : List ℕ) → split_line bs ≡ none → HasNoNewline bs
unfolding split_line
split_line-none [] e = tt
split_line-none (b ∷ bs) e = elim (Option-cases (split_line bs)) [
  | inl n ↦ ground (arith, split_line-none bs n)
  | inr (r, s) ↦ ground arith
]

-- What is true of one call, with the bytes `before` it in the buffer and still to come.
abbrev pub Keeps : List ℕ → Next × List Read × List ℕ → Type 0
Keeps before (line l, reads, buf) =
    (raw : List ℕ) × HasNoNewline raw
    × (l ≡ strip_cr raw)
    × (before ≡ raw ++ (10 ∷ (buf ++ stream reads)))
Keeps before (nothing_yet, reads, buf) = (buf ++ stream reads ≡ before) × HasNoNewline buf
Keeps before (error e, reads, buf) = (buf ++ stream reads ≡ before) × HasNoNewline buf

kept_line :
    (buf l rest : List ℕ) (reads : List Read)
    → split_line buf ≡ some (l, rest)
    → Keeps (buf ++ stream reads) (line (strip_cr l), reads, rest)
kept_line buf l rest reads e =
    let (whole, clean) = split_line-some buf l rest e in
    (l, clean, refl, ap (λ b. b ++ stream reads) whole ∙ append_assoc l (10 ∷ rest) (stream reads))

turn-Keeps :
    (reads : List Read) (buf : List ℕ) (next : Next × List Read × List ℕ)
    → (HasNoNewline buf → Keeps (buf ++ stream reads) next)
    → Keeps (buf ++ stream reads) (turn (split_line buf) reads buf next)
turn-Keeps reads buf next otherwise = elim (Option-cases (split_line buf)) [
  | inr ((l, rest), e) ↦ rw e (kept_line buf l rest reads e)
  | inl e ↦ elim (Bool-cases (ltb max_line_bytes (length buf))) [
    | inl t ↦ rw (e, t) (refl, split_line-none buf e)
    | inr t ↦ rw (e, t) (otherwise (split_line-none buf e))
  ]
]

-- A call takes one line off the stream, which ends at the first newline, less a carriage return
-- before it; or it gives none and keeps every byte, none of them a newline, in the buffer or in
-- the reads to come.
pub next_line-Keeps :
    (reads : List Read) (buf : List ℕ) → Keeps (buf ++ stream reads) (next_line reads buf)
unfolding next_line
next_line-Keeps [] buf = turn-Keeps [] buf _ (λ clean. (refl, clean))
next_line-Keeps (timed_out ∷ reads) buf =
    turn-Keeps (timed_out ∷ reads) buf _ (λ clean. (refl, clean))
next_line-Keeps (failed ∷ reads) buf = turn-Keeps (failed ∷ reads) buf _ (λ clean. (refl, clean))
next_line-Keeps (chunk [] ∷ reads) buf =
    turn-Keeps (chunk [] ∷ reads) buf _ (λ clean. (refl, clean))
next_line-Keeps (chunk (b ∷ bs) ∷ reads) buf = turn-Keeps (chunk (b ∷ bs) ∷ reads) buf _ λ clean.
    subst (λ before. Keeps before (next_line reads (buf ++ (b ∷ bs))))
      (append_assoc buf (b ∷ bs) (stream reads)) (next_line-Keeps reads (buf ++ (b ∷ bs)))

-- The reads are no longer than the 8 KiB they ask for.
abbrev pub IsShort : Read → Type 0
IsShort (chunk bs) = length bs ≤ 8192
IsShort timed_out = Unit
IsShort failed = Unit

abbrev pub Bounded : Next × List Read × List ℕ → Type 0
Bounded (next, reads, buf) = length buf ≤ max_line_bytes + 8192

split_line-shorter : (bs l rest : List ℕ) → split_line bs ≡ some (l, rest) → length rest ≤ length bs
split_line-shorter bs l rest e =
    omega (arith, ap length (split_line-some bs l rest e).0, length-append l (10 ∷ rest))

turn-Bounded :
    (reads : List Read) (buf : List ℕ) (next : Next × List Read × List ℕ)
    → length buf ≤ max_line_bytes + 8192
    → (length buf ≤ max_line_bytes → Bounded next)
    → Bounded (turn (split_line buf) reads buf next)
turn-Bounded reads buf next h otherwise = elim (Option-cases (split_line buf)) [
  | inr ((l, rest), e) ↦ rw e (omega (arith, split_line-shorter buf l rest e))
  | inl e ↦ elim (Bool-cases (ltb max_line_bytes (length buf))) [
    | inl t ↦ rw (e, t) h
    | inr t ↦ rw (e, t) (otherwise (ltb-false max_line_bytes (length buf) t))
  ]
]

-- A pool that never ends its line does not make the buffer grow past 64 KiB and one read: from a
-- buffer within that bound, over reads of at most 8 KiB, the buffer stays within it.
pub next_line-Bounded :
    (reads : List Read) (buf : List ℕ)
    → All IsShort reads
    → length buf ≤ max_line_bytes + 8192
    → Bounded (next_line reads buf)
unfolding next_line
next_line-Bounded [] buf s h = turn-Bounded [] buf _ h (λ _. h)
next_line-Bounded (timed_out ∷ reads) buf s h = turn-Bounded (timed_out ∷ reads) buf _ h (λ _. h)
next_line-Bounded (failed ∷ reads) buf s h = turn-Bounded (failed ∷ reads) buf _ h (λ _. h)
next_line-Bounded (chunk [] ∷ reads) buf s h = turn-Bounded (chunk [] ∷ reads) buf _ h (λ _. h)
next_line-Bounded (chunk (b ∷ bs) ∷ reads) buf s h =
    turn-Bounded (chunk (b ∷ bs) ∷ reads) buf _ h λ room.
      next_line-Bounded reads (buf ++ (b ∷ bs)) s.1 (omega (arith, length-append buf (b ∷ bs), s.0))
