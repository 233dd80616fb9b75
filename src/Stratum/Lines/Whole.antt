-- ===== src/Stratum/Lines/Whole.antt =====
-- The lines that `next_line` gives, call after call, against one cut of all the bytes at once.
use bc3_online_miner.Common.{
  ℕ, zero, suc, ◌+◌, ◌≤◌, ◌<◌, ◌≡◌, ◌≢◌, refl, ap, subst, sym, ◌∙◌, arith, Option, none, some, List,
  [], ◌∷◌, ◌++◌, ◌==◌, length, ltb, All, Option-cases, inl, inr, ◌⊎◌, false, if◌then◌else◌,
  length-append, Bool-cases, ltb→lt, map,
}
use mathlib.Core.List.{append_assoc, append-nil}
use bc3_online_miner.Stratum.Lines.{
  Read, chunk, timed_out, failed, LineError, Next, line, nothing_yet, error, split_line, strip_cr,
  turn, next_line, max_line_bytes,
}
use bc3_online_miner.Stratum.Lines.Framing.{
  stream, HasNoNewline, Keeps, split_line-none, next_line-Keeps,
}

-- The lines of some calls, the reads that are left, the buffer, and the error that ends them.
abbrev pub Calls : Type 0
Calls = List (List ℕ) × List Read × List ℕ × Option LineError

abbrev prepend : List ℕ → Calls → Calls
prepend l (ls, reads, buf, e) = (l ∷ ls, reads, buf, e)

abbrev after_call : Next × List Read × List ℕ → (List Read → List ℕ → Calls) → Calls
after_call (line l, reads, buf) onward = prepend l (onward reads buf)
after_call (nothing_yet, reads, buf) onward = onward reads buf
after_call (error e, reads, buf) onward = ([], reads, buf, some e)

-- So many calls of `next_line`, as long as none fails.
unfoldable pub calls : ℕ → List Read → List ℕ → Calls
unfolding next_line
calls zero reads buf = ([], reads, buf, none)
calls (suc n) reads buf = after_call (next_line reads buf) (λ reads buf. calls n reads buf)

abbrev grown : ℕ → List (List ℕ) × List ℕ → List (List ℕ) × List ℕ
grown b ([], rest) = ([], b ∷ rest)
grown b (l ∷ ls, rest) = ((b ∷ l) ∷ ls, rest)

-- The lines of some bytes, and the bytes behind the last newline.
unfoldable pub cut : List ℕ → List (List ℕ) × List ℕ
cut [] = ([], [])
cut (b ∷ bs) = let rest = cut bs in if b == 10 then ([] ∷ rest.0, rest.1) else grown b rest

-- Behind `k` bytes of a line: no line is longer than the most that is taken.
abbrev pub Capped : ℕ → List ℕ → Type 0
Capped k [] = k ≤ max_line_bytes
Capped k (b ∷ bs) = (k ≤ max_line_bytes) × (b ≡ 10 → Capped 0 bs) × (b ≢ 10 → Capped (suc k) bs)

-- The connection stays open.
abbrev pub Delivers : Read → Type 0
Delivers (chunk []) = ⊥
Delivers (chunk (b ∷ bs)) = Unit
Delivers timed_out = Unit
Delivers failed = ⊥

Capped-first : (k : ℕ) (bs : List ℕ) → Capped k bs → k ≤ max_line_bytes
Capped-first k [] h = h
Capped-first k (b ∷ bs) h = h.0

pub Capped-short : (k : ℕ) (bs : List ℕ) → k + length bs ≤ max_line_bytes → Capped k bs
Capped-short k [] h = omega (arith, h)
Capped-short k (b ∷ bs) h = (
  omega (arith, h),
  (λ same. Capped-short 0 bs (omega (arith, h))),
  λ other. Capped-short (suc k) bs (omega (arith, h)),
)

Capped-room :
    (k : ℕ) (buf rest : List ℕ)
    → HasNoNewline buf
    → Capped k (buf ++ rest)
    → k + length buf ≤ max_line_bytes
Capped-room k [] rest clean h = omega (arith, Capped-first k rest h)
Capped-room k (b ∷ buf) rest (other, clean) (small, same, on) =
    omega (arith, Capped-room (suc k) buf rest clean (on other))

Capped-rest :
    (k : ℕ) (raw rest : List ℕ) → HasNoNewline raw → Capped k (raw ++ (10 ∷ rest)) → Capped 0 rest
Capped-rest k [] rest clean h = h.1 refl
Capped-rest k (b ∷ raw) rest (other, clean) h = Capped-rest (suc k) raw rest clean (h.2 other)

cut-line :
    (raw rest : List ℕ)
    → HasNoNewline raw
    → cut (raw ++ (10 ∷ rest)) ≡ (raw ∷ (cut rest).0, (cut rest).1)
unfolding cut
cut-line [] rest clean = refl
cut-line (b ∷ raw) rest (other, clean) =
    let e : (b == 10) ≡ false = ground (arith, other) in rw (e, cut-line raw rest clean) refl

cut-clean : (buf : List ℕ) → HasNoNewline buf → cut buf ≡ ([], buf)
unfolding cut
cut-clean [] clean = refl
cut-clean (b ∷ buf) (other, clean) =
    let e : (b == 10) ≡ false = ground (arith, other) in rw (e, cut-clean buf clean) refl

split_line-clean : (buf : List ℕ) → HasNoNewline buf → split_line buf ≡ none
unfolding split_line
split_line-clean [] clean = refl
split_line-clean (b ∷ buf) (other, clean) =
    let e : (b == 10) ≡ false = ground (arith, other) in rw (e, split_line-clean buf clean) refl

-- Without an error, and with fewer reads to come or none at all.
abbrev Runs : ℕ → Next × List Read × List ℕ → Type 0
Runs k (line l, reads, buf) = All Delivers reads × (length reads ≤ k)
Runs k (nothing_yet, reads, buf) = All Delivers reads × ((length reads < k) ⊎ (reads ≡ []))
Runs k (error e, reads, buf) = ⊥

Runs-more : (k : ℕ) (r : Next × List Read × List ℕ) → Runs k r → Runs (suc k) r
Runs-more k (line l, reads, buf) (live, le) = (live, omega (arith, le))
Runs-more k (nothing_yet, reads, buf) (live, inl le) = (live, inl (omega (arith, le)))
Runs-more k (nothing_yet, reads, buf) (live, inr e) = (live, inr e)
Runs-more k (error e, reads, buf) h = absurd h

turn-Runs :
    (reads : List Read) (buf : List ℕ) (next : Next × List Read × List ℕ)
    → All Delivers reads
    → Capped 0 (buf ++ stream reads)
    → Runs (length reads) next
    → Runs (length reads) (turn (split_line buf) reads buf next)
turn-Runs reads buf next live capped h = elim (Option-cases (split_line buf)) [
  | inr ((l, rest), e) ↦ rw e (live, omega arith)
  | inl e ↦ elim (Bool-cases (ltb max_line_bytes (length buf))) [
    | inl t ↦
        let room = Capped-room 0 buf (stream reads) (split_line-none buf e) capped in
        let long = ltb→lt max_line_bytes (length buf) t in absurd (omega (arith, room, long))
    | inr t ↦ rw (e, t) h
  ]
]

next_line-Runs :
    (reads : List Read) (buf : List ℕ)
    → All Delivers reads
    → Capped 0 (buf ++ stream reads)
    → Runs (length reads) (next_line reads buf)
unfolding next_line
next_line-Runs [] buf live capped = turn-Runs [] buf _ live capped (tt, inr refl)
next_line-Runs (timed_out ∷ reads) buf live capped =
    turn-Runs (timed_out ∷ reads) buf _ live capped (live.1, inl (omega arith))
next_line-Runs (failed ∷ reads) buf live capped = absurd live.0
next_line-Runs (chunk [] ∷ reads) buf live capped = absurd live.0
next_line-Runs (chunk (b ∷ bs) ∷ reads) buf live capped =
    turn-Runs (chunk (b ∷ bs) ∷ reads) buf _ live capped (
      Runs-more (length reads) (next_line reads (buf ++ (b ∷ bs))) (
        next_line-Runs reads (buf ++ (b ∷ bs)) live.1
          (subst (Capped 0) (sym (append_assoc buf (b ∷ bs) (stream reads))) capped)))

next_line-idle :
    (buf : List ℕ)
    → HasNoNewline buf
    → length buf ≤ max_line_bytes
    → next_line [] buf ≡ (nothing_yet, [], buf)
unfolding next_line
next_line-idle buf clean room =
    let short : ltb max_line_bytes (length buf) ≡ false = ground (arith, room) in
    rw (split_line-clean buf clean, short) refl

calls-idle :
    (n : ℕ) (buf : List ℕ)
    → HasNoNewline buf
    → length buf ≤ max_line_bytes
    → calls n [] buf ≡ ([], [], buf, none)
unfolding calls
calls-idle zero buf clean room = refl
calls-idle (suc n) buf clean room = rw (next_line-idle buf clean room) (calls-idle n buf clean room)

-- All that comes of the bytes: their lines, each less a carriage return at its end, and the rest.
abbrev pub lines_of : List ℕ → Calls
lines_of bytes = (map strip_cr (cut bytes).0, [], (cut bytes).1, none)

-- What is to be shown of `n` calls.
abbrev Gives : ℕ → List Read → List ℕ → Type 0
Gives n reads buf =
    All Delivers reads
    → Capped 0 (buf ++ stream reads)
    → length (buf ++ stream reads) + length reads ≤ n
    → calls n reads buf ≡ lines_of (buf ++ stream reads)

after_call-lines_of :
    (n k : ℕ) (bytes : List ℕ) (r : Next × List Read × List ℕ)
    → Keeps bytes r
    → Runs k r
    → Capped 0 bytes
    → length bytes + k ≤ suc n
    → ((reads : List Read) (buf : List ℕ) → Gives n reads buf)
    → after_call r (λ reads buf. calls n reads buf) ≡ lines_of bytes
after_call-lines_of n k bytes (line l, reads, buf) (raw, clean, stripped, whole) (live, le) capped
      enough onward =
    let rest = buf ++ stream reads in
    let capped' = Capped-rest 0 raw rest clean (subst (Capped 0) whole capped) in
    let size : length bytes ≡ length raw + suc (length rest) =
      ap length whole ∙ length-append raw (10 ∷ rest) in
    let later = onward reads buf live capped' (omega (arith, size, le, enough)) in
    let here : lines_of bytes ≡ prepend (strip_cr raw) (lines_of rest) =
      ap lines_of whole ∙ ap (λ c. (map strip_cr c.0, [], c.1, none)) (cut-line raw rest clean) in
    ap (prepend l) later ∙ (ap (λ x. prepend x (lines_of rest)) stripped ∙ sym here)
after_call-lines_of n k bytes (nothing_yet, reads, buf) (kept, clean) (live, inl fewer) capped
      enough onward =
    onward reads buf live (subst (Capped 0) (sym kept) capped)
      (omega (arith, ap length kept, fewer, enough))
    ∙ ap lines_of kept
after_call-lines_of n k bytes (nothing_yet, reads, buf) (kept, clean) (live, inr gone) capped enough
      onward =
    let all : bytes ≡ buf = sym kept ∙ (ap (λ r. buf ++ stream r) gone ∙ append-nil buf) in
    let room = Capped-room 0 buf [] clean (subst (Capped 0) (all ∙ sym (append-nil buf)) capped) in
    ap (λ r. calls n r buf) gone
    ∙ (calls-idle n buf clean (omega (arith, room))
        ∙ sym (ap lines_of all ∙ ap (λ c. (map strip_cr c.0, [], c.1, none)) (cut-clean buf clean)))
after_call-lines_of n k bytes (error e, reads, buf) keeps runs capped enough onward = absurd runs

-- While the connection stays open and no line - its carriage return counted - is longer than 64 KiB,
-- so many calls as there are bytes and reads give, without an error, the lines of all the bytes cut
-- at once, each less a carriage return at its end, and leave the bytes behind the last newline in the
-- buffer. So the lines do not depend on how the stream is cut into reads, nor on the reads that time
-- out.
pub calls-lines_of :
    (n : ℕ) (reads : List Read) (buf : List ℕ)
    → All Delivers reads
    → Capped 0 (buf ++ stream reads)
    → length (buf ++ stream reads) + length reads ≤ n
    → calls n reads buf ≡ lines_of (buf ++ stream reads)
unfolding calls cut
calls-lines_of zero [] [] live capped enough = refl
calls-lines_of zero [] (b ∷ buf) live capped enough = absurd (omega (arith, enough))
calls-lines_of zero (r ∷ reads) buf live capped enough = absurd (omega (arith, enough))
calls-lines_of (suc n) reads buf live capped enough =
    after_call-lines_of n (length reads) (buf ++ stream reads) (next_line reads buf)
      (next_line-Keeps reads buf) (next_line-Runs reads buf live capped) capped enough
      (calls-lines_of n)
