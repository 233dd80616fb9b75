-- ===== src/Solve/Script/RoundTrip.antt =====
-- The height that `solve` writes into a coinbase is the height that the miner reads from it.
use bc3_online_miner.Common.{
  ℕ, suc, ◌+◌, ◌-◌, ◌^◌, ◌<◌, ◌≡◌, refl, ap, ◌∙◌, List, [], ◌∷◌, ◌++◌, some, length, get_elem?,
  get_or, take-append, drop-append, get_elem?-append, length-append, arith, to_le_bytes,
}
use mathlib.Core.List.{append_assoc}
use bc3_online_miner.Consensus.Height.{bip34_height, varint_width, get_range, pushed_height}
use bc3_online_miner.Consensus.Height.Value.{height_from-le_value}
use bc3_online_miner.Solve.Script.{push_varint, last_byte, has_top_bit, script_num}
use bc3_online_miner.Solve.Script.Digits.{IsPush, script_num-IsPush}

-- The first byte of a varint tells its width.
abbrev first_of : ℕ → ℕ
first_of n = get_or (push_varint n) 0 0

first_of-found : (n : ℕ) (rest : List ℕ) → get_elem? (push_varint n ++ rest) 0 ≡ some (first_of n)
unfolding push_varint
first_of-found n rest = ground arith

first_of-width : (n : ℕ) → varint_width (first_of n) ≡ length (push_varint n)
unfolding push_varint varint_width to_le_bytes
first_of-width n = ground arith

get_range-append :
    (pre bytes rest : List ℕ) (at len : ℕ)
    → at ≡ length pre
    → len ≡ length bytes
    → get_range at len (pre ++ (bytes ++ rest)) ≡ some bytes
unfolding get_range
get_range-append pre bytes rest at len e l =
    rw (drop-append pre (bytes ++ rest) at e, take-append bytes rest len l)
      (ground (arith, length-append pre (bytes ++ rest), length-append bytes rest))

-- The top byte is the one before the end.
last_byte-get_or : (bs : List ℕ) → 0 < length bs → last_byte bs ≡ some (get_or bs (length bs - 1) 0)
unfolding last_byte
last_byte-get_or [] h = absurd (omega arith)
last_byte-get_or (b ∷ []) h = refl
last_byte-get_or (b ∷ c ∷ bs) h =
    last_byte-get_or (c ∷ bs) (omega arith)
    ∙ ap some (let e : suc (suc (length bs)) - 1 ≡ suc (suc (length bs) - 1) = omega arith in rw e)

pushed :
    (height : ℕ) (num pre rest : List ℕ) (pos : ℕ)
    → IsPush height num
    → pos + 1 ≡ length pre
    → pushed_height (length num) pos (pre ++ (num ++ rest)) ≡ some height
unfolding pushed_height has_top_bit
pushed height num pre rest pos p e =
    rw (get_range-append pre num rest (pos + 1) (length num) e refl) (
      ground (
        arith,
        last_byte-get_or num p.not_empty,
        p.positive,
        height_from-le_value num p.short p.bytes,
      ))

-- A byte string behind 41 bytes, as `bip34_height` finds it.
at_41 :
    (pre rest : List ℕ) (k : ℕ)
    → length pre ≡ 41
    → get_elem? (pre ++ rest) (41 + k) ≡ get_elem? rest k
at_41 pre rest k e = rw (← e) (get_elem?-append pre rest k)

-- After 41 bytes and a script length of any width, the encoding of a height from 17 up to
-- 2^31 - 1 is read back, whatever follows it.
pub bip34_height-script_num :
    (height n : ℕ) (pre rest : List ℕ)
    → 16 < height
    → height < 2 ^ 31
    → length pre ≡ 41
    → bip34_height
        (pre ++ (push_varint n ++ (length (script_num height) ∷ script_num height ++ rest)))
      ≡ some height
unfolding bip34_height
bip34_height-script_num height n pre rest low high e =
    let num = script_num height in
    let p : IsPush height num = script_num-IsPush height low high in
    let var = push_varint n in
    let tail = length num ∷ num ++ rest in
    let w = length var in
    let first : get_elem? (pre ++ (var ++ tail)) 41 ≡ some (first_of n) =
      at_41 pre (var ++ tail) 0 e ∙ first_of-found n tail in
    let op : get_elem? (pre ++ (var ++ tail)) (41 + w) ≡ some (length num) =
      at_41 pre (var ++ tail) w e
      ∙ ap (get_elem? (var ++ tail)) (let z : w ≡ w + 0 = omega arith in z)
      ∙ get_elem?-append var tail 0 in
    let whole : (pre ++ (var ++ tail)) ≡ ((pre ++ (var ++ (length num ∷ []))) ++ (num ++ rest)) =
      simp append_assoc in
    let read : pushed_height (length num) (41 + w) (pre ++ (var ++ tail)) ≡ some height = rw whole (
      pushed height num (pre ++ (var ++ (length num ∷ []))) rest (41 + w) p (
        omega (
          arith,
          e,
          length-append pre (var ++ (length num ∷ [])),
          length-append var (length num ∷ []),
        ))) in
    rw (first, first_of-width n, op) (ground (arith, read, p.not_empty, p.short))
