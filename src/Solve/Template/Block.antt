-- ===== src/Solve/Template/Block.antt =====
-- A share of a parsed template makes a block with the header that was hashed.
use Prim.Native.String.{String}
use mathlib.Core.List.{append_assoc}
use bc3_online_miner.Common.{
  ℕ, suc, ◌+◌, ◌%◌, ◌^◌, ◌≤◌, ◌<◌, Bool, true, false, ◌&&◌, Option, none, some, List, [], ◌∷◌, ◌++◌,
  ◌==◌, ==_iff, leb, leb→le, leb-false, length, replicate, reverse, length-reverse, ◌≡◌, refl, ap,
  sym, ◌∙◌, subst, arith, Float, to_le_bytes, if_cases,
}
use bc3_online_miner.Common.Results.{Result, ok, err}
use bc3_online_miner.Consensus.Pow.{PowFn}
use bc3_online_miner.Consensus.Header.{serialize}
use bc3_online_miner.Consensus.Merkle.{sha256d, root_from_steps}
use bc3_online_miner.Consensus.Target.{compact_to_target, hash_meets_target}
use bc3_online_miner.Consensus.Height.{bip34_height}
use bc3_online_miner.Worker.Mine.{Find, coinbase, header_of}
use bc3_online_miner.Worker.Mine.Shares.{IsShare}
use bc3_online_miner.Solve.Script as Script
use bc3_online_miner.Solve.Script.{ParseError, push_varint, script_num, height_too_low}
use bc3_online_miner.Solve.Script.RoundTrip.{bip34_height-script_num}
use bc3_online_miner.Solve.Template.{
  JobFile, Template, Decoders, ◌>>=◌, check, valid_bits, coinbase_start, parse_file, job_of,
  assemble, min_script_sig, max_script_sig, extranonce1_bytes, extranonce2_bytes,
}

abbrev HoldsOf {κ} : {A : Type 0} → (A → Type κ) → Result ParseError A → Type κ
HoldsOf P (err e) = Unit
HoldsOf P (ok a) = P a

-- It holds of the value, if the result is one.
pub record OnOk {κ} {A : Type 0} (P : A → Type κ) (r : Result ParseError A) : Type κ where
  pub holds : (a : A) → r ≡ ok a → P a

pub success {κ} : {A : Type 0} (P : A → Type κ) (a : A) → P a → OnOk P (ok a)
success P a h = record { holds = λ b e. subst (HoldsOf P) e h }

failure {κ} : {A : Type 0} (P : A → Type κ) (e : ParseError) → OnOk P (err e)
failure P e = record {
  holds = λ b same.
      subst (λ r. HoldsOf (λ _. P b) (elim r [ err x ↦ ok b | ok x ↦ err e ])) (sym same) tt;
}

bind {κ} :
    {A B : Type 0} (P : B → Type κ) (r : Result ParseError A) (f : A → Result ParseError B)
    → ((a : A) → r ≡ ok a → OnOk P (f a))
    → OnOk P (r >>= f)
unfolding ◌>>=◌
bind P (err e) f h = failure P e
bind P (ok a) f h = h a refl

check-true : (b : Bool) (e : ParseError) (u : Unit) → check b e ≡ ok u → b ≡ true
check-true true e u same = refl
check-true false e u same = (failure (λ _. false ≡ true) e).holds u same

valid_bits-some :
    (o : Option (List ℕ)) (u : Unit) → valid_bits o ≡ ok u → (target : List ℕ) × (o ≡ some target)
valid_bits-some none u same =
    (failure (λ _. (target : List ℕ) × (none ≡ some target)) _).holds u same
valid_bits-some (some target) u same = (target, refl)

-- The height script that parsing accepts.
abbrev pub IsHeightScript : ℕ → List ℕ → Type 0
IsHeightScript height script =
    (16 < height) × (script ≡ (length (script_num height) % 256) ∷ script_num height)

height_script : (height : ℕ) → OnOk (IsHeightScript height) (Script.bip34_height height)
unfolding Script.bip34_height
height_script height =
    if_cases (OnOk (IsHeightScript height)) (leb height 16)
      (λ _. failure (IsHeightScript height) height_too_low)
      (λ e. success (IsHeightScript height) _ (leb-false height 16 e, refl))

&&-both : (a b : Bool) → (a && b) ≡ true → (a ≡ true) × (b ≡ true)
&&-both true b e = (refl, e)
&&-both false b e = ground (arith, e)

-- The length of the scriptSig.
abbrev pub script_len : List ℕ → List ℕ → ℕ
script_len script text = length script + length text + extranonce1_bytes + extranonce2_bytes

-- What a template that parses is to its file.
pub record IsParsed (f : JobFile) (t : Template) : Type 0 where
  pub script : List ℕ
  pub text : List ℕ
  pub same_height : t.height ≡ f.height
  pub is_script : IsHeightScript f.height script
  pub least : min_script_sig ≤ script_len script text
  pub most : script_len script text ≤ max_script_sig
  pub start : t.coinb1 ≡ coinbase_start (script_len script text) script text
  pub target : List ℕ
  pub valid : compact_to_target t.bits ≡ some target
  pub prev_hash_fits : length t.prev_hash ≡ 32

-- The checks that a file has passed make it parsed.
parsed :
    (f : JobFile) (t : Template) (script text prev target : List ℕ)
    → IsHeightScript f.height script
    → (leb min_script_sig (script_len script text) && leb (script_len script text) max_script_sig)
      ≡ true
    → (length prev == 32) ≡ true
    → compact_to_target t.bits ≡ some target
    → t.height ≡ f.height
    → t.prev_hash ≡ reverse prev
    → t.coinb1 ≡ coinbase_start (script_len script text) script text
    → IsParsed f t
parsed f t script text prev target is_script within whole valid same turned start =
    let (low, high) =
      &&-both (leb min_script_sig (script_len script text))
        (leb (script_len script text) max_script_sig) within in
    record {
      script = script;
      text = text;
      same_height = same;
      is_script = is_script;
      least = leb→le min_script_sig (script_len script text) low;
      most = leb→le (script_len script text) max_script_sig high;
      start = start;
      target = target;
      valid = valid;
      prev_hash_fits = ap length turned ∙ length-reverse prev ∙ (==_iff (length prev) 32).0 whole;
    }

module _ (decoders : Decoders) where
  pub parse_file-IsParsed : (f : JobFile) → OnOk (IsParsed f) (parse_file decoders f)
  unfolding parse_file
  parse_file-IsParsed f =
      let P = IsParsed f in
      bind P _ _ (λ version _. bind P _ _ (λ bits _.
        bind P (valid_bits (compact_to_target bits)) _ (λ u1 bits_e. bind P _ _ (λ prev _.
          bind P (check (length prev == 32) Script.not_32_bytes) _ (λ u2 prev_e.
            bind P _ _ (λ text _. bind P (Script.bip34_height f.height) _ (λ height height_e.
              bind P
                (check
                  (leb min_script_sig (script_len height text)
                    && leb (script_len height text) max_script_sig)
                  Script.script_length)
                _
                (λ u3 length_e. bind P _ _ (λ u4 _. bind P _ _ (λ outputs _.
                  let (target, valid) = valid_bits-some (compact_to_target bits) u1 bits_e in
                  success P _ (
                    parsed f _ height text prev target
                      ((height_script f.height).holds height height_e)
                      (check-true _ Script.script_length u3 length_e)
                      (check-true _ Script.not_32_bytes u2 prev_e) valid refl refl refl)))))))))))

-- The 41 bytes before the script length.
abbrev before_script : List ℕ
before_script = to_le_bytes 4 2 ++ (1 ∷ []) ++ replicate 32 0 ++ replicate 4 0xff

coinbase_start-shape :
    (n : ℕ) (script text rest : List ℕ)
    → coinbase_start n script text ++ rest
      ≡ before_script ++ (push_varint n ++ (script ++ (text ++ rest)))
unfolding coinbase_start
coinbase_start-shape n script text rest = simp append_assoc

-- Whatever follows the coinbase's start, the height is read back.
start-height :
    (f : JobFile) (t : Template) (rest : List ℕ)
    → IsParsed f t
    → f.height < 2 ^ 31
    → bip34_height (t.coinb1 ++ rest) ≡ some f.height
unfolding to_le_bytes
start-height f t rest is high =
    let num = script_num f.height in
    let n = script_len is.script is.text in
    let size : length is.script ≡ suc (length num) = ap length is.is_script.1 in
    let short : length num % 256 ≡ length num = omega (arith, size, is.most) in
    let script : is.script ≡ length num ∷ num = is.is_script.1 ∙ ap (λ k. k ∷ num) short in
    ap (λ c. bip34_height (c ++ rest)) is.start
    ∙ ap bip34_height (coinbase_start-shape n is.script is.text rest)
    ∙ ap (λ s. bip34_height (before_script ++ (push_varint n ++ (s ++ (is.text ++ rest))))) script
    ∙ bip34_height-script_num f.height n before_script (is.text ++ rest) is.is_script.0 high refl

-- A job file of a height below 2^31 that parses, and a share of its job, at any extranonce and
-- difficulty. The block that is assembled is the header, the number 1 and the coinbase; the header
-- has the hash of the share, which meets the share target; and the coinbase, whose scriptSig is
-- within the consensus limits, carries the height of the file where the miner reads it.
pub assemble-IsShare :
    (sha256 : List ℕ → List ℕ) (pow : PowFn) (decoders : Decoders) (float : Float) (f : JobFile)
    (t : Template) (job_id : String) (extranonce1 : List ℕ) (difficulty : float.F64) (found : Find)
    → parse_file decoders f ≡ ok t
    → f.height < 2 ^ 31
    → IsShare sha256 pow (job_of float t job_id extranonce1 difficulty) found
    → let job = job_of float t job_id extranonce1 difficulty in
      let (header, block) = assemble sha256 job found.share in
      let transaction = coinbase job found.share.extranonce2 in
      (pow header ≡ found.hash)
      × (hash_meets_target found.hash job.share_target ≡ true)
      × (block ≡ header ++ (1 ∷ transaction))
      × (bip34_height transaction ≡ some f.height)
      × IsParsed f t
unfolding assemble job_of header_of coinbase push_varint root_from_steps
assemble-IsShare sha256 pow decoders float f t job_id extranonce1 difficulty found parses high
      share =
    let is_parsed = (parse_file-IsParsed decoders f).holds t parses in
    (
      ap
            (λ time. pow (
              serialize (record {
                version = t.version;
                prev_hash = t.prev_hash;
                merkle_root =
                    sha256d sha256
                      (t.coinb1 ++ (extranonce1 ++ (found.share.extranonce2 ++ t.coinb2)));
                time = time;
                bits = t.bits;
                nonce = found.share.nonce;
              })))
            share.keeps_time
          ∙ sym share.rebuilt,
      share.meets,
      refl,
      start-height f t (extranonce1 ++ (found.share.extranonce2 ++ t.coinb2)) is_parsed high,
      is_parsed,
    )
