-- ===== src/Stratum/Messages/Jobs.antt =====
-- What a notification that is accepted says of its job.
use Prim.Native.String.{String}
use bc3_online_miner.Common.{
  ℕ, ◌<◌, Bool, true, false, Option, none, some, List, [], ◌∷◌, ◌==◌, ==_iff, ◌≡◌, refl, subst, sym,
  length, require, u32_mod, All, Float, leb, leb→le, ◌≤◌, ◌&&◌,
}
use bc3_online_miner.Consensus.Pow.{for_version}
use bc3_online_miner.Consensus.Target.{target_for_difficulty}
use bc3_online_miner.Consensus.Height.{bip34_height}
use bc3_online_miner.Consensus.Merkle.{swab32}
use bc3_online_miner.Consensus.Merkle.Swab.{length-swab_chunks}
use bc3_online_miner.Shared.Job.{MinerJob}
use bc3_online_miner.Worker.Mine.Batch.{IsJob}
use bc3_online_miner.Stratum.Messages.{
  ◌>>=◌, Json, bytes_32, or_empty, parse_steps, parse_notify, parse_difficulty, parse_extranonce1,
  max_extranonce1,
}

abbrev HoldsOf {ℓ κ} : {A : Type ℓ} → (A → Type κ) → Option A → Type κ
HoldsOf P none = Unit
HoldsOf P (some a) = P a

-- It holds of the value, if there is one.
pub record OnSome {ℓ κ} {A : Type ℓ} (P : A → Type κ) (o : Option A) : Type (ℓ ⊔ κ) where
  pub holds : (a : A) → o ≡ some a → P a

pub just {ℓ κ} : {A : Type ℓ} (P : A → Type κ) (a : A) → P a → OnSome P (some a)
just P a h = record { holds = λ b e. subst (HoldsOf P) e h }

nothing {ℓ κ} : {A : Type ℓ} (P : A → Type κ) → OnSome P none
nothing P = record {
  holds =
      λ b e. subst (λ o. HoldsOf (λ _. P b) (elim o [ none ↦ some b | some _ ↦ none ])) (sym e) tt;
}

bind {ℓ κ μ} :
    {A : Type ℓ} {B : Type κ} (P : B → Type μ) (o : Option A) (f : A → Option B)
    → ((a : A) → o ≡ some a → OnSome P (f a))
    → OnSome P (o >>= f)
unfolding ◌>>=◌
bind P none f h = nothing P
bind P (some a) f h = h a refl

require_holds {ℓ κ} :
    {A : Type ℓ} (P : A → Type κ) (b : Bool) (a : A)
    → (b ≡ true → P a)
    → OnSome P (require b (some a))
require_holds P true a h = just P a (h refl)
require_holds P false a h = nothing P

bytes_32-length : (bytes : List ℕ) → OnSome (λ b. length b ≡ 32) (bytes_32 bytes)
unfolding bytes_32
bytes_32-length bytes =
    require_holds (λ b. length b ≡ 32) (length bytes == 32) bytes
      (λ e. (==_iff (length bytes) 32).0 e)

length-swab32 : (bytes : List ℕ) → length bytes ≡ 32 → length (swab32 bytes) ≡ 32
unfolding swab32
length-swab32 bytes e = length-swab_chunks 8 bytes e

module _ (float : Float) (json : Json float.F64) where
  open float use {F64, of_nat, flt, is_finite}
  open json use {Value, as_f64, as_str, as_array, hex_decode, from_hex_u32}

  -- A `u32` is a number below 2^32.
  abbrev pub GivesWords : Type 0
  GivesWords = (text : String) → OnSome (λ n. n < u32_mod) (from_hex_u32 text)

  -- A job of these connection values and share difficulty.
  pub record IsNotified (extranonce1 : List ℕ) (size : ℕ) (difficulty : F64) (job : MinerJob)
      : Type 0 where
    pub widths : IsJob job
    pub steps : All (λ s. length s ≡ 32) job.merkle_steps
    pub proof_of_work : job.algo ≡ for_version job.version
    pub height_read : job.height ≡ bip34_height job.coinb1
    pub target : job.share_target ≡ target_for_difficulty float difficulty
    pub own_extranonce1 : job.extranonce1 ≡ extranonce1
    pub own_size : job.extranonce2_size ≡ size

  parse_steps-length :
      (vs : List Value) → OnSome (All (λ s. length s ≡ 32)) (parse_steps float json vs)
  unfolding parse_steps
  parse_steps-length [] = just (All (λ s. length s ≡ 32)) [] tt
  parse_steps-length (v ∷ vs) =
      let P = All (λ s. length s ≡ 32) in
      bind P (hex_decode (or_empty (as_str v))) _ (λ bytes _. bind P (bytes_32 bytes) _ (λ step e.
        bind P (parse_steps float json vs) _ (λ steps f.
          just P (step ∷ steps)
            ((bytes_32-length bytes).holds step e, (parse_steps-length vs).holds steps f))))

  -- The job that the values of a notification make.
  notified :
      (extranonce1 : List ℕ) (size : ℕ) (difficulty : F64) (job_id : String)
      (prev coinb1 coinb2 : List ℕ) (steps : List (List ℕ)) (version bits ntime : ℕ)
      → length prev ≡ 32
      → version < u32_mod
      → bits < u32_mod
      → ntime < u32_mod
      → All (λ b. length b ≡ 32) steps
      → IsNotified extranonce1 size difficulty (record {
        job_id = job_id;
        extranonce1 = extranonce1;
        extranonce2_size = size;
        coinb1 = coinb1;
        coinb2 = coinb2;
        merkle_steps = steps;
        version = version;
        prev_hash = swab32 prev;
        bits = bits;
        ntime = ntime;
        share_target = target_for_difficulty float difficulty;
        height = bip34_height coinb1;
        algo = for_version version;
      })
  notified extranonce1 size difficulty job_id prev coinb1 coinb2 steps version bits ntime whole
        version_fits bits_fits ntime_fits all_whole =
      record {
        widths = record {
          version_fits = version_fits;
          prev_hash_fits = length-swab32 prev whole;
          bits_fits = bits_fits;
          ntime_fits = ntime_fits;
        };
        steps = all_whole;
        proof_of_work = refl;
        height_read = refl;
        target = refl;
        own_extranonce1 = refl;
        own_size = refl;
      }

  pub parse_notify-IsNotified :
      (words : GivesWords) (p : List Value) (extranonce1 : List ℕ) (size : ℕ) (difficulty : F64)
      → OnSome
          (IsNotified extranonce1 size difficulty)
          (parse_notify float json p extranonce1 size difficulty)
  unfolding parse_notify
  parse_notify-IsNotified words p extranonce1 size difficulty =
      let P = IsNotified extranonce1 size difficulty in
      bind P _ _ (λ prev_text _. bind P _ _ (λ prev_bytes _.
        bind P (bytes_32 prev_bytes) _ (λ prev prev_e. bind P _ _ (λ coinb1_text _.
          bind P _ _ (λ coinb1 _. bind P _ _ (λ version_text _.
            bind P (from_hex_u32 version_text) _ (λ version version_e. bind P _ _ (λ steps_value _.
              bind P _ _ (λ steps_array _.
                bind P (parse_steps float json steps_array) _ (λ steps steps_e.
                  bind P _ _ (λ job_id _. bind P _ _ (λ coinb2_text _. bind P _ _ (λ coinb2 _.
                    bind P _ _ (λ bits_text _. bind P (from_hex_u32 bits_text) _ (λ bits bits_e.
                      bind P _ _ (λ ntime_text _.
                        bind P (from_hex_u32 ntime_text) _ (λ ntime ntime_e. just P _ (
                          notified extranonce1 size difficulty job_id prev coinb1 coinb2 steps
                            version bits ntime ((bytes_32-length prev_bytes).holds prev prev_e)
                            ((words version_text).holds version version_e)
                            ((words bits_text).holds bits bits_e)
                            ((words ntime_text).holds ntime ntime_e)
                            ((parse_steps-length steps_array).holds steps steps_e)))))))))))))))))))

  -- A share difficulty that a message can set: finite and above 0.
  abbrev pub IsDifficulty : F64 → Type 0
  IsDifficulty d = (is_finite d && flt (of_nat 0) d) ≡ true

  pub parse_difficulty-IsDifficulty :
      (v : Value) → OnSome IsDifficulty (parse_difficulty float json v)
  unfolding parse_difficulty
  parse_difficulty-IsDifficulty v =
      bind IsDifficulty (as_f64 v) _
        (λ d _. require_holds IsDifficulty (is_finite d && flt (of_nat 0) d) d (λ e. e))

  pub parse_extranonce1-length :
      (v : Value) → OnSome (λ b. length b ≤ max_extranonce1) (parse_extranonce1 float json v)
  unfolding parse_extranonce1
  parse_extranonce1-length v =
      let P : List ℕ → Type 0 = λ b. length b ≤ max_extranonce1 in
      bind P (as_str v) _ (λ text _. bind P (hex_decode text) _ (λ bytes _.
        require_holds P (leb (length bytes) max_extranonce1) bytes
          (λ e. leb→le (length bytes) max_extranonce1 e)))
