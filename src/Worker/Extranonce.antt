-- ===== src/Worker/Extranonce.antt =====
-- src/worker.rs: `resume_point`, `en2_fits`, `encode_extranonce2`.
pub mod Encoding
use bc3_online_miner.Common.{
  ℕ, ◌+◌, ◌-◌, ◌*◌, ◌^◌, min, Bool, ◌||◌, List, ◌++◌, drop, replicate, ltb, leb, if◌then◌else◌,
  to_be_bytes, u64_mod,
}

-- `saturating_add` of a `u64`.
unfoldable pub saturating_add : ℕ → ℕ → ℕ
saturating_add a b = min (a + b) (u64_mod - 1)

unfoldable pub resume_point : ℕ → ℕ → Bool → ℕ → ℕ × ℕ
unfolding saturating_add
resume_point en2 next_nonce wrapped stride =
    if wrapped then (saturating_add en2 stride, 0) else (en2, next_nonce)

unfoldable pub en2_fits : ℕ → ℕ → Bool
en2_fits en2 size = leb 8 size || ltb en2 (2 ^ (8 * size))

unfoldable pub encode_extranonce2 : ℕ → ℕ → List ℕ
encode_extranonce2 counter size =
    let bytes = to_be_bytes 8 counter in
    if leb 8 size then replicate (size - 8) 0 ++ bytes else drop (8 - size) bytes
