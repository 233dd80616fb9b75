-- ===== src/Gpu/Cursor.antt =====
-- src/gpu_worker.rs: `Cursor` and `Cursor::take`.
pub mod Steps
use bc3_online_miner.Common.{ℕ, ◌+◌, ◌-◌, min, max, ◌%◌, leb, if◌then◌else◌, u32_mod}
use bc3_online_miner.Worker.Extranonce.{saturating_add}

pub record Cursor : Type 0 where
  pub en2 : ℕ
  pub nonce : ℕ

-- The cursor after it, and the launch: the extranonce2 counter, the first nonce and the count.
unfoldable pub take_launch : Cursor → ℕ → ℕ → Cursor × ℕ × ℕ × ℕ
unfolding saturating_add
take_launch c most stride =
    let left = u32_mod - c.nonce in
    let count = min (max most 1) left in
    let wrapped = leb u32_mod (c.nonce + count) in
    let after =
      if wrapped
      then record { en2 = saturating_add c.en2 stride; nonce = 0 }
      else record { en2 = c.en2; nonce = c.nonce + count } in
    (after, c.en2, c.nonce, count)
