-- ===== src/Consensus/Header.antt =====
-- src/consensus.rs: `BlockHeader::serialize`; src/worker.rs: the nonce bytes written over it.
pub mod Layout
use bc3_online_miner.Common.{ℕ, List, ◌++◌, take, drop, replicate, to_le_bytes}

pub record BlockHeader : Type 0 where
  pub version : ℕ
  pub prev_hash : List ℕ
  pub merkle_root : List ℕ
  pub time : ℕ
  pub bits : ℕ
  pub nonce : ℕ

-- `out[from..to].copy_from_slice(bytes)`: what the slice covers is replaced.
unfoldable pub copy_from_slice : ℕ → ℕ → List ℕ → List ℕ → List ℕ
copy_from_slice from to bytes out = take from out ++ (bytes ++ drop to out)

unfoldable pub serialize : BlockHeader → List ℕ
unfolding copy_from_slice
serialize h =
    let out0 = replicate 80 0 in
    let out1 = copy_from_slice 0 4 (to_le_bytes 4 h.version) out0 in
    let out2 = copy_from_slice 4 36 h.prev_hash out1 in
    let out3 = copy_from_slice 36 68 h.merkle_root out2 in
    let out4 = copy_from_slice 68 72 (to_le_bytes 4 h.time) out3 in
    let out5 = copy_from_slice 72 76 (to_le_bytes 4 h.bits) out4 in
    copy_from_slice 76 80 (to_le_bytes 4 h.nonce) out5

-- The nonce of a serialized header, replaced (the inner loop of `mine_job`).
unfoldable pub set_nonce : ℕ → List ℕ → List ℕ
unfolding copy_from_slice
set_nonce nonce header = copy_from_slice 76 80 (to_le_bytes 4 nonce) header
