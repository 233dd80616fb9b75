-- ===== src/Gpu.antt =====
-- src/gpu_worker.rs and the parts of src/backend/mod.rs that it uses: how one GPU's worker keeps
-- launches in flight, and what it does with those that come back.
pub mod Devices
pub mod Budget
pub mod Autotune
pub mod Cursor
pub mod Hits
pub mod Run
pub mod Tune
pub mod Worker
mod Examples
