-- ===== src/Tests.antt =====
-- Runs of the model, and instances of the theorems on them.
mod Files
mod Names
mod Buffers
mod Requests
mod Volumes
mod Bits
mod Blocks
