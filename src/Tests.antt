-- ===== src/Tests.antt =====
-- Concrete states, the theorems at them, and runs of the code.
mod Cache
mod Data
mod Functions
mod Model
mod Pool
mod Serving
mod Shared
mod Startup
mod Steps
mod Tensors
