-- ===== src/Engine.antt =====
-- worker/engine_py/engine.py: the process that answers embedding and ranking requests of a worker, one
-- JSON value per line.
pub mod Requests
pub mod Read
pub mod Answered
pub mod Tests
