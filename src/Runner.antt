-- ===== src/Runner.antt =====
-- The replay runner, src/e2h/runner.py.
pub mod Capture
pub mod Process
pub mod Results
pub mod Checks
pub mod Classify
pub mod Replay
