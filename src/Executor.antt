-- ===== src/Executor.antt =====
-- executor.py: the pool of build slots, the reading and writing of logs, and their demultiplexing.
pub mod Fair
pub mod Logs
pub mod Capture
