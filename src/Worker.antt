-- ===== src/Worker.antt =====
-- worker/: the processes of Taskiq.
pub mod Healthcheck
pub mod Process
