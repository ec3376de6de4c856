-- ===== src/Worker/Process/Providers.antt =====
-- What the providers of tq.py hand to a task.
