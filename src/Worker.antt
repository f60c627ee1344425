-- ===== src/Worker.antt =====
-- worker/tasks: the tasks that push a zone to its targets and poll the nameservers for it.
pub mod Threshold
pub mod Poller
pub mod Calls
pub mod Recovery
pub mod Actions
