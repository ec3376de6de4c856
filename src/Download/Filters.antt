-- ===== src/Download/Filters.antt =====
-- download/filters.py: which attachments a `/download` takes, and the window of the history.
pub mod Duration
pub mod Mime
pub mod Period
pub mod Resolve
pub mod Policy
pub mod Categories
pub mod Range
pub mod Printed
pub mod Starts
pub mod Windows
pub mod Spans
