-- ===== src/Download/ZipStream.antt =====
-- download/zip_stream.py: from the history of a channel to the members of the archive.
pub mod Progress
pub mod Walk
pub mod Pipeline
pub mod Calls
pub mod Tally
pub mod Ends
