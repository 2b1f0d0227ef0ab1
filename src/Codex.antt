-- ===== src/Codex.antt =====
-- The Codex client (clients/codex/plugins/skillmeter/scripts/lib): its own record of choices and the
-- file that holds it (Record, Store, Choices), what the record allows (Evaluate), what the commands
-- show and change (Preview, Apply), and its transcripts: the consent journal (Journal), the lines
-- that are read (Capture) and the folder of chunks (Queue).
mod Tests
pub mod Record
pub mod Store
pub mod Choices
pub mod Evaluate
pub mod Preview
pub mod Apply
pub mod Journal
pub mod Capture
pub mod Queue
