-- ===== src/Backup.antt =====
-- tsync/backup.go: the options of a backup, the upload of its parts, and the run as a whole.
pub mod Options
pub mod Part
pub mod Upload
pub mod Secrets
pub mod Gather
pub mod Commit
pub mod Run
pub mod Latest
pub mod Frame
pub mod Keyed
pub mod Root
pub mod Trees
pub mod Success
pub mod Complete
pub mod Prepared
pub mod Once
pub mod Safety
mod Tests
