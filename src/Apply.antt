-- ===== src/Apply.antt =====
-- The transaction of mr/apply.go: apply, confirm, roll back, and the rollback at boot.
pub mod Disk
pub mod System
pub mod Action
pub mod Pending
pub mod Archive
pub mod Restore
pub mod Revision
pub mod Rollback
pub mod Plan
pub mod Confirm
pub mod Command
pub mod Run
pub mod Tests
