-- ===== src/CfgPath.antt =====
-- Config paths (mr/cfgpath.go).
pub mod Syntax
pub mod Tree
pub mod Tests
