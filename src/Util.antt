-- ===== src/Util.antt =====
-- internal/util/url.go
pub mod Clip
pub mod Domain
pub mod Canonical
mod Tests
