-- ===== src/Domain.antt =====
-- internal/domain: the data of the service and the rules that need no storage.
pub mod Role
pub mod User
pub mod Video
pub mod Social
pub mod Report
