-- ===== src/Config.antt =====
-- Configuration (src/common/config.cpp): the files of server and client, and the identities of users.
pub mod Settings
pub mod Json
pub mod Render
pub mod Load
pub mod ParentDir
pub mod Uuid
