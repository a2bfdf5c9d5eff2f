-- ===== src/Access.antt =====
-- Access to releases: server/modules/access/authz.py over the tables of exposures and grants.
pub mod Authz
pub mod Groups
pub mod Each
pub mod Grounds
pub mod Quota
pub mod Examples
