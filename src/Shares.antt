-- ===== src/Shares.antt =====
-- Share links: server/modules/access/share_links.py, and the grants and credentials that they use.
pub mod Model
pub mod Links
pub mod Limits
pub mod History
pub mod Access
pub mod Examples
