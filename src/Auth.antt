-- ===== src/Auth.antt =====
-- app/services/auth_service.py: claims, the issue of tokens, rotation and revocation. The
-- operations are in the first modules, and what they guarantee is proved in the others.
pub mod Claims
pub mod Refresh
pub mod Issue
pub mod Trace
pub mod Keeps
pub mod Grant
pub mod Exchanged
pub mod Families
pub mod Kill
pub mod Dead
pub mod Lifetime
pub mod Reuse
pub mod Evict
pub mod Authenticate
pub mod Password
pub mod Limit
pub mod Blacklist
