-- ===== src/Mfa.antt =====
-- app/services/mfa_service.py and email_mfa_service.py: the second factors of an account, and the
-- challenge that they answer at a login.
pub mod Totp
pub mod RecoveryCodes
pub mod Devices
pub mod Policy
pub mod Token
pub mod Email
pub mod Steps
pub mod Challenge
pub mod Decision
pub mod Enrollment
