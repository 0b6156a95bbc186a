-- ===== src/Secrets.antt =====
-- server/secrets.js: the credential vault of the sessions and the redactor. Texts are lists of code units.
pub mod Redact
pub mod Vault
