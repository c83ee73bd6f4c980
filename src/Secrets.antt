-- ===== src/Secrets.antt =====
-- internal/privacyengine/secrets.go, file by file: the names of credential fields, the texts that
-- are no secrets, the context of a token, the tokens of high entropy, and the rules.
pub mod Keys
pub mod Noise
pub mod Context
pub mod Tokens
pub mod Rules
