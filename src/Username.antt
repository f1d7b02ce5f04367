-- ===== src/Username.antt =====
-- internal/server/username.go: the username rule, normalisation of a display name, the base that a
-- new user starts from, and the iterator over candidate usernames.
pub mod Rule
pub mod Unicode
pub mod Normalize
pub mod Derive
pub mod Candidates
