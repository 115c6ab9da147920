-- ===== src/Auth.antt =====
-- The owner's account, the login limiter and the sessions: src/lib/auth-store.ts. Proofs are in the
-- modules below.
pub mod Store
pub mod Tables
