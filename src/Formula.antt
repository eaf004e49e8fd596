-- ===== src/Formula.antt =====
-- compute.util.ts: calculated fields. The arithmetic of doubles is the language's, a parameter.
pub mod Double
pub mod Tokens
pub mod Parser
pub mod Rules
