-- ===== src/Naming.antt =====
-- internal/driver/network/naming: connect descriptors.
pub mod Feed
pub mod Node
pub mod Lexer
pub mod Parser
pub mod Tokens
pub mod Trim
pub mod RoundTrip
pub mod Paths
mod Runs
