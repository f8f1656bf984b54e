-- ===== src/Gconfig.antt =====
-- gconfig_v2/token.go: the flow syntax of configuration values.
pub mod Lexer
pub mod Value
pub mod Scalar
pub mod Parser
pub mod Printer
