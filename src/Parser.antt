-- ===== src/Parser.antt =====
-- internal/parser: a compose file, as compose-go decodes it, into a deployment specification.
pub mod Compose
pub mod Errors
pub mod Preflight
pub mod Extensions
pub mod Mounts
pub mod Convert
pub mod Graph
pub mod Parse
