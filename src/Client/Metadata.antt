-- ===== src/Client/Metadata.antt =====
-- packages/client/src/internal/metadata/service.ts: what the client asks a server about its nodes.
pub mod BuiltIn
pub mod Cache
pub mod Nodes
mod Tests
