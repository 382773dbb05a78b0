-- ===== src/Codegen.antt =====
-- packages/codegen/src
pub mod Discover
pub mod Issues
pub mod Types
pub mod BuiltinTypes
pub mod Names
pub mod TypeGraph
pub mod Naming
pub mod Enums
pub mod Recursion
pub mod Structures
pub mod Variables
pub mod Assemble
pub mod Compile
mod Tests
