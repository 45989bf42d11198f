-- ===== src/Protocol.antt =====
-- The `protocol` crate: the types that the services and the executor share
-- (protocol/src/types, protocol/src/traits/executor.rs).
pub mod Primitive
pub mod Response
pub mod Context
pub mod Keys
pub use Primitive.*
unfoldable pub use Response.*
unfoldable pub use Context.*
unfoldable pub use Keys.*
