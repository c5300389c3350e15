-- ===== src/Core/Ids.antt =====
-- src/core/Ids.cpp: typed, content-derived identifiers, `<kind>:sha256:<digest>`.
mod Kinds
mod Format
mod Equality
pub use Kinds.*
pub use Format.*
unfoldable pub use Equality.*
