-- ===== src/Base/Collection.antt =====
-- A MongoDB collection: the interface to the server (`Interface`), and the two updates that the
-- repositories are made of, with their lemmas (`Updates`, `Choices`).
mod Interface
mod Updates
mod Choices
pub use Interface.*
unfoldable pub use Updates.*
unfoldable pub use Choices.*
