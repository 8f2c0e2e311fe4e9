-- ===== src/World.antt =====
-- What a request handler works on: the database, Redis, the events sent so far and the time; and
-- the monad of an async service method that may throw.
mod State
mod Monad
pub mod Keeps
pub mod Readers
pub mod Locking
pub use State.*
unfoldable pub use Monad.*
