-- ===== src/Platform.antt =====
-- The services that the program runs on: a TypeORM repository over a Postgres table, and Redis.
-- Their code is not part of the repository, so each is a record of operations with the documented
-- behaviour that the program relies on. What a table or Redis holds is plain data.
mod Table
mod Cache
pub use Table.*
pub use Cache.*
