-- ===== src/Prelude/Table.antt =====
-- A database table as a list of rows: the meaning of UPDATE, DELETE and SELECT statements, and
-- the rows seen through a primary key.
mod Statements
mod Keys
mod Order
mod Select
mod Batches
unfoldable pub use Statements.*
unfoldable pub use Keys.*
unfoldable pub use Order.*
unfoldable pub use Select.*
pub use Batches.*
