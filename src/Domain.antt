-- ===== src/Domain.antt =====
-- internal/domain: the entities and the errors. Identifiers are 128-bit values that the program
-- only compares, so `Uuid` is a number with `nil_uuid` for `uuid.Nil`; a time is a number of
-- nanoseconds. The `TableName` methods only name the tables.
mod Numbers
mod Errors
mod Statuses
mod Entities
unfoldable pub use Numbers.*
unfoldable pub use Errors.*
unfoldable pub use Statuses.*
unfoldable pub use Entities.*
