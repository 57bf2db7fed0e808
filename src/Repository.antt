-- ===== src/Repository.antt =====
-- internal/repository: what each repository asks of gorm. A found row comes back as a pointer,
-- which is never nil when there is no error.
mod Columns
mod Queries
unfoldable pub use Columns.*
unfoldable pub use Queries.*
