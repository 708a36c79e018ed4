-- ===== src/Model.antt =====
-- What the callbacks and the batch engine share: the values and fields of a model, the dialect, and
-- the helpers of scope.go that write SQL.
mod Fields
mod Dialects
mod Vars
mod Scopes
mod Text
unfoldable pub use Fields.*
unfoldable pub use Dialects.*
unfoldable pub use Vars.*
unfoldable pub use Scopes.*
unfoldable pub use Text.*
