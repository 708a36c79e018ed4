-- ===== src/Callbacks.antt =====
-- callback.go: the registry of CRUD callbacks. Loggers and the warning on a duplicated name only
-- print, and are left out. One `Callback` is modelled; its slices are values, so appends of two
-- clones to one backing array are not.
mod Objects
mod Sort
mod Registry
mod Index
mod Rule
mod Growth
mod Context
mod Termination
mod Outcome
mod Single
mod Select
mod Before
mod Plain
mod Samples
mod Witnesses
pub use Objects.*
pub use Sort.*
pub use Registry.*
