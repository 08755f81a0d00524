-- ===== src/Tree/Builtins.antt =====
-- tree/builtins.go: the builtin functions, as the evaluator calls them, on the state of a running
-- program.
pub mod World
pub mod Fns
pub mod Table
pub mod Laws
pub mod Every
pub mod Invariant
pub mod Returns
mod Tests
