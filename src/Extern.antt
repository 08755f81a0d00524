-- ===== src/Extern.antt =====
-- extern: the context of the engine, the builtin predicates and actions that read and change it.
pub mod Ctx
pub mod Host
pub mod Match
pub mod Expr
pub mod Trigger
pub mod Signals
pub mod Dispatch
