-- ===== src/Tree.antt =====
-- tree: symbols, the evaluation of expressions, and the interpreter of rules.
pub mod Sym
pub mod Ops
pub mod Eval
pub mod Levels
pub mod Builtins
pub mod Annotate
pub mod Check
pub mod Fold
pub mod Chain
pub mod Env
pub mod Exec
