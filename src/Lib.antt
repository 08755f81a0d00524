-- ===== src/Lib.antt =====
-- rips: a rule engine that watches a ROS 2 system. A program of rules has one section per type of
-- message; on each message, the engine evaluates the trigger expression of each rule of that section
-- and, where it is true, runs the rule's chain of actions, which may raise alerts, run programs and
-- change the alert level.
--
-- The parts, with their files in the repository and in this library:
--   - Prelude: shared names, signed integers over the native numbers (Prelude.Int), 64-bit integers in
--     two's complement (Prelude.Int64) and the ends of a computation (Prelude.Result: a value, a fatal
--     error that stops the process, a panic).
--   - Lex.Token: lex/lex.go, the token types and the two functions that print them.
--   - Lex.Library: the unicode classes and the conversions that lex/lex.go calls, a parameter.
--   - Lex.Reader: the type Lexer with its reader, and get, unget, accept and quote. An operation ends
--     with a value, an error, a panic, or for want of fuel.
--   - Lex.Scan: lexId, lexString and lexNum.
--   - Lex.Lexer: mayLexDouble, eatComment, Lex, Peek and LexWhileNot. Lex has a round of fuel for each
--     rune that is left and one for the end, LexWhileNot one more for a token that is saved, and each
--     round takes one of these.
--   - Lex.Reader.Invariant, Lex.Scan.Invariant, Lex.Lexer.Invariant: what the primitive operations keep,
--     every operation of the lexer keeps; the files beside them apply it.
--   - Types: types/type.go, types with a value type and a section type, compatibility (IsTypeCompat) and
--     the operators of each type (IsCompatOp).
--   - Extern.Ctx: extern/context.go and extern/msg.go, the messages and the context of execution.
--   - Extern.Host: what the engine asks of the operating system and of other packages, a parameter.
--   - Extern.Match, Extern.Expr: extern/expr.go and extern/ids.go, the predicates on a message and on the
--     graph of the system.
--   - Extern.Trigger: extern/actions.go, the actions and the change of the alert level (Trigger).
--   - Extern.Signals: the counters of extern/conc.go, which the predicate signal consumes.
--   - Extern.Dispatch: MsgDecoder and Dispatcher of extern/conc.go with the channels between them, as steps
--     of the two and of what comes from outside.
--   - Parser: parser/desc.go, the state of the parser and how its functions end; a source of tokens is an
--     interface, which the lexer fills (Parser.Source, Parser.Sized).
--   - Parser.Tree: tree/tree.go, the expressions, rules and sections that the parser builds. A list to which
--     the source appends has its latest part first.
--   - Parser.Sync, Parser.Rules, Parser.Decls, Parser.Sections: parser/desc.go, the recovery from errors, the
--     rules, the declarations and the sections. Each recursive call takes one unit of fuel, and the
--     expressions have the rest of it.
--   - Parser.Balanced: the environments that the functions of the parser leave behind.
--   - Parser.Tables, Parser.Pratt: parser/pratt.go, the tables of precedences and the parser of expressions.
--     The fuel of Expr is three for each token that is left and one more; each call takes one of it.
--   - Parser.Grammar: expressions with the parentheses that the precedences ask for, with the tokens they
--     are written with and the trees they mean.
--   - Tree.Sym: tree/sym.go and tree/tree.go, values and expression trees.
--   - Tree.Env: tree/sym.go and tree/vars.go, the stack of environments, PushEnv, PopEnv, GetSym,
--     NewSym, NewVar, NewConst, NewFunc and the predefined variables.
--   - Tree.Ops, Tree.Eval: tree/eval.go, the operators and EvalExpr. The evaluator takes a machine, which
--     reads variables and calls builtins.
--   - Tree.Eval.Sound: what the evaluation of operators on constants and variables ends with.
--   - Tree.Builtins: tree/builtins.go, the table of builtins and their functions on the engine's state;
--     together they are the machine of the engine (Tree.Builtins.Table.machine).
--   - Tree.Builtins.Invariant, Tree.Eval.Invariant, Tree.Chain.Invariant: a property of the context that
--     the four operations which write to it keep is kept by every builtin, expression and program;
--     Tree.Chain.Run applies it.
--   - Tree.Levels: the builtin trigger, with the variable CurrLevel that it keeps.
--   - Tree.Annotate, Tree.Check: tree/type.go and tree/states.go, the types that are written to expressions,
--     and the checks of expressions, declarations and programs, which count errors.
--   - Tree.Check.Sound: what the checker accepts, in Tree.Eval.
--   - Tree.Fold: the folding of expressions of tree/const.go.
--   - Tree.Fold.Dead: the deletion of dead code of tree/const.go. Its passes over a chain have fuel for two
--     passes for each action and one more.
--   - Tree.Chain: tree/interp.go, sections, rules and chains of actions.
--   - Tree.Exec: tree/vars.go and tree/interp.go, SetPredefVars and Prog.Interp: a run on a message, with
--     the predefined variables that are set before it.
--   - Session: rips/rips.go and extern/conc.go, the start of the engine and the messages, polls, signals
--     and paths that its dispatcher takes.
--   - Fixtures: sample data for tests.
--
-- State is passed explicitly: the context Ctx holds what the engine sent and ran as a list of effects,
-- the latest first; the state of the lexer holds the text that its reader has left. A nil pointer is an
-- Option, and reading through it is a panic. But for the loops of the lexer, the parser and the
-- deletion of dead code every function is structurally recursive, so that no fuel is needed. Floats are
-- an abstract type with operations, since the arithmetic of IEEE 754 is not in the repository; so are
-- the times of Go's package time. Strings are sequences of runes. The host's answers are functions of
-- their arguments. The reader of a lexer fails only at the end of its text.
--
-- Not modelled: the function Parse with its set-up (parser/desc.go); NewExecEnv and PushSyms
-- (tree/interp.go), which copy the global variables of a program to a new environment, since the state
-- of a run starts from their values here; the values that the folding of a declaration copies to its
-- symbol; and the generator of Go code (tree/gen.go, tree/genprog.go), which would need a semantics of
-- Go. The flags and sockets of the driver, the statistics, the debugging output and the watcher of directories are input and
-- output only.
pub mod Prelude
pub mod Lex
pub mod Parser
pub mod Types
pub mod Extern
pub mod Tree
pub mod Session
pub mod Fixtures
