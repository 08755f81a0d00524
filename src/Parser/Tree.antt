-- ===== src/Parser/Tree.antt =====
-- tree/tree.go, as the parser uses it: the expressions that it builds.
use rips.Prelude.{ℕ, suc, Bool, String, List, [], ◌∷◌}
use rips.Lex.Token.{TokType}
use rips.Tree.Sym.{Val}
use rips.Tree.Env.{Symbol}

-- A literal; a leaf of a token that is no value; the symbol of a name, a pointer that the environment
-- holds; a name without a symbol; a call, of a function or of what is none; an operator with its
-- operands.
mutual
  pub data Expr (F : Type 0) : Type 0 where
    literal : Val F → Expr F
    op_leaf : TokType → Expr F
    ident : Symbol F → Expr F
    unknown : String → Expr F
    call : Symbol F → Args F → Expr F
    bad_call : String → Args F → Expr F
    unary : TokType → Expr F → Expr F
    binary : TokType → Expr F → Expr F → Expr F

  pub data Args (F : Type 0) : Type 0 where
    no_args : Args F
    arg : Expr F → Args F → Args F

module _ {F : Type 0} where
  -- `AddRight`, on what `NewExpr` and `SetExprVal` made of an operator.
  unfoldable pub add_right : TokType → Expr F → Expr F
  add_right op right = unary op right

  -- `AddLeft` and `AddRight`.
  unfoldable pub add_both : TokType → Expr F → Expr F → Expr F
  add_both op left right = binary op left right

  -- `AddArg`, for each argument: a symbol that has no expression takes none.
  unfoldable pub add_args : Expr F → Args F → Expr F
  add_args (call s no_args) xs = call s xs
  add_args (unknown n) xs = bad_call n xs
  add_args e xs = e

-- `Action`, with the connector before it, `Rule`, and `RuleSect` with its `SectId`.
pub record Action (F : Type 0) : Type 0 where
  pub con : TokType
  pub what : Expr F

pub record Rule (F : Type 0) : Type 0 where
  pub trigger : Expr F
  pub actions : List (Action F)

pub record RuleSect (F : Type 0) : Type 0 where
  pub sect_id : Symbol F
  pub rules : List (Rule F)

-- A symbol of `Levels`: its name, and whether it is soft. Its number is that of the levels before it.
pub record Level : Type 0 where
  pub level_name : String
  pub s_level : ℕ
  pub is_soft : Bool

-- `Decl`.
pub record Decl (F : Type 0) : Type 0 where
  pub l_val : Symbol F
  pub r_val : Expr F

-- `Prog`, with the latest part of each list first: what the parser adds to is at the front.
pub record Prog (F : Type 0) : Type 0 where
  pub levels : List Level
  pub decls : List (Decl F)
  pub rule_sects : List (RuleSect F)

abbrev pub new_prog : {F : Type 0} → Prog F
new_prog = record { levels = []; decls = []; rule_sects = [] }

abbrev pub count : {A : Type 0} → List A → ℕ
count [] = 0
count (x ∷ xs) = suc (count xs)

module _ {F : Type 0} where
  unfoldable pub add_level : String → Bool → Prog F → Prog F
  add_level n soft g = record g {
    levels = record { level_name = n; s_level = count g.levels; is_soft = soft } ∷ g.levels;
  }

  unfoldable pub add_decl : Decl F → Prog F → Prog F
  add_decl d g = record g { decls = d ∷ g.decls }

  unfoldable pub add_rule_sect : Symbol F → Prog F → Prog F
  add_rule_sect s g = record g { rule_sects = record { sect_id = s; rules = [] } ∷ g.rule_sects }

  -- `AddRule`, to the section that was added last.
  abbrev rule_to : Expr F → List (RuleSect F) → List (RuleSect F)
  rule_to e [] = []
  rule_to e (s ∷ ss) = record s { rules = record { trigger = e; actions = [] } ∷ s.rules } ∷ ss

  unfoldable pub add_rule : Expr F → Prog F → Prog F
  add_rule e g = record g { rule_sects = rule_to e g.rule_sects }

  -- `AddAction`, to the rule that was added last.
  abbrev action_to_rule : Action F → List (Rule F) → List (Rule F)
  action_to_rule a [] = []
  action_to_rule a (r ∷ rs) = record r { actions = a ∷ r.actions } ∷ rs

  abbrev action_to : Action F → List (RuleSect F) → List (RuleSect F)
  action_to a [] = []
  action_to a (s ∷ ss) = record s { rules = action_to_rule a s.rules } ∷ ss

  unfoldable pub add_action : Action F → Prog F → Prog F
  add_action a g = record g { rule_sects = action_to a g.rule_sects }
