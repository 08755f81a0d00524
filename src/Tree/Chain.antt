-- ===== src/Tree/Chain.antt =====
-- tree/interp.go: the interpreter of rules. A rule is a trigger expression and a chain of actions,
-- each behind its connector; a program runs the rules of one section on each message.
pub mod Laws
pub mod Invariant
pub mod Run
mod Tests
use rips.Prelude.{
  Bool, true, false, not, ◌&&◌, ◌||◌, if◌then◌else◌, str_eq, String, Option, none, some, List, [],
  ◌∷◌,
}
use rips.Prelude.Result.{Result, ok, fatal, panic, ◌>>=◌}
use rips.Lex.Token.{TokType, same_tok, tok_then, tok_nthen, tok_comma}
use rips.Extern.Ctx.{RosMsg, msg_type_name}
use rips.Tree.Sym.{Floats, Val, Sym}
use rips.Tree.Eval.{Machine, eval_expr}

-- An action with the connector that stands before it; that of the first one is a comma.
pub record Action (F : Type 0) : Type 0 where
  pub con : TokType
  pub what : Sym F

pub record Rule (F : Type 0) : Type 0 where
  pub expr : Sym F
  pub actions : List (Action F)

-- `RuleSect`, with the name of its `SectId`.
pub record RuleSect (F : Type 0) : Type 0 where
  pub sect_name : String
  pub rules : List (Rule F)

-- Whether the connector lets the next action run after one that ended with `issuccess`.
unfoldable pub do_next : Bool → TokType → Bool
do_next issuccess con =
    issuccess && same_tok con tok_then
    || not issuccess && same_tok con tok_nthen
    || same_tok con tok_comma

module _ {F W : Type 0} (fl : Floats F) (m : Machine F W) where
  -- The loop over the actions of a rule.
  unfoldable pub run_actions : Bool → List (Action F) → W → Result W
  run_actions issuccess [] w = ok w
  run_actions issuccess (a ∷ rest) w =
      if not (do_next issuccess a.con)
      then ok w
      else (eval_expr fl m true a.what w >>= λ p. run_actions (p.0).bool_val rest (p.1))

  -- `Rule.Interp`.
  unfoldable pub interp_rule : Rule F → W → Result W
  interp_rule r w = do
    (val, w₁) ← eval_expr fl m true r.expr w
    if val.bool_val then run_actions true r.actions w₁ else ok w₁

  unfoldable pub interp_rules : List (Rule F) → W → Result W
  unfolding interp_rule
  interp_rules [] w = ok w
  interp_rules (r ∷ rest) w = do w₁ ← interp_rule r w; interp_rules rest w₁

  -- The first section of that name runs, and no other.
  unfoldable pub interp_sects : String → List (RuleSect F) → W → Result W
  interp_sects tm [] w = ok w
  interp_sects tm (rs ∷ rest) w =
      if str_eq rs.sect_name tm then interp_rules rs.rules w else interp_sects tm rest w

  -- `Prog.Interp` behind `SetPredefVars`.
  unfoldable pub interp_prog : List (RuleSect F) → Option RosMsg → W → Result W
  interp_prog sects msg w =
      interp_sects (elim msg [ none ↦ "External" | some x ↦ msg_type_name x ]) sects w
