-- ===== src/Tree/Chain/Invariant.antt =====
-- tree/interp.go: what the builtins keep, the interpretation of a program on a message keeps.
use rips.Prelude.{Bool, true, false, not, if◌then◌else◌, str_eq, String, Option, List, [], ◌∷◌}
use rips.Prelude.Result.{Result, ok, fatal, panic, ◌>>=◌}
use rips.Extern.Ctx.{RosMsg}
use rips.Tree.Sym.{Floats}
use rips.Tree.Eval.{Machine, Actual}
use rips.Tree.Eval.Invariant.{Ends, eval_expr-Ends}
use rips.Tree.Chain.{
  Action, Rule, RuleSect, do_next, run_actions, interp_rule, interp_rules, interp_sects,
  interp_prog,
}

-- If the run ends with a state, the state satisfies `I`.
abbrev pub EndsIn : {W : Type 0} → (W → Type 0) → Result W → Type 0
EndsIn I (ok w) = I w
EndsIn I fatal = Unit
EndsIn I panic = Unit

pub bind-EndsIn :
    {V W : Type 0} (J : V → Type 0) (I : W → Type 0) (r : Result V) (f : V → Result W)
    → EndsIn J r
    → ((v : V) → J v → EndsIn I (f v))
    → EndsIn I (r >>= f)
bind-EndsIn J I (ok v) f h k = k v h
bind-EndsIn J I fatal f h k = tt
bind-EndsIn J I panic f h k = tt

value-EndsIn :
    {A W : Type 0} (I : W → Type 0) (r : Result (A × W)) (f : A × W → Result W)
    → Ends I r
    → ((a : A) (w : W) → I w → EndsIn I (f (a, w)))
    → EndsIn I (r >>= f)
value-EndsIn I (ok (a, w)) f h k = k a w h
value-EndsIn I fatal f h k = tt
value-EndsIn I panic f h k = tt

then-EndsIn :
    {W : Type 0} (I : W → Type 0) (r : Result W) (f : W → Result W)
    → EndsIn I r
    → ((w : W) → I w → EndsIn I (f w))
    → EndsIn I (r >>= f)
then-EndsIn I (ok w) f h k = k w h
then-EndsIn I fatal f h k = tt
then-EndsIn I panic f h k = tt

pub if-EndsIn :
    {W : Type 0} (I : W → Type 0) (b : Bool) (r q : Result W)
    → EndsIn I r
    → EndsIn I q
    → EndsIn I (if b then r else q)
if-EndsIn I true r q h k = h
if-EndsIn I false r q h k = k

module _ {F W : Type 0} (fl : Floats F) (m : Machine F W) (I : W → Type 0)
    (call-Ends : (f : String) (xs : List (Actual F)) (w : W) → I w → Ends I (m.call f xs w)) where
  run_actions-EndsIn :
      (b : Bool) (list : List (Action F)) (w : W) → I w → EndsIn I (run_actions fl m b list w)
  unfolding run_actions
  run_actions-EndsIn b [] w i = i
  run_actions-EndsIn b (a ∷ rest) w i = if-EndsIn I (not (do_next b a.con)) _ _ i (
      value-EndsIn I _ _ (eval_expr-Ends fl m true I call-Ends a.what w i)
        (λ v w₁ i₁. run_actions-EndsIn v.bool_val rest w₁ i₁))

  interp_rule-EndsIn : (r : Rule F) (w : W) → I w → EndsIn I (interp_rule fl m r w)
  unfolding interp_rule
  interp_rule-EndsIn r w i =
      value-EndsIn I _ _ (eval_expr-Ends fl m true I call-Ends r.expr w i)
        (λ v w₁ i₁. if-EndsIn I v.bool_val _ _ (run_actions-EndsIn true r.actions w₁ i₁) i₁)

  interp_rules-EndsIn : (list : List (Rule F)) (w : W) → I w → EndsIn I (interp_rules fl m list w)
  unfolding interp_rules
  interp_rules-EndsIn [] w i = i
  interp_rules-EndsIn (r ∷ rest) w i =
      then-EndsIn I _ _ (interp_rule-EndsIn r w i) (λ w₁ i₁. interp_rules-EndsIn rest w₁ i₁)

  interp_sects-EndsIn :
      (tm : String) (sects : List (RuleSect F)) (w : W)
      → I w
      → EndsIn I (interp_sects fl m tm sects w)
  unfolding interp_sects
  interp_sects-EndsIn tm [] w i = i
  interp_sects-EndsIn tm (rs ∷ rest) w i =
      if-EndsIn I (str_eq rs.sect_name tm) _ _ (interp_rules-EndsIn rs.rules w i)
        (interp_sects-EndsIn tm rest w i)

  pub interp_prog-EndsIn :
      (sects : List (RuleSect F)) (msg : Option RosMsg) (w : W)
      → I w
      → EndsIn I (interp_prog fl m sects msg w)
  unfolding interp_prog
  interp_prog-EndsIn sects msg w i = interp_sects-EndsIn _ sects w i
