-- ===== src/Tree/Chain/Laws.antt =====
-- tree/interp.go: the loop over the actions against the meaning of the grammar of a chain.
use rips.Prelude.{
  ◌≡◌, refl, ◌≢◌, ◌∙◌, Bool, true, not, if◌then◌else◌, str_eq_iff, some, List, [], ◌∷◌, ◌++◌, arith,
  All,
}
use rips.Prelude.Result.{Result, ok, fatal, panic, ◌>>=◌}
use rips.Lex.Token.{TokType, tok_then, tok_nthen, tok_comma}
use rips.Extern.Ctx.{RosMsg, msg_type_name}
use rips.Tree.Sym.{Floats, Sym}
use rips.Tree.Eval.{Machine, eval_expr}
use rips.Tree.Chain.{
  Action, RuleSect, do_next, run_actions, interp_rules, interp_sects, interp_prog,
}

pub data Connector : Type 0 where
  thens nthens comma : Connector

-- `RULER := ACTION | ACTION '=>' RULER | ACTION '!>' RULER | ACTION ',' RULER`.
pub data Ruler (F : Type 0) : Type 0 where
  last : Sym F → Ruler F
  link : Sym F → Connector → Ruler F → Ruler F

abbrev connector_token : Connector → TokType
connector_token thens = tok_then
connector_token nthens = tok_nthen
connector_token comma = tok_comma

-- The chain that the parser builds: each action with the connector before it.
pub actions_of : {F : Type 0} → TokType → Ruler F → List (Action F)
actions_of con (last s) = record { con = con; what = s } ∷ []
actions_of con (link s c r) = record { con = con; what = s } ∷ actions_of (connector_token c) r

-- `=>` goes on after true, `!>` after false, and a comma always.
abbrev goes_on : Connector → Bool → Bool
goes_on thens b = b
goes_on nthens b = not b
goes_on comma b = true

module _ {F W : Type 0} (fl : Floats F) (m : Machine F W) where
  -- The meaning of a chain by the grammar: run the action, and go on as its connector says.
  pub run_ruler : Ruler F → W → Result W
  run_ruler (last s) w = do (val, w₁) ← eval_expr fl m true s w; ok w₁
  run_ruler (link s c r) w =
      (eval_expr fl m true s w >>= λ p.
      if goes_on c (p.0).bool_val then run_ruler r (p.1) else ok (p.1))

  do_next-connector : (b : Bool) (c : Connector) → do_next b (connector_token c) ≡ goes_on c b
  unfolding do_next
  do_next-connector b c = ground arith

  bind_ext :
      {A B : Type 0} (r : Result A) (f g : A → Result B)
      → ((a : A) → f a ≡ g a)
      → (r >>= f) ≡ (r >>= g)
  bind_ext (ok a) f g h = h a
  bind_ext fatal f g h = refl
  bind_ext panic f g h = refl

  run_actions-goes_on :
      (r : Ruler F) (con : TokType) (b : Bool) (w : W)
      → run_actions fl m b (actions_of con r) w ≡ (if do_next b con then run_ruler r w else ok w)
  unfolding run_actions run_ruler actions_of
  run_actions-goes_on (last s) con b w = ground arith
  run_actions-goes_on (link s c r) con b w =
      let rest =
        bind_ext (eval_expr fl m true s w)
          (λ p. run_actions fl m (p.0).bool_val (actions_of (connector_token c) r) (p.1))
          (λ p. if goes_on c (p.0).bool_val then run_ruler r (p.1) else ok (p.1))
          (λ p.
            run_actions-goes_on r (connector_token c) (p.0).bool_val (p.1)
            ∙ rw (do_next-connector (p.0).bool_val c)) in
      ground (arith, rest)

  -- The loop over the chain that the parser builds does what the grammar of the chain means: each
  -- action runs if the chain arrives at it and its connector agrees with the result before it, and
  -- the first connector that disagrees ends the chain. A process that stops does so in both.
  pub run_actions-run_ruler :
      (r : Ruler F) (w : W) → run_actions fl m true (actions_of tok_comma r) w ≡ run_ruler r w
  unfolding do_next
  run_actions-run_ruler r w = run_actions-goes_on r tok_comma true w

  -- A program does nothing on a message for which no section has the name of its type.
  interp_prog-other :
      (sects : List (RuleSect F)) (x : RosMsg) (w : W)
      → All (λ rs. rs.sect_name ≢ msg_type_name x) sects
      → interp_prog fl m sects (some x) w ≡ ok w
  unfolding interp_prog interp_sects
  interp_prog-other [] x w h = refl
  interp_prog-other (rs ∷ rest) x w h =
      ground (arith, interp_prog-other rest x w h.1, str_eq_iff rs.sect_name (msg_type_name x))

  -- On a message whose type names a section, exactly the rules of the first section of that name
  -- run, whatever stands behind it.
  interp_prog-first :
      (before after : List (RuleSect F)) (rs : RuleSect F) (x : RosMsg) (w : W)
      → All (λ s. s.sect_name ≢ msg_type_name x) before
      → rs.sect_name ≡ msg_type_name x
      → interp_prog fl m (before ++ rs ∷ after) (some x) w ≡ interp_rules fl m rs.rules w
  unfolding interp_prog interp_sects
  interp_prog-first [] after rs x w h e = ground (arith, str_eq_iff rs.sect_name (msg_type_name x))
  interp_prog-first (s ∷ before) after rs x w h e =
      ground (
        arith,
        interp_prog-first before after rs x w h.1 e,
        str_eq_iff s.sect_name (msg_type_name x),
      )
