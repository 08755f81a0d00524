-- ===== src/Parser/Rules.antt =====
-- parser/desc.go: the rules of a section. A rule has a trigger and a chain of actions.
use rips.Prelude.{ℕ, zero, suc, Bool, true, false, not, Option, none, some, [], ◌∷◌}
use rips.Prelude.Result.{Result, ok, fatal, panic}
use rips.Lex.Token.{TokType, tok_then, tok_nthen, tok_comma, tok_quest, tok_semi}
use rips.Lex.Reader.{Token}
use rips.Types.{tv_string}
use rips.Tree.Sym.{Floats}
use rips.Tree.Env.{StkEnv, Made, made, refused, no_env, push_env, pop_env, new_const}
use rips.Parser.{
  LexPeeker, P, done, crashed, stuck, pure, fail, ◌>>=◌, ◌>>◌, when, errorf, peek, skip, no_action,
  lex_error,
}
use rips.Parser.Sync.{attempt, return_err, next_sync_no_semi, next_sync, match_err}
use rips.Parser.Tree.{Expr, Prog, add_rule, add_action}
use rips.Parser.Tables.{is_expr_tok}
use rips.Parser.Pratt.{expr}

unfoldable pub is_connector : TokType → Bool
is_connector tok_then = true
is_connector tok_nthen = true
is_connector tok_comma = true
is_connector _ = false

module _ {F S : Type 0} where
  unfoldable pub crash : {A : Type 0} → P F S A
  crash p = (crashed, p)

  unfoldable pub write : (Prog F → Prog F) → P F S (Unit {0})
  write f p = (done tt, record p { prog = f p.prog })

  -- `Envs.PushEnv` and `Envs.PopEnv`.
  unfoldable pub enter : P F S (Unit {0})
  enter p = (done tt, record p { envs = push_env p.envs })

  abbrev pub popped : Result (StkEnv F) → P F S (Unit {0})
  popped (ok es) p = (done tt, record p { envs = es })
  popped fatal p = (crashed, p)
  popped panic p = (crashed, p)

  unfoldable pub leave : P F S (Unit {0})
  leave p = popped (pop_env p.envs) p

  abbrev pub declared_rule : Made F → P F S (Unit {0})
  declared_rule (made s es) p = (done tt, record p { envs = es })
  declared_rule refused p = errorf p
  declared_rule no_env p = (crashed, p)

  -- `declareCurrRule`; the value of the constant, the name of the rule, is not kept.
  unfoldable pub declare_curr_rule : P F S (Unit {0})
  declare_curr_rule p = declared_rule (new_const "CurrRule" tv_string p.envs) p

module _ {F S : Type 0} (fl : Floats F) (l : LexPeeker F S) where
  -- Where there is no connector behind an action.
  abbrev pub resync_connector : (TokType → P F S (Unit {0})) → Option (Token F) → P F S (Unit {0})
  resync_connector more none = fail lex_error
  resync_connector more (some t) = when (is_connector t.type) (do skip l; more t.type) (pure tt)

  -- `Ruler` behind the expression, with `more` behind a connector.
  abbrev pub acted : TokType → (TokType → P F S (Unit {0})) → Option (Expr F) → P F S (Unit {0})
  acted con more none = do errorf; t ← next_sync_no_semi l (tok_then ∷ tok_nthen ∷ []); return_err t
  acted con more (some e) = do
    write (add_action (record { con = con; what = e }))
    ct ← peek l
    when (is_connector ct.type) (do skip l; more ct.type)
        do t ← next_sync_no_semi l (tok_then ∷ tok_nthen ∷ tok_comma ∷ []); resync_connector more t

  -- `Ruler`, on fuel.
  unfoldable pub ruler : ℕ → TokType → P F S (Unit {0})
  ruler zero con p = (stuck, p)
  ruler (suc f) con p =
      (do
        tok ← peek l
        when (not (is_expr_tok tok.type)) (do errorf; fail no_action)
            do o ← attempt (expr fl l f 0); acted con (ruler f) o)
        p

  -- `ActionDecls` behind its parts: the chain, the question mark, the trigger and the first token.
  abbrev pub chain_end : P F S (Unit {0}) → Option (Unit {0}) → P F S (Unit {0})
  chain_end more none = do errorf; leave; t ← next_sync l (tok_quest ∷ []); return_err t
  chain_end more (some u) = do _ ← match_err l tok_semi; leave; more

  abbrev pub quest_end : ℕ → P F S (Unit {0}) → Option (Token F) → P F S (Unit {0})
  quest_end f more none = do leave; more
  quest_end f more (some t) = do u ← attempt (ruler f tok_comma); chain_end more u

  abbrev pub trigger_end : ℕ → P F S (Unit {0}) → Option (Expr F) → P F S (Unit {0})
  trigger_end f more none = do leave; errorf; _ ← next_sync l (tok_quest ∷ []); more
  trigger_end f more (some e) = do write (add_rule e); q ← match_err l tok_quest; quest_end f more q

  abbrev pub rule_start : ℕ → P F S (Unit {0}) → Option (Token F) → P F S (Unit {0})
  rule_start f more none = do leave; t ← next_sync l []; return_err t
  rule_start f more (some t) =
      when (not (is_expr_tok t.type)) leave do o ← attempt (expr fl l f 0); trigger_end f more o

  -- `ActionDecls`, on fuel.
  unfoldable pub action_decls : ℕ → P F S (Unit {0})
  action_decls zero p = (stuck, p)
  action_decls (suc f) p =
      (do enter; declare_curr_rule; t ← attempt (peek l); rule_start f (action_decls f) t) p
