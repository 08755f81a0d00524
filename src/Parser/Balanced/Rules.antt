-- ===== src/Parser/Balanced/Rules.antt =====
-- parser/desc.go: each rule closes the scope that it opens.
use mathlib.Core.Path.{subst}
use rips.Prelude.{ℕ, zero, suc, ◌≡◌, ap, arith, Option, none, some, [], ◌∷◌}
use rips.Lex.Token.{TokType, tok_comma}
use rips.Lex.Reader.{Token}
use rips.Types.{tv_string}
use rips.Tree.Sym.{Floats}
use rips.Tree.Env.{StkEnv, Made, made, refused, no_env, push_env, pop_env, new_const}
use rips.Parser.{LexPeeker, Parser, P}
use rips.Parser.Tree.{Expr, Prog, count}
use rips.Parser.Balanced.{
  Moves, Lands, pure-Moves, fail-Moves, ◌▷◌, when-Moves, errorf-Moves, peek-Moves, skip-Moves,
  attempt-Moves, return_err-Moves, no_semi-Moves, next_sync-Moves, match_err-Moves,
}
use rips.Parser.Balanced.Envs.{Grown, new_const-Grown}
use rips.Parser.Balanced.Exprs.{expr-Moves}
use rips.Parser.Rules.{
  write, enter, popped, leave, declared_rule, declare_curr_rule, resync_connector, acted, ruler,
  chain_end, quest_end, trigger_end, rule_start, action_decls,
}

module _ {F S : Type 0} where
  pub write-Moves : {a e : ℕ} (f : Prog F → Prog F) → Moves {F = F} {S = S} a a e (write f)
  unfolding write
  write-Moves f = record { moves = λ p j. j }

  enter-Moves : {a e : ℕ} → Moves {F = F} {S = S} a (suc a) e enter
  unfolding enter push_env
  enter-Moves = record { moves = λ p j. ap suc j }

  leave-Lands :
      (a e : ℕ) (es : StkEnv F) (p : Parser F S)
      → count es ≡ suc (suc a)
      → Lands (suc a) e (popped (pop_env es) p)
  unfolding pop_env
  leave-Lands a e [] p h = absurd (omega arith)
  leave-Lands a e (x ∷ []) p h = absurd (omega arith)
  leave-Lands a e (x ∷ y ∷ es) p h = omega arith

  leave-Moves : {a e : ℕ} → Moves {F = F} {S = S} (suc (suc a)) (suc a) e leave
  unfolding leave
  leave-Moves {a = a} {e = e} = record { moves = λ p j. leave-Lands a e p.envs p j }

  declared-Lands :
      (a e : ℕ) (m : Made F) (p : Parser F S)
      → count p.envs ≡ suc a
      → Grown (suc a) m
      → Lands (suc a) e (declared_rule m p)
  declared-Lands a e (made s es) p h g = g
  declared-Lands a e refused p h g = errorf-Moves.moves p h
  declared-Lands a e no_env p h g = g

  declare_curr_rule-Moves : {a e : ℕ} → Moves {F = F} {S = S} (suc a) (suc a) e declare_curr_rule
  unfolding declare_curr_rule
  declare_curr_rule-Moves {a = a} {e = e} = record {
    moves = λ p j. declared-Lands a e (new_const "CurrRule" tv_string p.envs) p j (
        subst (λ n. Grown n (new_const "CurrRule" tv_string p.envs)) j
          (new_const-Grown "CurrRule" tv_string p.envs));
  }

module _ {F S : Type 0} (fl : Floats F) (l : LexPeeker F S) where
  resync-Moves :
      {a : ℕ} (more : TokType → P F S (Unit {0})) (o : Option (Token F))
      → ((t : TokType) → Moves a a a (more t))
      → Moves a a a (resync_connector fl l more o)
  resync-Moves more none h = fail-Moves _
  resync-Moves more (some t) h = when-Moves _ (skip-Moves l ▷ λ _. h t.type) (pure-Moves tt)

  acted-Moves :
      {a : ℕ} (con : TokType) (more : TokType → P F S (Unit {0})) (o : Option (Expr F))
      → ((t : TokType) → Moves a a a (more t))
      → Moves a a a (acted fl l con more o)
  acted-Moves con more none h = errorf-Moves ▷ λ _. no_semi-Moves l _ ▷ λ t. return_err-Moves t
  acted-Moves con more (some e) h = write-Moves _ ▷ λ _. peek-Moves l ▷ λ ct.
      when-Moves _ (skip-Moves l ▷ λ _. h ct.type) (no_semi-Moves l _ ▷ λ t. resync-Moves more t h)

  ruler-Moves : (f a : ℕ) (con : TokType) → Moves (suc a) (suc a) (suc a) (ruler fl l f con)
  unfolding ruler
  ruler-Moves zero a con = record { moves = λ p j. tt }
  ruler-Moves (suc f) a con = record {
    moves =
        (peek-Moves l ▷ λ tok. when-Moves _ (errorf-Moves ▷ λ _. fail-Moves _) (
          attempt-Moves (expr-Moves fl l f a 0) ▷ λ o.
          acted-Moves con (ruler fl l f) o (ruler-Moves f a))).moves;
  }

  -- The parts of a rule stand in a scope of its own, and close it.
  Closes : ℕ → P F S (Unit {0}) → Type 0
  Closes a m = Moves (suc (suc a)) (suc a) (suc a) m

  module _ (a : ℕ) (more : P F S (Unit {0})) (h : Moves (suc a) (suc a) (suc a) more) where
    chain_end-Closes : (o : Option (Unit {0})) → Closes a (chain_end fl l more o)
    unfolding Closes
    chain_end-Closes none =
        errorf-Moves ▷ λ _. leave-Moves ▷ λ _. next_sync-Moves l _ ▷ λ t. return_err-Moves t
    chain_end-Closes (some u) = match_err-Moves l _ ▷ λ _. leave-Moves ▷ λ _. h

    quest_end-Closes : (f : ℕ) (o : Option (Token F)) → Closes a (quest_end fl l f more o)
    unfolding Closes
    quest_end-Closes f none = leave-Moves ▷ λ _. h
    quest_end-Closes f (some t) =
        attempt-Moves (ruler-Moves f (suc a) tok_comma) ▷ λ u. chain_end-Closes u

    trigger_end-Closes : (f : ℕ) (o : Option (Expr F)) → Closes a (trigger_end fl l f more o)
    unfolding Closes
    trigger_end-Closes f none = leave-Moves ▷ λ _. errorf-Moves ▷ λ _. next_sync-Moves l _ ▷ λ _. h
    trigger_end-Closes f (some e) =
        write-Moves _ ▷ λ _. match_err-Moves l _ ▷ λ q. quest_end-Closes f q

    rule_start-Closes : (f : ℕ) (o : Option (Token F)) → Closes a (rule_start fl l f more o)
    unfolding Closes
    rule_start-Closes f none = leave-Moves ▷ λ _. next_sync-Moves l _ ▷ λ t. return_err-Moves t
    rule_start-Closes f (some t) =
        when-Moves _ leave-Moves
          (attempt-Moves (expr-Moves fl l f (suc a) 0) ▷ λ o. trigger_end-Closes f o)

  -- Whatever the tokens and the errors, the rules of a section leave as many environments as there were,
  -- of which there has to be one, and do not panic over the environments.
  pub action_decls-Moves : (f a : ℕ) → Moves (suc a) (suc a) (suc a) (action_decls fl l f)
  unfolding action_decls Closes
  action_decls-Moves zero a = record { moves = λ p j. tt }
  action_decls-Moves (suc f) a = record {
    moves =
        (enter-Moves ▷ λ _. declare_curr_rule-Moves ▷ λ _. attempt-Moves (peek-Moves l) ▷ λ t.
        rule_start-Closes a (action_decls fl l f) (action_decls-Moves f a) f t).moves;
  }
