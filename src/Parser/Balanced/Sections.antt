-- ===== src/Parser/Balanced/Sections.antt =====
-- parser/desc.go: every section of a program keeps the number of environments.
use mathlib.Core.Path.{subst}
use rips.Prelude.{
  ℕ, zero, suc, ◌≡◌, refl, ◌∙◌, Bool, true, false, String, Option, none, some, [], ◌∷◌,
}
use rips.Lex.Token.{TokType, tok_id, tok_eof, tok_levels, tok_vars, tok_consts, tok_rules}
use rips.Lex.Reader.{Token}
use rips.Types.{Ty, TypeVal, tv_undef}
use rips.Tree.Sym.{s_level, s_sect, Floats}
use rips.Tree.Env.{Symbol, StkEnv, Made, made, refused, no_env, new_sym}
use rips.Parser.{LexPeeker, Parser, P}
use rips.Parser.Tree.{Expr, count}
use rips.Parser.Balanced.{
  Moves, Lands, pure-Moves, fail-Moves, ◌▷◌, when-Moves, errorf-Moves, peek-Moves, skip-Moves,
  attempt-Moves, return_err-Moves, match_tok-Moves, is_end_section-Moves, next_section-Moves,
  next_sync-Moves, match_err-Moves,
}
use rips.Parser.Balanced.Envs.{Grown, new_sym-Grown, new_const-Grown, new_var-Grown}
use rips.Parser.Balanced.Exprs.{expr-Moves, declared-Lands}
use rips.Parser.Balanced.Rules.{write-Moves, action_decls-Moves}
use rips.Parser.Decls.{
  typed, new_of, set_envs, resync_more, level_made, declare_level, level_of, level_decls,
  after_bad_expr, set_type, valued, asig_end, name_made, declare_value, type_named, declare_undef,
  type_end, no_name, decl_of, value_decls,
}
use rips.Parser.Sections.{
  Kind, of_levels, of_consts, of_vars, of_rules, sect_made, rule_sect, check_levels, section_end,
  section_of, colon_end, colon, named_rules, section, prog,
}

module _ {F : Type 0} where
  typed-count : (n : String) (t : Ty) (es : StkEnv F) → count (typed n t es) ≡ count es
  unfolding typed
  typed-count n t [] = refl
  typed-count n t (e ∷ es) = refl

  new_of-Grown :
      (b : Bool) (n : String) (t : TypeVal) (es : StkEnv F) → Grown (count es) (new_of b n t es)
  new_of-Grown true n t es = new_var-Grown n t es
  new_of-Grown false n t es = new_const-Grown n t es

module _ {F S : Type 0} (fl : Floats F) (l : LexPeeker F S) where
  set_envs-Moves : {a e : ℕ} (b : ℕ) (es : StkEnv F) → count es ≡ b → Moves a b e (set_envs fl l es)
  unfolding set_envs
  set_envs-Moves b es h = record { moves = λ p j. h }

  -- A declaration on the environments there are.
  on-made :
      {A : Type 0} (a e : ℕ) (m : StkEnv F → Made F) (k : Made F → P F S A)
      → ((es : StkEnv F) → Grown (count es) (m es))
      → ((r : Made F) → Grown (suc a) r → Moves (suc a) (suc a) e (k r))
      → (p : Parser F S) → count p.envs ≡ suc a
      → Lands (suc a) e (k (m p.envs) p)
  on-made a e m k g h p j = (h (m p.envs) (subst (λ n. Grown n (m p.envs)) j (g p.envs))).moves p j

  module _ (a : ℕ) (more : P F S (Unit {0})) (h : Moves (suc a) (suc a) (suc a) more) where
    level_made-Moves :
        (tok : Token F) (m : Made F)
        → Grown (suc a) m
        → Moves (suc a) (suc a) (suc a) (level_made fl l more tok m)
    level_made-Moves tok (made s es) g = set_envs-Moves (suc a) _ (typed-count _ _ es ∙ g) ▷ λ _.
        attempt-Moves (peek-Moves l) ▷ λ t.
        when-Moves _ (skip-Moves l ▷ λ _. write-Moves _) (write-Moves _) ▷ λ _.
        match_err-Moves l _ ▷ λ _. h
    level_made-Moves tok refused g = errorf-Moves ▷ λ _. next_sync-Moves l [] ▷ λ o. again o
      where
        again : (o : Option (Token F)) → Moves (suc a) (suc a) (suc a) (resync_more fl l more o)
        again none = return_err-Moves none
        again (some t) = h
    level_made-Moves tok no_env g = absurd g

    level_of-Moves :
        (o : Option (Option (Token F))) → Moves (suc a) (suc a) (suc a) (level_of fl l more o)
    unfolding declare_level
    level_of-Moves none = errorf-Moves ▷ λ _. next_sync-Moves l [] ▷ λ _. h
    level_of-Moves (some none) = pure-Moves tt
    level_of-Moves (some (some tok)) = record {
      moves =
          on-made a (suc a) (new_sym tok.lexema s_level) (level_made fl l more tok)
            (new_sym-Grown tok.lexema s_level) (level_made-Moves tok);
    }

    set_type-Moves : (e : ℕ) (s : Symbol F) → Moves (suc a) (suc a) e (set_type fl l s)
    unfolding set_type
    set_type-Moves e s = record { moves = λ p j. typed-count _ _ p.envs ∙ j }

    bad_expr-Moves :
        (o : Option (Token F)) → Moves (suc a) (suc a) (suc a) (after_bad_expr fl l more o)
    bad_expr-Moves none = return_err-Moves none
    bad_expr-Moves (some t) = when-Moves _ h (pure-Moves tt)

    valued-Moves :
        (b : Bool) (s : Symbol F) (o : Option (Expr F))
        → Moves (suc a) (suc a) (suc a) (valued fl l more b s o)
    valued-Moves b s none = errorf-Moves ▷ λ _. next_sync-Moves l [] ▷ λ t. bad_expr-Moves t
    valued-Moves b s (some e) = when-Moves b (set_type-Moves _ s) (pure-Moves tt) ▷ λ _.
        write-Moves _ ▷ λ _. match_err-Moves l _ ▷ λ _. h

    asig_end-Moves :
        (f : ℕ) (b : Bool) (s : Symbol F) (o : Option (Token F))
        → Moves (suc a) (suc a) (suc a) (asig_end fl l f more b s o)
    asig_end-Moves f b s none = h
    asig_end-Moves f b s (some t) = attempt-Moves (expr-Moves fl l f a 0) ▷ λ e. valued-Moves b s e

    name_made-Moves :
        (f : ℕ) (b : Bool) (tv : TypeVal) (m : Made F)
        → Grown (suc a) m
        → Moves (suc a) (suc a) (suc a) (name_made fl l f more b tv m)
    name_made-Moves f b tv (made s es) g =
        set_envs-Moves (suc a) es g ▷ λ _. match_err-Moves l _ ▷ λ t. asig_end-Moves f _ _ t
    name_made-Moves f b tv refused g =
        errorf-Moves ▷ λ _. match_err-Moves l _ ▷ λ t. asig_end-Moves f _ _ t
    name_made-Moves f b tv no_env g = absurd g

    declare_value-Moves :
        (f : ℕ) (b : Bool) (n : String) (tv : TypeVal)
        → Moves (suc a) (suc a) (suc a) (declare_value fl l f more b n tv)
    unfolding declare_value
    declare_value-Moves f b n tv = record {
      moves =
          on-made a (suc a) (new_of b n tv) (name_made fl l f more b tv) (new_of-Grown b n tv)
            (name_made-Moves f b tv);
    }

    type_named-Moves :
        (f : ℕ) (b : Bool) (n : String) (o : Option TypeVal)
        → Moves (suc a) (suc a) (suc a) (type_named fl l f more b n o)
    type_named-Moves f b n none = errorf-Moves ▷ λ _. declare_value-Moves f b n _
    type_named-Moves f b n (some tv) = declare_value-Moves f b n tv

    undef-Moves : (e : ℕ) (b : Bool) (n : String) → Moves (suc a) (suc a) e (declare_undef fl l b n)
    unfolding declare_undef
    undef-Moves e b n = record {
      moves = λ p j.
          declared-Lands fl l e (new_of b n tv_undef p.envs) p j (new_of-Grown b n tv_undef p.envs);
    }

    type_end-Moves :
        (f : ℕ) (b : Bool) (name : Token F) (o : Option (Token F))
        → Moves (suc a) (suc a) (suc a) (type_end fl l f more b name o)
    type_end-Moves f b name none = undef-Moves _ b _ ▷ λ _. next_sync-Moves l [] ▷ λ _. h
    type_end-Moves f b name (some t) = type_named-Moves f b _ _

    no_name-Moves : (b : Bool) → Moves (suc a) (suc a) (suc a) (no_name fl l more b)
    no_name-Moves b = is_end_section-Moves l ▷ λ e.
        when-Moves e (pure-Moves tt) (next_sync-Moves l [] ▷ λ t. when-Moves _ (fail-Moves _) h)

    decl_of-Moves :
        (f : ℕ) (b : Bool) (o : Option (Option (Token F)))
        → Moves (suc a) (suc a) (suc a) (decl_of fl l f more b o)
    decl_of-Moves f b none = no_name-Moves true
    decl_of-Moves f b (some none) = no_name-Moves false
    decl_of-Moves f b (some (some name)) = match_err-Moves l _ ▷ λ t. type_end-Moves f b name t

  level_decls-Moves : (f a : ℕ) → Moves (suc a) (suc a) (suc a) (level_decls fl l f)
  unfolding level_decls
  level_decls-Moves zero a = record { moves = λ p j. tt }
  level_decls-Moves (suc f) a = record {
    moves =
        (attempt-Moves (match_tok-Moves l tok_id) ▷ λ o.
        level_of-Moves a (level_decls fl l f) (level_decls-Moves f a) o).moves;
  }

  value_decls-Moves : (f a : ℕ) (b : Bool) → Moves (suc a) (suc a) (suc a) (value_decls fl l f b)
  unfolding value_decls
  value_decls-Moves zero a b = record { moves = λ p j. tt }
  value_decls-Moves (suc f) a b = record {
    moves =
        (attempt-Moves (match_tok-Moves l tok_id) ▷ λ o.
        decl_of-Moves a (value_decls fl l f b) (value_decls-Moves f a b) f b o).moves;
  }

  sect_made-Moves :
      (f a : ℕ) (m : Made F) → Grown (suc a) m → Moves (suc a) (suc a) (suc a) (sect_made fl l f m)
  sect_made-Moves f a (made s es) g =
      set_envs-Moves (suc a) es g ▷ λ _. write-Moves _ ▷ λ _. action_decls-Moves fl l f a
  sect_made-Moves f a refused g =
      errorf-Moves ▷ λ _. errorf-Moves ▷ λ _. next_section-Moves l ▷ λ t. return_err-Moves t
  sect_made-Moves f a no_env g = absurd g

  rule_sect-Moves : (f a : ℕ) (tok : Token F) → Moves (suc a) (suc a) (suc a) (rule_sect fl l f tok)
  unfolding rule_sect
  rule_sect-Moves f a tok = record {
    moves =
        on-made a (suc a) (new_sym tok.lexema s_sect) (sect_made fl l f)
          (new_sym-Grown tok.lexema s_sect) (sect_made-Moves f a);
  }

  check_levels-Moves : {a e : ℕ} → Moves a a e (check_levels fl l)
  unfolding check_levels
  check_levels-Moves = record {
    moves = λ p j. (when-Moves _ errorf-Moves (pure-Moves tt)).moves p j;
  }

  section_of-Moves : (f a : ℕ) (e : ℕ) (k : Kind F) → Moves (suc a) (suc a) e (section_of fl l f k)
  section_of-Moves f a e of_levels =
      attempt-Moves (level_decls-Moves f a) ▷ λ u. check_levels-Moves ▷ λ _. pure-Moves u
  section_of-Moves f a e of_consts = attempt-Moves (value_decls-Moves f a false)
  section_of-Moves f a e of_vars = attempt-Moves (value_decls-Moves f a true)
  section_of-Moves f a e (of_rules tok) = attempt-Moves (rule_sect-Moves f a tok)

  module _ (f a : ℕ) (more : P F S (Unit {0})) (h : Moves (suc a) (suc a) (suc a) more) where
    section_end-Moves :
        (o : Option (Unit {0})) → Moves (suc a) (suc a) (suc a) (section_end fl l more o)
    section_end-Moves none = errorf-Moves ▷ λ _. next_section-Moves l ▷ λ t. return_err-Moves t
    section_end-Moves (some u) = h

    colon_end-Moves :
        (k : Kind F) (o : Option (Token F))
        → Moves (suc a) (suc a) (suc a) (colon_end fl l f more k o)
    colon_end-Moves k none = pure-Moves tt
    colon_end-Moves k (some t) = section_of-Moves f a _ k ▷ λ u. section_end-Moves u

    colon-Moves : (k : Kind F) → Moves (suc a) (suc a) (suc a) (colon fl l f more k)
    unfolding colon
    colon-Moves k = match_err-Moves l _ ▷ λ o. colon_end-Moves k o

    named-Moves :
        (o : Option (Option (Token F))) → Moves (suc a) (suc a) (suc a) (named_rules fl l f more o)
    named-Moves (some (some tok)) = colon-Moves (of_rules tok)
    named-Moves (some none) = next_section-Moves l ▷ λ _. h
    named-Moves none = next_section-Moves l ▷ λ _. h

    section-Moves : (t : TokType) → Moves (suc a) (suc a) (suc a) (section fl l f more t)
    section-Moves tok_levels = skip-Moves l ▷ λ _. colon-Moves of_levels
    section-Moves tok_vars = skip-Moves l ▷ λ _. colon-Moves of_vars
    section-Moves tok_consts = skip-Moves l ▷ λ _. colon-Moves of_consts
    section-Moves tok_rules =
        skip-Moves l ▷ λ _. attempt-Moves (match_tok-Moves l tok_id) ▷ λ o. named-Moves o
    section-Moves tok_eof = pure-Moves tt
    section-Moves _ = errorf-Moves ▷ λ _. next_section-Moves l ▷ λ t. return_err-Moves t

  prog-Moves : (f a : ℕ) → Moves (suc a) (suc a) (suc a) (prog fl l f)
  unfolding prog
  prog-Moves zero a = record { moves = λ p j. tt }
  prog-Moves (suc f) a = record {
    moves = (peek-Moves l ▷ λ tok. section-Moves f a (prog fl l f) (prog-Moves f a) tok.type).moves;
  }

  -- From a stack with an environment, whatever the tokens, the errors and the fuel, the parser of a
  -- program never pops or writes to an environment that is not there. Where it ends with a program or
  -- an error that it returns, it leaves as many environments as there were; the panic of too many errors
  -- and the want of fuel are the other ends.
  pub prog-Lands :
      (f a : ℕ) (p : Parser F S) → count p.envs ≡ suc a → Lands (suc a) (suc a) (prog fl l f p)
  prog-Lands f a p h = (prog-Moves f a).moves p h
