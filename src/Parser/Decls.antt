-- ===== src/Parser/Decls.antt =====
-- parser/desc.go: the declarations of levels, constants and variables.
use rips.Prelude.{
  ℕ, zero, suc, Bool, true, false, ◌||◌, if◌then◌else◌, str_eq, String, Option, none, some, List,
  [], ◌∷◌,
}
use rips.Lex.Token.{tok_id, tok_soft, tok_semi, tok_asig, tok_eof}
use rips.Lex.Reader.{Token}
use rips.Types.{Ty, TypeVal, univ_type, int_type, tv_int, tv_float, tv_bool, tv_string, tv_undef}
use rips.Tree.Sym.{SType, s_level, s_var, s_const, Floats}
use rips.Tree.Env.{Symbol, StkEnv, Made, made, refused, no_env, blank, new_sym, new_var, new_const}
use rips.Parser.{
  LexPeeker, P, done, stuck, pure, fail, ◌>>=◌, ◌>>◌, when, errorf, peek, skip, match_tok,
  unexpected_eof,
}
use rips.Parser.Sync.{attempt, return_err, is_tok, is_end_section, next_sync, match_err}
use rips.Parser.Tree.{Expr, add_level, add_decl}
use rips.Parser.Rules.{crash, write}
use rips.Parser.Pratt.{expr, declared}

-- `TypeValsFromNames`.
unfoldable pub type_val_of : String → Option TypeVal
type_val_of n =
    if str_eq n "int"
    then some tv_int
    else if str_eq n "float"
    then some tv_float
    else if str_eq n "bool"
    then some tv_bool
    else if str_eq n "string"
    then some tv_string
    else none

abbrev pub s_type_of : Bool → SType
s_type_of true = s_var
s_type_of false = s_const

module _ {F : Type 0} where
  -- A type that is written to a symbol of the innermost environment.
  abbrev pub typed_in : String → Ty → List (Symbol F) → List (Symbol F)
  typed_in n t [] = []
  typed_in n t (s ∷ e) =
      let rest = typed_in n t e in
      if str_eq s.name n then record s { data_type = t } ∷ e else s ∷ rest

  unfoldable pub typed : String → Ty → StkEnv F → StkEnv F
  typed n t [] = []
  typed n t (e ∷ es) = typed_in n t e ∷ es

  -- The two kinds of declarations with a value.
  abbrev pub new_of : Bool → String → TypeVal → StkEnv F → Made F
  new_of true n tv es = new_var n tv es
  new_of false n tv es = new_const n tv es

module _ {F S : Type 0} (fl : Floats F) (l : LexPeeker F S) where
  unfoldable pub set_envs : StkEnv F → P F S (Unit {0})
  set_envs es p = (done tt, record p { envs = es })

  -- `LevelDecls` behind the declaration of the name, with `more` for the levels that follow.
  abbrev pub resync_more : P F S (Unit {0}) → Option (Token F) → P F S (Unit {0})
  resync_more more none = return_err none
  resync_more more (some t) = more

  abbrev pub level_made : P F S (Unit {0}) → Token F → Made F → P F S (Unit {0})
  level_made more tok (made s es) = do
    set_envs (typed tok.lexema int_type es)
    t ← attempt (peek l)
    when (is_tok tok_soft t) (do skip l; write (add_level tok.lexema true))
        (write (add_level tok.lexema false))
    _ ← match_err l tok_semi
    more
  level_made more tok refused = do errorf; t ← next_sync l []; resync_more more t
  level_made more tok no_env = crash

  unfoldable pub declare_level : P F S (Unit {0}) → Token F → P F S (Unit {0})
  declare_level more tok p = level_made more tok (new_sym tok.lexema s_level p.envs) p

  abbrev pub level_of : P F S (Unit {0}) → Option (Option (Token F)) → P F S (Unit {0})
  level_of more none = do errorf; _ ← next_sync l []; more
  level_of more (some none) = pure tt
  level_of more (some (some tok)) = declare_level more tok

  -- `LevelDecls`, on fuel.
  unfoldable pub level_decls : ℕ → P F S (Unit {0})
  level_decls zero p = (stuck, p)
  level_decls (suc f) p = (do o ← attempt (match_tok l tok_id); level_of (level_decls f) o) p

  -- The rest of a declaration with a value, with `d` for its symbol: the expression and what is behind
  -- it. The value itself, which constant folding computes, is not kept in the symbol.
  abbrev pub after_bad_expr : P F S (Unit {0}) → Option (Token F) → P F S (Unit {0})
  after_bad_expr more none = return_err none
  after_bad_expr more (some t) = when (is_tok tok_semi (some t)) more (pure tt)

  unfoldable pub set_type : Symbol F → P F S (Unit {0})
  set_type s p = (done tt, record p { envs = typed s.name s.data_type p.envs })

  abbrev pub valued : P F S (Unit {0}) → Bool → Symbol F → Option (Expr F) → P F S (Unit {0})
  valued more in_env s none = do errorf; t ← next_sync l []; after_bad_expr more t
  valued more in_env s (some e) = do
    when in_env (set_type s) (pure tt)
    write (add_decl (record { l_val = s; r_val = e }))
    _ ← match_err l tok_semi
    more

  abbrev pub asig_end : ℕ → P F S (Unit {0}) → Bool → Symbol F → Option (Token F) → P F S (Unit {0})
  asig_end f more in_env s none = more
  asig_end f more in_env s (some t) = do e ← attempt (expr fl l f 0); valued more in_env s e

  abbrev pub with_type : TypeVal → Symbol F → Symbol F
  with_type tv s = record s { data_type = record univ_type { t_val = tv } }

  -- A name that is refused gives a symbol outside of the environments.
  abbrev pub name_made : ℕ → P F S (Unit {0}) → Bool → TypeVal → Made F → P F S (Unit {0})
  name_made f more var tv (made s es) = do
    set_envs es
    t ← match_err l tok_asig
    asig_end f more true (with_type tv s) t
  name_made f more var tv refused = do
    errorf
    t ← match_err l tok_asig
    asig_end f more false (with_type tv (blank "lit" (s_type_of var))) t
  name_made f more var tv no_env = crash

  unfoldable pub declare_value : ℕ → P F S (Unit {0}) → Bool → String → TypeVal → P F S (Unit {0})
  declare_value f more var n tv p = name_made f more var tv (new_of var n tv p.envs) p

  abbrev pub type_named : ℕ → P F S (Unit {0}) → Bool → String → Option TypeVal → P F S (Unit {0})
  type_named f more var n none = do errorf; declare_value f more var n tv_undef
  type_named f more var n (some tv) = declare_value f more var n tv

  -- A name without a type is declared, to give only one error.
  unfoldable pub declare_undef : Bool → String → P F S (Unit {0})
  declare_undef var n p = declared (new_of var n tv_undef p.envs) p

  abbrev pub type_end : ℕ → P F S (Unit {0}) → Bool → Token F → Option (Token F) → P F S (Unit {0})
  type_end f more var name none = do declare_undef var name.lexema; _ ← next_sync l []; more
  type_end f more var name (some t) = type_named f more var name.lexema (type_val_of t.lexema)

  -- Where there is no name. `bad` tells whether that was an error of the lexer.
  abbrev pub no_name : P F S (Unit {0}) → Bool → P F S (Unit {0})
  no_name more bad = do
    e ← is_end_section l
    when e (pure tt)
        do t ← next_sync l []; when (bad || is_tok tok_eof t) (fail unexpected_eof) more

  abbrev pub decl_of : ℕ → P F S (Unit {0}) → Bool → Option (Option (Token F)) → P F S (Unit {0})
  decl_of f more var none = no_name more true
  decl_of f more var (some none) = no_name more false
  decl_of f more var (some (some name)) = do t ← match_err l tok_id; type_end f more var name t

  -- `VarDecls` and `ConstDecls`, on fuel.
  unfoldable pub value_decls : ℕ → Bool → P F S (Unit {0})
  value_decls zero var p = (stuck, p)
  value_decls (suc f) var p =
      (do o ← attempt (match_tok l tok_id); decl_of f (value_decls f var) var o) p

  abbrev pub var_decls : ℕ → P F S (Unit {0})
  var_decls f = value_decls f true

  abbrev pub const_decls : ℕ → P F S (Unit {0})
  const_decls f = value_decls f false
