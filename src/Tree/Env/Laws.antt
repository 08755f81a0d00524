-- ===== src/Tree/Env/Laws.antt =====
-- tree/sym.go: scopes, and what a name stands for behind a declaration.
use rips.Prelude.{
  ◌≡◌, refl, Bool, true, false, if◌then◌else◌, str_eq, String, Option, none, some, List, [], ◌∷◌,
  ◌≢◌, sym,
}
use mathlib.Core.Path.{subst}
use rips.Prelude.Result.{ok}
use rips.Tree.Env.{
  Symbol, Env, StkEnv, Made, made, refused, no_env, push_env, pop_env, find, get_sym, new_sym,
  new_var, new_const, new_func, place, insert, insert_new, unless_found, or_else, Decl, var_decl,
  const_decl, func_decl, sym_decl, declare, declare_all, after,
}

abbrev pub decl_name : Decl → String
decl_name (var_decl n tv) = n
decl_name (const_decl n tv) = n
decl_name (func_decl n args ret variadic action) = n
decl_name (sym_decl n t) = n

module _ {F : Type 0} where
  -- A stack of which all but the innermost environment is the one given.
  abbrev Above : StkEnv F → StkEnv F → Type 0
  Above es es' = (e : Env F) × (es' ≡ e ∷ es)

  place-Above :
      (o : Option (Symbol F)) (s : Symbol F) (e : Env F) (es : StkEnv F)
      → Above es (after (e ∷ es) (place o s e es))
  place-Above none s e es = (s ∷ e, refl)
  place-Above (some old) s e es = (e, refl)

  unless-Above :
      (o : Option (Symbol F)) (m : Made F) (e : Env F) (es : StkEnv F)
      → Above es (after (e ∷ es) m)
      → Above es (after (e ∷ es) (unless_found o m))
  unless-Above none m e es h = h
  unless-Above (some s) m e es h = (e, refl)

  new-Above :
      (s : Symbol F) (e : Env F) (es : StkEnv F) → Above es (after (e ∷ es) (insert_new s (e ∷ es)))
  new-Above s e es =
      unless-Above (get_sym s.name (e ∷ es)) _ e es (place-Above (find s.name e) s e es)

  declare-Above :
      (d : Decl) (e : Env F) (es : StkEnv F) → Above es (after (e ∷ es) (declare d (e ∷ es)))
  unfolding declare new_var new_const new_func new_sym
  declare-Above (var_decl n tv) e es = new-Above _ e es
  declare-Above (const_decl n tv) e es = new-Above _ e es
  declare-Above (func_decl n args ret variadic action) e es = new-Above _ e es
  declare-Above (sym_decl n t) e es = place-Above (find n e) _ e es

  declare_all-Above :
      (ds : List Decl) (e : Env F) (es : StkEnv F) → Above es (declare_all ds (e ∷ es))
  unfolding declare_all
  declare_all-Above [] e es = (e, refl)
  declare_all-Above (d ∷ ds) e es =
      let (e', h) = declare-Above d e es in
      subst (λ x. Above es (declare_all ds x)) (sym h) (declare_all-Above ds e' es)

  pop-Above : (es es' : StkEnv F) (e : Env F) → Above (e ∷ es) es' → pop_env es' ≡ ok (e ∷ es)
  unfolding pop_env
  pop-Above es es' e (e', h) = subst (λ x. pop_env x ≡ ok (e ∷ es)) (sym h) refl

  -- Whatever is declared in a scope, and whichever of the declarations are refused, the end of the scope
  -- gives back the stack from before it, provided that this had an environment.
  pub pop_env-push_env :
      (ds : List Decl) (e : Env F) (es : StkEnv F)
      → pop_env (declare_all ds (push_env (e ∷ es))) ≡ ok (e ∷ es)
  unfolding push_env
  pop_env-push_env ds e es =
      pop-Above es (declare_all ds ([] ∷ e ∷ es)) e (declare_all-Above ds [] (e ∷ es))

  -- The symbol that a name stands for behind a declaration: the new one for its own name, and for the
  -- others what it was. A refused name was taken, and without an environment there is a panic.
  abbrev pub Finds : String → String → StkEnv F → Made F → Type 0
  Finds n m es (made s es') = get_sym m es' ≡ (if str_eq n m then some s else get_sym m es)
  Finds n m es refused = get_sym n es ≢ none
  Finds n m es no_env = es ≡ []

  or_else_if :
      (b : Bool) (s : Symbol F) (o o' : Option (Symbol F))
      → or_else (if b then some s else o) o' ≡ (if b then some s else or_else o o')
  or_else_if true s o o' = refl
  or_else_if false s o o' = refl

  place-Finds :
      (o : Option (Symbol F)) (s : Symbol F) (m : String) (e : Env F) (es : StkEnv F)
      → find s.name e ≡ o
      → Finds s.name m (e ∷ es) (place o s e es)
  unfolding get_sym
  place-Finds none s m e es i = or_else_if (str_eq s.name m) s (find m e) (get_sym m es)
  place-Finds (some old) s m e es i = λ h. cc

  unless-Finds :
      (o : Option (Symbol F)) (s : Symbol F) (m : String) (es : StkEnv F)
      → get_sym s.name es ≡ o
      → Finds s.name m es (unless_found o (insert s es))
  unless-Finds (some old) s m es i = λ h. cc
  unless-Finds none s m [] i = refl
  unless-Finds none s m (e ∷ es) i = place-Finds (find s.name e) s m e es refl

  -- Behind a declaration its own name stands for the new symbol, and every other name for what it stood
  -- for before. A declaration is refused only where its name stands for a symbol already, and panics only
  -- where there is no environment.
  pub declare-Finds :
      (d : Decl) (m : String) (es : StkEnv F) → Finds (decl_name d) m es (declare d es)
  unfolding declare new_var new_const new_func new_sym
  declare-Finds (var_decl n tv) m es = unless-Finds (get_sym n es) _ m es refl
  declare-Finds (const_decl n tv) m es = unless-Finds (get_sym n es) _ m es refl
  declare-Finds (func_decl n args ret variadic action) m es =
      unless-Finds (get_sym n es) _ m es refl
  declare-Finds (sym_decl n t) m [] = refl
  declare-Finds (sym_decl n t) m (e ∷ es) = place-Finds (find n e) _ m e es refl
