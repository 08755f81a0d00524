-- ===== src/Parser/Balanced/Envs.antt =====
-- tree/sym.go: declarations keep the number of environments.
use rips.Prelude.{
  ℕ, zero, suc, ◌≡◌, refl, ap, Bool, true, false, if◌then◌else◌, String, Option, none, some, [],
  ◌∷◌,
}
use rips.Types.{TypeVal}
use rips.Tree.Sym.{SType}
use rips.Tree.Env.{
  Symbol, Env, StkEnv, Made, made, refused, no_env, find, get_sym, place, insert, unless_found,
  new_sym, new_const, new_var,
}
use rips.Parser.Tree.{count}

module _ {F : Type 0} where
  -- From a number of environments: a declaration needs one.
  abbrev pub Grown : ℕ → Made F → Type 0
  Grown n (made s es) = count es ≡ n
  Grown n refused = Unit {0}
  Grown zero no_env = Unit {0}
  Grown (suc n) no_env = ⊥

  place-Grown :
      (o : Option (Symbol F)) (s : Symbol F) (e : Env F) (es : StkEnv F)
      → Grown (suc (count es)) (place o s e es)
  place-Grown none s e es = refl
  place-Grown (some x) s e es = tt

  insert-Grown : (s : Symbol F) (es : StkEnv F) → Grown (count es) (insert s es)
  insert-Grown s [] = tt
  insert-Grown s (e ∷ es) = place-Grown (find s.name e) s e es

  unless-Grown :
      (o : Option (Symbol F)) (n : ℕ) (m : Made F) → Grown n m → Grown n (unless_found o m)
  unless-Grown none n m h = h
  unless-Grown (some s) n m h = tt

  pub new_sym-Grown : (n : String) (t : SType) (es : StkEnv F) → Grown (count es) (new_sym n t es)
  unfolding new_sym
  new_sym-Grown n t es = insert-Grown _ es

  pub new_const-Grown :
      (n : String) (t : TypeVal) (es : StkEnv F) → Grown (count es) (new_const n t es)
  unfolding new_const
  new_const-Grown n t es = unless-Grown (get_sym n es) _ _ (insert-Grown _ es)

  pub new_var-Grown : (n : String) (t : TypeVal) (es : StkEnv F) → Grown (count es) (new_var n t es)
  unfolding new_var
  new_var-Grown n t es = unless-Grown (get_sym n es) _ _ (insert-Grown _ es)

  pub if-count :
      (b : Bool) (e e' : Env F) (rest es : StkEnv F)
      → count rest ≡ count es
      → count (if b then e ∷ rest else e' ∷ es) ≡ suc (count es)
  if-count true e e' rest es h = ap suc h
  if-count false e e' rest es h = refl
