-- ===== src/Tree/Env/Unshadowed.antt =====
-- tree/sym.go: the rule that no variable, constant or function shadows another symbol.
use rips.Prelude.{
  ℕ, ◌+◌, ◌≤◌, ◌≡◌, refl, arith, Bool, true, false, if◌then◌else◌, str_eq, str_eq_iff, String,
  Option, none, some, [], ◌∷◌, ap₂,
}
use mathlib.Core.Path.{subst}
use rips.Tree.Env.{
  Symbol, Env, StkEnv, find, get_sym, new_var, new_const, new_func, place, insert, unless_found,
  or_else, Decl, var_decl, const_decl, func_decl, sym_decl, declare, after,
}

one_more :
    (b : Bool) (n m : String) (k : ℕ)
    → str_eq n m ≡ b
    → k ≤ 1
    → (str_eq n m ≡ true → k ≡ 0)
    → (if b then 1 else 0) + k ≤ 1
one_more true n m k e h z = omega (arith, z e)
one_more false n m k e h z = omega arith

-- The declarations that look their name up.
abbrev pub is_checked : Decl → Bool
is_checked (sym_decl n t) = false
is_checked _ = true

module _ {F : Type 0} where
  -- How often a name is declared.
  abbrev pub declared_in : String → Env F → ℕ
  declared_in n [] = 0
  declared_in n (s ∷ e) = (if str_eq s.name n then 1 else 0) + declared_in n e

  abbrev pub declared : String → StkEnv F → ℕ
  declared n [] = 0
  declared n (e ∷ es) = declared_in n e + declared n es

  -- No name is declared twice, in one environment or in two.
  abbrev pub Unshadowed : StkEnv F → Type 0
  Unshadowed es = (n : String) → declared n es ≤ 1

  find_step :
      (b : Bool) (s : Symbol F) (o : Option (Symbol F)) (k : ℕ)
      → (o ≡ none → k ≡ 0)
      → (if b then some s else o) ≡ none
      → (if b then 1 else 0) + k ≡ 0
  find_step true s o k h e = absurd cc
  find_step false s o k h e = omega (arith, h e)

  find-none : (n : String) (e : Env F) → find n e ≡ none → declared_in n e ≡ 0
  find-none n [] h = refl
  find-none n (s ∷ e) h =
      find_step (str_eq s.name n) s (find n e) (declared_in n e) (find-none n e) h

  get_step :
      (o o' : Option (Symbol F)) (j k : ℕ)
      → (o ≡ none → j ≡ 0)
      → (o' ≡ none → k ≡ 0)
      → or_else o o' ≡ none
      → j + k ≡ 0
  get_step none o' j k h h' e = ap₂ (λ x y. x + y) (h refl) (h' e)
  get_step (some s) o' j k h h' e = absurd cc

  get_sym-none : (n : String) (es : StkEnv F) → get_sym n es ≡ none → declared n es ≡ 0
  unfolding get_sym
  get_sym-none n [] h = refl
  get_sym-none n (e ∷ es) h =
      get_step (find n e) (get_sym n es) _ _ (find-none n e) (get_sym-none n es) h

  -- The test for the name, where it holds, is the premiss of `place` too.
  placed-Unshadowed :
      (o : Option (Symbol F)) (s : Symbol F) (e : Env F) (es : StkEnv F)
      → declared s.name (e ∷ es) ≡ 0
      → Unshadowed (e ∷ es)
      → Unshadowed (after (e ∷ es) (place o s e es))
  placed-Unshadowed (some old) s e es z u = u
  placed-Unshadowed none s e es z u = λ n.
      subst (λ k. k ≤ 1) (omega arith)
        (one_more (str_eq s.name n) s.name n (declared n (e ∷ es)) refl (u n)
          (λ i. subst (λ m. declared m (e ∷ es) ≡ 0) ((str_eq_iff s.name n).0 i) z))

  unless-Unshadowed :
      (s : Symbol F) (o : Option (Symbol F)) (es : StkEnv F)
      → get_sym s.name es ≡ o
      → Unshadowed es
      → Unshadowed (after es (unless_found o (insert s es)))
  unless-Unshadowed s (some old) es i u = u
  unless-Unshadowed s none [] i u = u
  unless-Unshadowed s none (e ∷ es) i u =
      placed-Unshadowed (find s.name e) s e es (get_sym-none s.name (e ∷ es) i) u

  -- The declaration of a variable, a constant or a function, where it succeeds and where it is refused,
  -- keeps every name declared at most once in all environments together.
  pub declare-Unshadowed :
      (d : Decl) (es : StkEnv F)
      → is_checked d ≡ true
      → Unshadowed es
      → Unshadowed (after es (declare d es))
  unfolding declare new_var new_const new_func
  declare-Unshadowed (var_decl n tv) es c u = unless-Unshadowed _ (get_sym n es) es refl u
  declare-Unshadowed (const_decl n tv) es c u = unless-Unshadowed _ (get_sym n es) es refl u
  declare-Unshadowed (func_decl n args ret variadic action) es c u =
      unless-Unshadowed _ (get_sym n es) es refl u
  declare-Unshadowed (sym_decl n t) es c u = absurd cc
