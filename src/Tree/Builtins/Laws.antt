-- ===== src/Tree/Builtins/Laws.antt =====
-- tree/builtins.go: the table of the builtins against what their functions read.
use rips.Prelude.{◌≡◌, refl, ◌⊎◌, inl, inr, true, String, List, [], ◌∷◌, length, arith}
use rips.Prelude.Result.{panic}
use rips.Extern.Host.{Host}
use rips.Tree.Sym.{Floats}
use rips.Tree.Eval.{Actual, lvalue, rvalue}
use rips.Tree.Builtins.World.{World, str_at, int_at}
use rips.Tree.Builtins.Table.{call_builtin, call_arity_ok}
use rips.Tree.Builtins.Fns.{service_fn}

module _ {F : Type 0} (fl : Floats F) (host : Host) where
  one_argument :
      (xs : List (Actual F)) (w : World F)
      → call_arity_ok fl host "service" (length xs) ≡ true
      → call_builtin fl host "service" xs w ≡ panic
  unfolding call_arity_ok call_builtin service_fn str_at
  one_argument [] w k = refl
  one_argument (lvalue n ∷ []) w k = refl
  one_argument (rvalue v ∷ []) w k = refl
  one_argument (a ∷ b ∷ rest) w k = ground arith

  two_arguments :
      (xs : List (Actual F)) (w : World F)
      → call_arity_ok fl host "servicecount" (length xs) ≡ true
      → call_builtin fl host "servicecount" xs w ≡ panic
  unfolding call_arity_ok call_builtin service_fn str_at int_at
  two_arguments [] w k = refl
  two_arguments (lvalue n ∷ rest) w k = refl
  two_arguments (rvalue v ∷ []) w k = refl
  two_arguments (rvalue v ∷ lvalue n ∷ rest) w k = refl
  two_arguments (rvalue v ∷ rvalue u ∷ []) w k = refl
  two_arguments (rvalue v ∷ rvalue u ∷ b ∷ rest) w k = ground arith

  -- A call of `service` or of `servicecount` with a number of arguments that the type checker
  -- accepts always ends in a panic: the table lists one parameter too few for each.
  pub service_arity :
      (name : String) (xs : List (Actual F)) (w : World F)
      → (name ≡ "service") ⊎ (name ≡ "servicecount")
      → call_arity_ok fl host name (length xs) ≡ true
      → call_builtin fl host name xs w ≡ panic
  service_arity name xs w (inl e) k = rw e (one_argument xs w (rw e at k))
  service_arity name xs w (inr e) k = rw e (two_arguments xs w (rw e at k))
