-- ===== src/Tree/Builtins/Tests.antt =====
-- tree/builtins.go: the theorems at calls of `service` and `signal` with one text.
use rips.Prelude.{ℕ, ◌≡◌, refl, inl, true, false, Option, List, [], ◌∷◌, length}
use rips.Prelude.Result.{ok, panic}
use rips.Tree.Sym.{new_string, new_bool}
use rips.Tree.Eval.{Actual, rvalue}
use rips.Tree.Builtins.World.{World, str_at}
use rips.Tree.Builtins.Table.{Builtin, builtins, find_builtin, call_builtin, call_arity_ok}
use rips.Tree.Builtins.Laws.{service_arity}
use rips.Tree.Builtins.Returns.{call_builtin-ret_type}
use rips.Tree.Builtins.Fns as Fns
use rips.Types.{bool_type, external_str_type}
use rips.Extern.Expr.{signal}
use rips.Fixtures.{sample_floats, willing_host, running_ctx}

abbrev world : World (Option ℕ)
world = record { vars = []; curr_level = new_string sample_floats "DEFAULT"; ctx = running_ctx }

abbrev one_text : List (Actual (Option ℕ))
one_text = rvalue (new_string sample_floats "/cam") ∷ []

one_text_is_accepted : call_arity_ok sample_floats willing_host "service" (length one_text) ≡ true
unfolding call_arity_ok
one_text_is_accepted = refl

service_arity_example : call_builtin sample_floats willing_host "service" one_text world ≡ panic
service_arity_example =
    service_arity sample_floats willing_host "service" one_text world (inl refl)
      one_text_is_accepted

abbrev signal_entry : Builtin (Option ℕ)
signal_entry = record {
  name = "signal";
  ret_type = bool_type;
  arg_types = external_str_type ∷ [];
  is_variadic = false;
  is_action = false;
  fn = Fns.signal_fn sample_floats willing_host;
}

abbrev usr1_text : List (Actual (Option ℕ))
usr1_text = rvalue (new_string sample_floats "SIGUSR1") ∷ []

abbrev world_after : World (Option ℕ)
world_after = record world { ctx = record running_ctx { nusr1 = 0 } }

signal_is_found :
    find_builtin "signal" (builtins sample_floats willing_host) ≡ Option.some signal_entry
unfolding find_builtin builtins
signal_is_found = refl

signal_is_answered :
    call_builtin sample_floats willing_host "signal" usr1_text world
    ≡ ok (new_bool sample_floats true, world_after)
unfolding call_builtin Fns.signal_fn signal str_at new_string
signal_is_answered = refl

call_builtin-ret_type_example : (new_bool sample_floats true).data_type ≡ bool_type
call_builtin-ret_type_example =
    call_builtin-ret_type sample_floats willing_host "signal" signal_entry usr1_text world
      (new_bool sample_floats true) world_after signal_is_found signal_is_answered
