-- ===== src/Tree/Builtins/Returns.antt =====
-- tree/builtins.go: the type that the table gives for the result of a builtin is the type of every
-- value that its function returns.
use rips.Prelude.{ℕ, ◌≡◌, refl, Bool, true, false, String, some, List, [], ◌∷◌, All}
use rips.Prelude.Result.{Result, ok, fatal, panic, ◌>>=◌}
use rips.Types.{Ty, bool_type, string_type}
use rips.Extern.Host.{Host}
use rips.Extern.Ctx.{Ctx}
use rips.Extern.Expr as Expr
use rips.Tree.Levels.{level_name}
use rips.Tree.Sym.{Floats, Val, new_bool, new_string}
use rips.Tree.Eval.{Actual, lvalue, rvalue}
use rips.Tree.Builtins.World.{
  World, BuiltinFn, answer, str_at, int_at, arg_at, var_args, var_args_from_one,
}
use rips.Tree.Builtins.Fns as Fns
use rips.Tree.Builtins.Every.{◌&◌, All-builtins, find_builtin-All, call_builtin-find_builtin}
use rips.Tree.Builtins.Table.{
  Builtin, builtins, find_builtin, call_builtin, action_builtins, msg_builtins, graph_builtins,
  other_builtins,
}

module _ {F : Type 0} (fl : Floats F) (host : Host) where
  -- A value that is returned has the type.
  abbrev Typed : Ty → Result (Val F × World F) → Type 0
  Typed t (ok (v, w)) = v.data_type ≡ t
  Typed t fatal = Unit
  Typed t panic = Unit

  abbrev Returns : Ty → BuiltinFn F → Type 0
  Returns t f = (xs : List (Actual F)) (w : World F) → Typed t (f xs w)

  value-Typed :
      (t : Ty) (r : Result (Val F × World F)) (v : Val F) (w : World F)
      → Typed t r
      → r ≡ ok (v, w)
      → v.data_type ≡ t
  value-Typed t r v w h e = rw e at h

  new_bool-bool_type : (b : Bool) → (new_bool fl b).data_type ≡ bool_type
  unfolding new_bool
  new_bool-bool_type b = refl

  new_string-string_type : (s : String) → (new_string fl s).data_type ≡ string_type
  unfolding new_string
  new_string-string_type s = refl

  read-Typed :
      {A : Type 0} (t : Ty) (r : Result A) (f : A → Result (Val F × World F))
      → ((a : A) → Typed t (f a))
      → Typed t (r >>= f)
  read-Typed t (ok a) f h = h a
  read-Typed t fatal f h = tt
  read-Typed t panic f h = tt

  answer-Typed : (w : World F) (r : Result Bool) → Typed bool_type (answer fl w r)
  answer-Typed w r = read-Typed bool_type r _ (λ b. new_bool-bool_type b)

  -- The eleven functions that no scheme below covers.
  set-Returns : Returns bool_type (Fns.set_fn fl host)
  unfolding Fns.set_fn
  set-Returns (lvalue n ∷ rvalue v ∷ rest) w = new_bool-bool_type true
  set-Returns [] w = tt
  set-Returns (lvalue n ∷ []) w = tt
  set-Returns (lvalue n ∷ lvalue v ∷ rest) w = tt
  set-Returns (rvalue n ∷ rest) w = tt

  trigger-Returns : Returns bool_type (Fns.trigger_fn fl host)
  unfolding Fns.trigger_fn
  trigger-Returns (lvalue cur ∷ rvalue to ∷ rest) w = new_bool-bool_type _
  trigger-Returns [] w = tt
  trigger-Returns (lvalue n ∷ []) w = tt
  trigger-Returns (lvalue n ∷ lvalue v ∷ rest) w = tt
  trigger-Returns (rvalue n ∷ rest) w = tt

  alert-Returns : Returns bool_type (Fns.alert_fn fl host)
  unfolding Fns.alert_fn
  alert-Returns xs w = read-Typed bool_type (str_at 0 xs) _ (λ a. new_bool-bool_type _)

  exec-Returns : Returns bool_type (Fns.exec_fn fl host)
  unfolding Fns.exec_fn
  exec-Returns xs w =
      read-Typed bool_type (str_at 0 xs) _
        (λ a. read-Typed bool_type (var_args_from_one xs) _ (λ rest. new_bool-bool_type _))

  true-Returns : Returns bool_type (Fns.true_fn fl host)
  unfolding Fns.true_fn
  true-Returns xs w = new_bool-bool_type true

  false-Returns : Returns bool_type (Fns.false_fn fl host)
  unfolding Fns.false_fn
  false-Returns xs w = new_bool-bool_type false

  crash-Returns : Returns bool_type (Fns.crash_fn fl host)
  unfolding Fns.crash_fn
  crash-Returns xs w = read-Typed bool_type (str_at 0 xs) _ (λ a. tt)

  signal-Returns : Returns bool_type (Fns.signal_fn fl host)
  unfolding Fns.signal_fn
  signal-Returns xs w = read-Typed bool_type (str_at 0 xs) _ (λ a. new_bool-bool_type _)

  ids_alert-Returns : Returns bool_type (Fns.ids_alert_fn fl host)
  unfolding Fns.ids_alert_fn
  ids_alert-Returns xs w =
      read-Typed bool_type (str_at 0 xs) _ (λ a. answer-Typed w (ok (Expr.ids_alert host w.ctx a)))

  payload-Returns : Returns bool_type (Fns.payload_fn fl host)
  unfolding Fns.payload_fn
  payload-Returns xs w = read-Typed bool_type (arg_at 0 xs) _ (λ a. answer-Typed w _)

  string-Returns : Returns string_type (Fns.string_fn fl host)
  unfolding Fns.string_fn
  string-Returns xs w = read-Typed string_type (arg_at 0 xs) _ (λ a. new_string-string_type _)

  level_name-Returns : Returns string_type (Fns.level_name_fn fl host)
  unfolding Fns.level_name_fn
  level_name-Returns xs w =
      read-Typed string_type (int_at 0 xs) _
        (λ n. read-Typed string_type (level_name w.ctx _) _ (λ s. new_string-string_type s))

  two_strs-Returns :
      (f : Ctx → String → String → Result Bool)
      → Returns bool_type
          (λ xs w. str_at 0 xs >>= λ a. str_at 1 xs >>= λ b. answer fl w (f w.ctx a b))
  two_strs-Returns f xs w =
      read-Typed bool_type (str_at 0 xs) _
        (λ a. read-Typed bool_type (str_at 1 xs) _ (λ b. answer-Typed w (f w.ctx a b)))

  msg_subtype-Returns : Returns bool_type (Fns.msg_subtype_fn fl host)
  unfolding Fns.msg_subtype_fn
  msg_subtype-Returns = two_strs-Returns Expr.msg_subtype

  service-Returns : Returns bool_type (Fns.service_fn fl host)
  unfolding Fns.service_fn
  service-Returns = two_strs-Returns Expr.service

  of_str-Returns : (f : Ctx → String → Result Bool) → Returns bool_type (Fns.of_str fl host f)
  of_str-Returns f xs w = read-Typed bool_type (str_at 0 xs) _ (λ a. answer-Typed w (f w.ctx a))

  of_range-Returns : (f : Ctx → ℕ → ℕ → Result Bool) → Returns bool_type (Fns.of_range fl host f)
  of_range-Returns f xs w =
      read-Typed bool_type (int_at 0 xs) _
        (λ a. read-Typed bool_type (int_at 1 xs) _ (λ b. answer-Typed w (f w.ctx a b)))

  of_str_range-Returns :
      (f : Ctx → String → ℕ → ℕ → Result Bool) → Returns bool_type (Fns.of_str_range fl host f)
  of_str_range-Returns f xs w = read-Typed bool_type (str_at 0 xs) _ (λ s.
      read-Typed bool_type (int_at 1 xs) _
        (λ a. read-Typed bool_type (int_at 2 xs) _ (λ b. answer-Typed w (f w.ctx s a b))))

  of_strs-Returns :
      (f : Ctx → List String → Result Bool) → Returns bool_type (Fns.of_strs fl host f)
  of_strs-Returns f xs w = answer-Typed w (f w.ctx (var_args xs))

  of_str_strs-Returns :
      (f : Ctx → String → List String → Result Bool) → Returns bool_type (Fns.of_str_strs fl host f)
  of_str_strs-Returns f xs w =
      read-Typed bool_type (str_at 0 xs) _ (λ s.
        read-Typed bool_type (var_args_from_one xs) _ (λ rest. answer-Typed w (f w.ctx s rest)))

  -- Every entry of a table returns what it says.
  abbrev AllReturn : List (Builtin F) → Type 0
  AllReturn = All (λ b. Returns b.ret_type b.fn)

  action_builtins-AllReturn : AllReturn (action_builtins fl host)
  unfolding action_builtins
  action_builtins-AllReturn =
      set-Returns & trigger-Returns & alert-Returns & exec-Returns & true-Returns & false-Returns
      & crash-Returns & tt

  msg_builtins-AllReturn : AllReturn (msg_builtins fl host)
  unfolding msg_builtins
  msg_builtins-AllReturn =
      msg_subtype-Returns
      & of_strs-Returns Expr.msg_type_in
      & payload-Returns
      & of_str-Returns (Expr.plugin host)
      & of_range-Returns Expr.publisher_count
      & of_strs-Returns Expr.publishers
      & of_strs-Returns Expr.publishers_include
      & of_range-Returns Expr.subscriber_count
      & of_strs-Returns Expr.subscribers
      & of_strs-Returns Expr.subscribers_include
      & of_strs-Returns Expr.topic_in
      & of_str-Returns (Expr.topic_matches host)
      & tt

  graph_builtins-AllReturn : AllReturn (graph_builtins fl host)
  unfolding graph_builtins
  graph_builtins-AllReturn =
      of_range-Returns Expr.node_count
      & of_strs-Returns Expr.nodes
      & of_strs-Returns Expr.nodes_include
      & service-Returns
      & of_str_range-Returns Expr.service_count
      & of_str_strs-Returns Expr.services
      & of_str_strs-Returns Expr.services_include
      & of_range-Returns Expr.topic_count
      & of_str_range-Returns Expr.topic_publisher_count
      & of_str_strs-Returns Expr.topic_publishers
      & of_str_strs-Returns Expr.topic_publishers_include
      & of_strs-Returns Expr.topics
      & of_strs-Returns Expr.topics_include
      & of_str_range-Returns Expr.topic_subscriber_count
      & of_str_strs-Returns Expr.topic_subscribers
      & of_str_strs-Returns Expr.topic_subscribers_include
      & tt

  other_builtins-AllReturn : AllReturn (other_builtins fl host)
  unfolding other_builtins
  other_builtins-AllReturn =
      signal-Returns & ids_alert-Returns & level_name-Returns & string-Returns & tt

  builtins-AllReturn : AllReturn (builtins fl host)
  builtins-AllReturn =
      All-builtins fl host (λ b. Returns b.ret_type b.fn) action_builtins-AllReturn
        msg_builtins-AllReturn graph_builtins-AllReturn other_builtins-AllReturn

  -- Whatever its arguments, a call of a builtin that returns a value returns one of the type that the
  -- table of the builtins gives for its result.
  pub call_builtin-ret_type :
      (n : String) (b : Builtin F) (xs : List (Actual F)) (w : World F) (v : Val F) (w' : World F)
      → find_builtin n (builtins fl host) ≡ some b
      → call_builtin fl host n xs w ≡ ok (v, w')
      → v.data_type ≡ b.ret_type
  call_builtin-ret_type n b xs w v w' e h =
      let typed =
        find_builtin-All fl host (λ c. Returns c.ret_type c.fn) n (builtins fl host) b
          builtins-AllReturn e xs w in
      value-Typed b.ret_type (b.fn xs w) v w' typed
        (rw (call_builtin-find_builtin fl host (λ c. Unit) n b xs w e) at h)
