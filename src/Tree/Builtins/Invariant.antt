-- ===== src/Tree/Builtins/Invariant.antt =====
-- tree/builtins.go: a property of the context that the four operations which write to the context keep
-- (`alert`, `exec`, `signal` and `trigger`) is kept by every builtin.
use rips.Prelude.{
  refl, Option, none, some, ℕ, ◌≡◌, Bool, String, none, some, List, [], ◌∷◌, arith, All,
}
use rips.Prelude.Int.{ℤ}
use rips.Prelude.Result.{Result, ok, fatal, panic, ◌>>=◌}
use rips.Extern.Host.{Host}
use rips.Extern.Ctx.{Ctx}
use rips.Extern.Trigger.{alert, exec, trigger}
use rips.Extern.Expr as Expr
use rips.Tree.Levels.{level_name, Level, Engine, trigger_level}
use rips.Tree.Sym.{Floats, Val}
use rips.Tree.Eval.{Actual, lvalue, rvalue}
use rips.Tree.Eval.Invariant.{Ends}
use rips.Tree.Builtins.World.{
  World, BuiltinFn, answer, set_val, str_at, int_at, arg_at, var_args, var_args_from_one,
}
use rips.Tree.Builtins.Fns as Fns
use rips.Tree.Builtins.Every.{◌&◌, All-builtins, find_builtin-All}
use rips.Tree.Builtins.Table.{
  Builtin, builtins, find_builtin, call_builtin, action_builtins, msg_builtins, graph_builtins,
  other_builtins,
}

module _ {F : Type 0} (fl : Floats F) (host : Host) (J : Ctx → Type 0)
    (alert-J : (c : Ctx) (msg : String) → J c → J (alert c msg).0)
    (exec-J : (c : Ctx) (path : String) (arguments : List String)
      → J c
      → J (exec host c path arguments).0)
    (signal-J : (c : Ctx) (sig : String) → J c → J (Expr.signal c sig).0)
    (trigger-J : (c : Ctx) (levelto : String) (levelidto : ℤ) (levelfrom : String) (levelidfrom : ℤ)
        (fromsoft : Bool)
      → J c
      → J (trigger host c levelto levelidto levelfrom levelidfrom fromsoft).0) where
  -- The property of the context of a state.
  abbrev pub InCtx : World F → Type 0
  InCtx w = J w.ctx

  -- The function keeps the property.
  abbrev Keeps : BuiltinFn F → Type 0
  Keeps f = (xs : List (Actual F)) (w : World F) → InCtx w → Ends InCtx (f xs w)

  -- An argument is read, and the state stays.
  read-Keeps :
      {A : Type 0} (r : Result A) (w : World F) (f : A → Result (Val F × World F))
      → ((a : A) → Ends InCtx (f a))
      → Ends InCtx (r >>= f)
  read-Keeps (ok a) w f h = h a
  read-Keeps fatal w f h = tt
  read-Keeps panic w f h = tt

  answer-Keeps : (w : World F) (r : Result Bool) → InCtx w → Ends InCtx (answer fl w r)
  answer-Keeps w (ok b) i = i
  answer-Keeps w fatal i = tt
  answer-Keeps w panic i = tt

  set_val-ctx : (n : String) (v : Val F) (w : World F) → (set_val n v w).ctx ≡ w.ctx
  unfolding set_val
  set_val-ctx n v w = ground arith

  set-Keeps : Keeps (Fns.set_fn fl host)
  unfolding Fns.set_fn
  set-Keeps (lvalue n ∷ rvalue v ∷ rest) w i = rw (set_val-ctx n v w) i
  set-Keeps [] w i = tt
  set-Keeps (lvalue n ∷ []) w i = tt
  set-Keeps (lvalue n ∷ lvalue v ∷ rest) w i = tt
  set-Keeps (rvalue n ∷ rest) w i = tt

  trigger_level-ctx :
      (e : Engine) (to : Level)
      → (trigger_level host e to).0.ctx
        ≡ (trigger host e.ctx to.name to.slevel e.level.name e.level.slevel e.level.is_soft).0
  unfolding trigger_level
  trigger_level-ctx e to = ground arith

  trigger-Keeps : Keeps (Fns.trigger_fn fl host)
  unfolding Fns.trigger_fn
  trigger-Keeps (lvalue cur ∷ rvalue to ∷ rest) w i =
      rw (trigger_level-ctx _ _) (trigger-J w.ctx _ _ _ _ _ i)
  trigger-Keeps [] w i = tt
  trigger-Keeps (lvalue n ∷ []) w i = tt
  trigger-Keeps (lvalue n ∷ lvalue v ∷ rest) w i = tt
  trigger-Keeps (rvalue n ∷ rest) w i = tt

  of_str-Keeps : (f : Ctx → String → Result Bool) → Keeps (Fns.of_str fl host f)
  of_str-Keeps f xs w i = read-Keeps (str_at 0 xs) w _ (λ a. answer-Keeps w (f w.ctx a) i)

  of_range-Keeps : (f : Ctx → ℕ → ℕ → Result Bool) → Keeps (Fns.of_range fl host f)
  of_range-Keeps f xs w i =
      read-Keeps (int_at 0 xs) w _
        (λ a. read-Keeps (int_at 1 xs) w _ (λ b. answer-Keeps w (f w.ctx a b) i))

  of_str_range-Keeps : (f : Ctx → String → ℕ → ℕ → Result Bool) → Keeps (Fns.of_str_range fl host f)
  of_str_range-Keeps f xs w i = read-Keeps (str_at 0 xs) w _ (λ s.
      read-Keeps (int_at 1 xs) w _
        (λ a. read-Keeps (int_at 2 xs) w _ (λ b. answer-Keeps w (f w.ctx s a b) i)))

  of_strs-Keeps : (f : Ctx → List String → Result Bool) → Keeps (Fns.of_strs fl host f)
  of_strs-Keeps f xs w i = answer-Keeps w (f w.ctx (var_args xs)) i

  of_str_strs-Keeps :
      (f : Ctx → String → List String → Result Bool) → Keeps (Fns.of_str_strs fl host f)
  of_str_strs-Keeps f xs w i =
      read-Keeps (str_at 0 xs) w _
        (λ s. read-Keeps (var_args_from_one xs) w _ (λ rest. answer-Keeps w (f w.ctx s rest) i))

  two_strs-Keeps :
      (f : Ctx → String → String → Result Bool) (xs : List (Actual F)) (w : World F)
      → InCtx w
      → Ends InCtx (str_at 0 xs >>= λ a. str_at 1 xs >>= λ b. answer fl w (f w.ctx a b))
  two_strs-Keeps f xs w i =
      read-Keeps (str_at 0 xs) w _
        (λ a. read-Keeps (str_at 1 xs) w _ (λ b. answer-Keeps w (f w.ctx a b) i))

  msg_subtype-Keeps : Keeps (Fns.msg_subtype_fn fl host)
  unfolding Fns.msg_subtype_fn
  msg_subtype-Keeps = two_strs-Keeps Expr.msg_subtype

  service-Keeps : Keeps (Fns.service_fn fl host)
  unfolding Fns.service_fn
  service-Keeps = two_strs-Keeps Expr.service

  payload-Keeps : Keeps (Fns.payload_fn fl host)
  unfolding Fns.payload_fn
  payload-Keeps xs w i = read-Keeps (arg_at 0 xs) w _ (λ a. answer-Keeps w _ i)

  signal-Keeps : Keeps (Fns.signal_fn fl host)
  unfolding Fns.signal_fn
  signal-Keeps xs w i = read-Keeps (str_at 0 xs) w _ (λ a. signal-J w.ctx a i)

  alert-Keeps : Keeps (Fns.alert_fn fl host)
  unfolding Fns.alert_fn
  alert-Keeps xs w i = read-Keeps (str_at 0 xs) w _ (λ a. alert-J w.ctx a i)

  exec-Keeps : Keeps (Fns.exec_fn fl host)
  unfolding Fns.exec_fn
  exec-Keeps xs w i =
      read-Keeps (str_at 0 xs) w _
        (λ a. read-Keeps (var_args_from_one xs) w _ (λ rest. exec-J w.ctx a rest i))

  ids_alert-Keeps : Keeps (Fns.ids_alert_fn fl host)
  unfolding Fns.ids_alert_fn
  ids_alert-Keeps xs w i = read-Keeps (str_at 0 xs) w _ (λ a. i)

  true-Keeps : Keeps (Fns.true_fn fl host)
  unfolding Fns.true_fn
  true-Keeps xs w i = i

  false-Keeps : Keeps (Fns.false_fn fl host)
  unfolding Fns.false_fn
  false-Keeps xs w i = i

  crash-Keeps : Keeps (Fns.crash_fn fl host)
  unfolding Fns.crash_fn
  crash-Keeps xs w i = read-Keeps (str_at 0 xs) w _ (λ a. tt)

  string-Keeps : Keeps (Fns.string_fn fl host)
  unfolding Fns.string_fn
  string-Keeps xs w i = read-Keeps (arg_at 0 xs) w _ (λ a. i)

  level_name-Keeps : Keeps (Fns.level_name_fn fl host)
  unfolding Fns.level_name_fn
  level_name-Keeps xs w i =
      read-Keeps (int_at 0 xs) w _ (λ n. read-Keeps (level_name w.ctx _) w _ (λ s. i))

  -- Every function of the table.
  abbrev AllKeep : List (Builtin F) → Type 0
  AllKeep = All (λ b. Keeps b.fn)

  action_builtins-AllKeep : AllKeep (action_builtins fl host)
  unfolding action_builtins
  action_builtins-AllKeep =
      set-Keeps & trigger-Keeps & alert-Keeps & exec-Keeps & true-Keeps & false-Keeps & crash-Keeps
      & tt

  msg_builtins-AllKeep : AllKeep (msg_builtins fl host)
  unfolding msg_builtins
  msg_builtins-AllKeep =
      msg_subtype-Keeps
      & of_strs-Keeps Expr.msg_type_in
      & payload-Keeps
      & of_str-Keeps (Expr.plugin host)
      & of_range-Keeps Expr.publisher_count
      & of_strs-Keeps Expr.publishers
      & of_strs-Keeps Expr.publishers_include
      & of_range-Keeps Expr.subscriber_count
      & of_strs-Keeps Expr.subscribers
      & of_strs-Keeps Expr.subscribers_include
      & of_strs-Keeps Expr.topic_in
      & of_str-Keeps (Expr.topic_matches host)
      & tt

  graph_builtins-AllKeep : AllKeep (graph_builtins fl host)
  unfolding graph_builtins
  graph_builtins-AllKeep =
      of_range-Keeps Expr.node_count
      & of_strs-Keeps Expr.nodes
      & of_strs-Keeps Expr.nodes_include
      & service-Keeps
      & of_str_range-Keeps Expr.service_count
      & of_str_strs-Keeps Expr.services
      & of_str_strs-Keeps Expr.services_include
      & of_range-Keeps Expr.topic_count
      & of_str_range-Keeps Expr.topic_publisher_count
      & of_str_strs-Keeps Expr.topic_publishers
      & of_str_strs-Keeps Expr.topic_publishers_include
      & of_strs-Keeps Expr.topics
      & of_strs-Keeps Expr.topics_include
      & of_str_range-Keeps Expr.topic_subscriber_count
      & of_str_strs-Keeps Expr.topic_subscribers
      & of_str_strs-Keeps Expr.topic_subscribers_include
      & tt

  other_builtins-AllKeep : AllKeep (other_builtins fl host)
  unfolding other_builtins
  other_builtins-AllKeep = signal-Keeps & ids_alert-Keeps & level_name-Keeps & string-Keeps & tt

  builtins-AllKeep : AllKeep (builtins fl host)
  builtins-AllKeep =
      All-builtins fl host (λ b. Keeps b.fn) action_builtins-AllKeep msg_builtins-AllKeep
        graph_builtins-AllKeep other_builtins-AllKeep

  call-Ends :
      (n : String) (o : Option (Builtin F))
      → find_builtin n (builtins fl host) ≡ o
      → Keeps (λ xs w. elim o [ none ↦ panic | some b ↦ b.fn xs w ])
  call-Ends n none e xs w i = tt
  call-Ends n (some b) e xs w i =
      find_builtin-All fl host (λ c. Keeps c.fn) n (builtins fl host) b builtins-AllKeep e xs w i

  pub call_builtin-Ends : (n : String) → Keeps (call_builtin fl host n)
  unfolding call_builtin
  call_builtin-Ends n = call-Ends n (find_builtin n (builtins fl host)) refl
