-- ===== src/Tree/Builtins/Table.antt =====
-- tree/builtins.go: the table of the builtin functions, and the machine that the evaluator runs on.
use rips.Prelude.{
  ℕ, ◌-◌, Bool, true, false, ◌==◌, if◌then◌else◌, str_eq, String, Option, none, some, List, [], ◌∷◌,
  ◌++◌, length, leb,
}
use rips.Prelude.Result.{panic}
use rips.Types.{
  Ty, univ_type, int_type, string_type, bool_type, msg_str_type, msg_int_type, graph_str_type,
  graph_int_type, external_str_type,
}
use rips.Extern.Host.{Host}
use rips.Extern.Expr
use rips.Tree.Sym.{Floats}
use rips.Tree.Eval.{Machine}
use rips.Tree.Builtins.World.{World, BuiltinFn, get_val}
use rips.Tree.Builtins.Fns

pub record Builtin (F : Type 0) : Type 0 where
  pub name : String
  pub ret_type : Ty
  pub arg_types : List Ty
  pub is_variadic : Bool
  pub is_action : Bool
  pub fn : BuiltinFn F

-- The symbol of a function, by its name.
unfoldable pub find_builtin : {F : Type 0} → String → List (Builtin F) → Option (Builtin F)
find_builtin n [] = none
find_builtin n (b ∷ rest) = if str_eq b.name n then some b else find_builtin n rest

-- The test of the type checker (tree/type.go) on the number of arguments of a call.
unfoldable pub arity_ok : {F : Type 0} → Builtin F → ℕ → Bool
arity_ok b n = if b.is_variadic then leb (length b.arg_types - 1) n else length b.arg_types == n

module _ {F : Type 0} (fl : Floats F) (host : Host) where
  abbrev builtin : String → Ty → List Ty → Bool → Bool → BuiltinFn F → Builtin F
  builtin n ret types variadic action f = record {
    name = n;
    ret_type = ret;
    arg_types = types;
    is_variadic = variadic;
    is_action = action;
    fn = f;
  }

  unfoldable pub action_builtins : List (Builtin F)
  action_builtins =
      builtin "set" bool_type (univ_type ∷ univ_type ∷ []) false true (Fns.set_fn fl host)
      ∷ builtin "trigger" bool_type (int_type ∷ []) false true (Fns.trigger_fn fl host)
      ∷ builtin "alert" bool_type (string_type ∷ []) false true (Fns.alert_fn fl host)
      ∷ builtin "exec" bool_type (string_type ∷ string_type ∷ []) true true (Fns.exec_fn fl host)
      ∷ builtin "True" bool_type (univ_type ∷ []) true true (Fns.true_fn fl host)
      ∷ builtin "False" bool_type (univ_type ∷ []) true true (Fns.false_fn fl host)
      ∷ builtin "crash" bool_type (string_type ∷ []) false true (Fns.crash_fn fl host)
      ∷ []

  unfoldable pub msg_builtins : List (Builtin F)
  msg_builtins =
      builtin "msgsubtype" bool_type (msg_str_type ∷ msg_str_type ∷ []) false false
        (Fns.msg_subtype_fn fl host)
      ∷ builtin "msgtypein" bool_type (msg_str_type ∷ []) true false
          (Fns.of_strs fl host Expr.msg_type_in)
      ∷ builtin "payload" bool_type (msg_str_type ∷ []) false false (Fns.payload_fn fl host)
      ∷ builtin "plugin" bool_type (msg_str_type ∷ []) false false (Fns.plugin_fn fl host)
      ∷ builtin "publishercount" bool_type (msg_int_type ∷ msg_int_type ∷ []) false false
          (Fns.of_range fl host Expr.publisher_count)
      ∷ builtin "publishers" bool_type (msg_str_type ∷ []) true false
          (Fns.of_strs fl host Expr.publishers)
      ∷ builtin "publishersinclude" bool_type (msg_str_type ∷ []) true false
          (Fns.of_strs fl host Expr.publishers_include)
      ∷ builtin "subscribercount" bool_type (msg_int_type ∷ msg_int_type ∷ []) false false
          (Fns.of_range fl host Expr.subscriber_count)
      ∷ builtin "subscribers" bool_type (msg_str_type ∷ []) true false
          (Fns.of_strs fl host Expr.subscribers)
      ∷ builtin "subscribersinclude" bool_type (msg_str_type ∷ []) true false
          (Fns.of_strs fl host Expr.subscribers_include)
      ∷ builtin "topicin" bool_type (msg_str_type ∷ []) true false
          (Fns.of_strs fl host Expr.topic_in)
      ∷ builtin "topicmatches" bool_type (msg_str_type ∷ []) false false
          (Fns.topic_matches_fn fl host)
      ∷ []

  unfoldable pub graph_builtins : List (Builtin F)
  graph_builtins =
      builtin "nodecount" bool_type (graph_int_type ∷ graph_int_type ∷ []) false false
        (Fns.of_range fl host Expr.node_count)
      ∷ builtin "nodes" bool_type (graph_str_type ∷ []) true false (Fns.of_strs fl host Expr.nodes)
      ∷ builtin "nodesinclude" bool_type (graph_str_type ∷ []) true false
          (Fns.of_strs fl host Expr.nodes_include)
      ∷ builtin "service" bool_type (graph_str_type ∷ []) false false (Fns.service_fn fl host)
      ∷ builtin "servicecount" bool_type (graph_int_type ∷ graph_int_type ∷ []) false false
          (Fns.of_str_range fl host Expr.service_count)
      ∷ builtin "services" bool_type (graph_str_type ∷ []) true false
          (Fns.of_str_strs fl host Expr.services)
      ∷ builtin "servicesinclude" bool_type (graph_str_type ∷ []) true false
          (Fns.of_str_strs fl host Expr.services_include)
      ∷ builtin "topiccount" bool_type (graph_int_type ∷ graph_int_type ∷ []) false false
          (Fns.of_range fl host Expr.topic_count)
      ∷ builtin "topicpublishercount" bool_type
          (graph_str_type ∷ graph_int_type ∷ graph_int_type ∷ []) false false
          (Fns.of_str_range fl host Expr.topic_publisher_count)
      ∷ builtin "topicpublishers" bool_type (graph_str_type ∷ graph_str_type ∷ []) true false
          (Fns.of_str_strs fl host Expr.topic_publishers)
      ∷ builtin "topicpublishersinclude" bool_type (graph_str_type ∷ graph_str_type ∷ []) true false
          (Fns.of_str_strs fl host Expr.topic_publishers_include)
      ∷ builtin "topics" bool_type (graph_str_type ∷ []) true false
          (Fns.of_strs fl host Expr.topics)
      ∷ builtin "topicsinclude" bool_type (graph_str_type ∷ []) true false
          (Fns.of_strs fl host Expr.topics_include)
      ∷ builtin "topicsubscribercount" bool_type
          (graph_str_type ∷ graph_int_type ∷ graph_int_type ∷ []) false false
          (Fns.of_str_range fl host Expr.topic_subscriber_count)
      ∷ builtin "topicsubscribers" bool_type (graph_str_type ∷ graph_str_type ∷ []) false false
          (Fns.of_str_strs fl host Expr.topic_subscribers)
      ∷ builtin "topicsubscribersinclude" bool_type (graph_str_type ∷ graph_str_type ∷ []) true
          false (Fns.of_str_strs fl host Expr.topic_subscribers_include)
      ∷ []

  unfoldable pub other_builtins : List (Builtin F)
  other_builtins =
      builtin "signal" bool_type (external_str_type ∷ []) false false (Fns.signal_fn fl host)
      ∷ builtin "idsalert" bool_type (external_str_type ∷ []) false false (Fns.ids_alert_fn fl host)
      ∷ builtin "levelname" string_type (int_type ∷ []) false false (Fns.level_name_fn fl host)
      ∷ builtin "string" string_type (univ_type ∷ []) false false (Fns.string_fn fl host)
      ∷ []

  unfoldable pub builtins : List (Builtin F)
  unfolding action_builtins msg_builtins graph_builtins other_builtins
  builtins = action_builtins ++ msg_builtins ++ graph_builtins ++ other_builtins

  -- The environment with the builtins: `GetSym(name)` for a variable, and `fn.Fn`.
  unfoldable pub call_builtin : String → BuiltinFn F
  unfolding builtins find_builtin
  call_builtin n xs w = elim (find_builtin n builtins) [ none ↦ panic | some b ↦ b.fn xs w ]

  abbrev pub machine : Machine F (World F)
  machine = record { get_val = get_val; call = call_builtin }

  unfoldable pub call_arity_ok : String → ℕ → Bool
  unfolding builtins find_builtin arity_ok
  call_arity_ok name n = elim (find_builtin name builtins) [ none ↦ false | some b ↦ arity_ok b n ]
