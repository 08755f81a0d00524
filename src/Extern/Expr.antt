-- ===== src/Extern/Expr.antt =====
-- extern/expr.go: the predicates on the current message and its graph, on signals, and on the logs
-- of the intrusion detection system.
pub mod Laws
mod Tests
use rips.Prelude.{
  ℕ, suc, zero, ◌-◌, ◌%◌, Bool, true, false, not, ◌&&◌, ◌||◌, ◌==◌, if◌then◌else◌, str_eq, String,
  Option, none, some, List, [], ◌∷◌, map, length, contains, ltb,
}
use rips.Prelude.Int64.{slt, modulus}
use rips.Prelude.Result.{Result, ok, panic, ◌>>=◌}
use text.Mathlib.Text.{find?}
use rips.Extern.Ctx.{
  Ctx, RosMsg, RosNode, RosService, get_msg, ros_type, ros_subtype, ros_node, topic_names,
  publishers_of, subscribers_of, has_service,
}
use rips.Extern.Host.{Host, not_started, exited, wait_error}
use rips.Extern.Match.{match_subset, match_all}

-- `int64(len(xs)) >= min && int64(len(xs)) <= max`.
unfoldable pub within : ℕ → ℕ → ℕ → Bool
within n min max = not (slt (n % modulus) min) && not (slt max (n % modulus))

unfoldable pub msg_subtype : Ctx → String → String → Result Bool
msg_subtype c msgtype msgsubtype = do
  m ← get_msg c
  rostype ← ros_type m m.from_topic
  rossubtype ← ros_subtype m m.from_topic
  ok (str_eq rostype msgtype && str_eq rossubtype msgsubtype)

abbrev one_of : List String → String → Bool
one_of [] t = true
one_of (x ∷ xs) t = contains (x ∷ xs) t

unfoldable pub msg_type_in : Ctx → List String → Result Bool
msg_type_in c msgtypes = do
  m ← get_msg c
  rostype ← ros_type m m.from_topic
  ok (one_of msgtypes rostype)

-- A message that is not base64 makes the plugin answer false.
unfoldable pub plugin : Host → Ctx → String → Result Bool
plugin host c path = do
  m ← get_msg c
  elim (host.decode_base64 m.raw_msg) [
    | none ↦ ok false
    | some bytes ↦ elim (host.run_plugin path bytes) [
      | not_started ↦ ok false
      | exited sts ↦ ok (sts == 0)
      | wait_error ↦ ok true
    ]
  ]

scan : Host → String → List ℕ → Bool
scan host path bytes = elim (host.yara_scan path bytes) [ none ↦ true | some n ↦ not (n == 0) ]

-- `compiled`: the rule was compiled when the program was folded. Otherwise it is read now.
unfoldable pub payload : Host → Ctx → String → Bool → Result Bool
unfolding scan
payload host c path compiled = do
  m ← get_msg c
  elim (host.decode_base64 m.raw_msg) [
    | none ↦ ok true
    | some bytes ↦ if compiled || host.yara_compiles path then ok (scan host path bytes) else panic
  ]

unfoldable pub publisher_count : Ctx → ℕ → ℕ → Result Bool
publisher_count c min max = do
  m ← get_msg c
  ok (within (length (publishers_of m m.from_topic)) min max)

unfoldable pub publishers : Ctx → List String → Result Bool
publishers c pubs = do m ← get_msg c; ok (match_all pubs (publishers_of m m.from_topic))

unfoldable pub publishers_include : Ctx → List String → Result Bool
publishers_include c pubs = do m ← get_msg c; ok (match_subset (publishers_of m m.from_topic) pubs)

unfoldable pub subscriber_count : Ctx → ℕ → ℕ → Result Bool
subscriber_count c min max = do
  m ← get_msg c
  ok (within (length (subscribers_of m m.from_topic)) min max)

unfoldable pub subscribers : Ctx → List String → Result Bool
subscribers c subs = do m ← get_msg c; ok (match_all subs (subscribers_of m m.from_topic))

unfoldable pub subscribers_include : Ctx → List String → Result Bool
subscribers_include c subs = do
  m ← get_msg c
  ok (match_subset subs (subscribers_of m m.from_topic))

-- The message is looked at in the loop only.
unfoldable pub topic_in : Ctx → List String → Result Bool
topic_in c [] = ok false
topic_in c (t ∷ ts) = do m ← get_msg c; ok (contains (t ∷ ts) m.from_topic)

unfoldable pub topic_matches : Host → Ctx → String → Result Bool
topic_matches host c restr = do m ← get_msg c; ok (host.regexp_matches restr m.from_topic)

unfoldable pub node_count : Ctx → ℕ → ℕ → Result Bool
node_count c min max = do m ← get_msg c; ok (within (length m.context.nodes) min max)

unfoldable pub node_names : List RosNode → List String
node_names ns = map (λ n. n.node) ns

unfoldable pub nodes : Ctx → List String → Result Bool
nodes c names = do m ← get_msg c; ok (match_all names (node_names m.context.nodes))

unfoldable pub nodes_include : Ctx → List String → Result Bool
nodes_include c names = do m ← get_msg c; ok (match_subset (node_names m.context.nodes) names)

-- The node of that name; the callers use it with no test for nil.
abbrev get_node : Ctx → String → Result RosNode
get_node c node = do m ← get_msg c; elim (ros_node m node) [ none ↦ panic | some n ↦ ok n ]

unfoldable pub service : Ctx → String → String → Result Bool
service c node name = do n ← get_node c node; ok (has_service n name)

unfoldable pub service_count : Ctx → String → ℕ → ℕ → Result Bool
service_count c node min max = do n ← get_node c node; ok (within (length n.services) min max)

unfoldable pub service_names : List RosService → List String
service_names ss = map (λ s. s.service) ss

unfoldable pub services : Ctx → String → List String → Result Bool
services c node names = do n ← get_node c node; ok (match_all names (service_names n.services))

unfoldable pub services_include : Ctx → String → List String → Result Bool
services_include c node names = do
  n ← get_node c node
  ok (match_subset (service_names n.services) names)

unfoldable pub topic_count : Ctx → ℕ → ℕ → Result Bool
topic_count c min max = do m ← get_msg c; ok (within (length (topic_names m)) min max)

unfoldable pub topic_publisher_count : Ctx → String → ℕ → ℕ → Result Bool
topic_publisher_count c topic min max = do
  m ← get_msg c
  ok (within (length (publishers_of m topic)) min max)

unfoldable pub topic_publishers : Ctx → String → List String → Result Bool
topic_publishers c topic pubs = do m ← get_msg c; ok (match_all pubs (publishers_of m topic))

unfoldable pub topic_publishers_include : Ctx → String → List String → Result Bool
topic_publishers_include c topic pubs = do
  m ← get_msg c
  ok (match_subset (publishers_of m topic) pubs)

unfoldable pub topics : Ctx → List String → Result Bool
topics c names = do m ← get_msg c; ok (match_all names (topic_names m))

unfoldable pub topics_include : Ctx → List String → Result Bool
topics_include c names = do m ← get_msg c; ok (match_subset (topic_names m) names)

unfoldable pub topic_subscriber_count : Ctx → String → ℕ → ℕ → Result Bool
topic_subscriber_count c topic min max = do
  m ← get_msg c
  ok (within (length (subscribers_of m topic)) min max)

unfoldable pub topic_subscribers : Ctx → String → List String → Result Bool
topic_subscribers c topic subs = do m ← get_msg c; ok (match_all subs (subscribers_of m topic))

unfoldable pub topic_subscribers_include : Ctx → String → List String → Result Bool
topic_subscribers_include c topic subs = do
  m ← get_msg c
  ok (match_subset (subscribers_of m topic) subs)

-- Each answer uses up one signal that was received.
unfoldable pub signal : Ctx → String → Ctx × Bool
signal c sig =
    if str_eq sig "SIGUSR1"
    then (if ltb 0 c.nusr1 then (record c { nusr1 = c.nusr1 - 1 }, true) else (c, false))
    else if str_eq sig "SIGUSR2"
    then (if ltb 0 c.nusr2 then (record c { nusr2 = c.nusr2 - 1 }, true) else (c, false))
    else (c, false)

abbrev has_text : String → String → Bool
has_text s needle = elim (find? s needle) [ none ↦ false | some i ↦ true ]

any_line : String → List String → Bool
any_line needle [] = false
any_line needle (s ∷ ss) = has_text s needle || any_line needle ss

-- `Fgrep` of extern/ids.go: the complete lines of a file are searched.
unfoldable pub fgrep : Host → String → String → Bool
unfolding any_line
fgrep host needle path = elim (host.read_lines path) [ none ↦ false | some ss ↦ any_line needle ss ]

-- `FgrepAll`; the order of the paths does not matter, since only one answer is true.
unfoldable pub fgrep_all : Host → String → List String → Bool
fgrep_all host needle [] = false
fgrep_all host needle (p ∷ ps) = fgrep host needle p || fgrep_all host needle ps

unfoldable pub ids_alert : Host → Ctx → String → Bool
ids_alert host c needle = fgrep_all host needle c.paths
