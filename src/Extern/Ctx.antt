-- ===== src/Extern/Ctx.antt =====
-- extern/context.go and extern/msg.go: the messages of the ROS monitor, the context, and the
-- look-ups in the graph of the current message.
use rips.Prelude.{
  ℕ, ◌-◌, Bool, false, ◌||◌, ◌==◌, if◌then◌else◌, str_eq, String, Option, none, some, List, [], ◌∷◌,
  ◌++◌, map,
}
use rips.Prelude.Int.{ℤ, negsuc}
use rips.Prelude.Result.{Result, ok, panic, ◌>>=◌}
use Prim.Native.Char.{Char, code}

pub record RosService : Type 0 where
  pub service : String
  pub params : List String

-- `parameters`: `none` is the nil slice.
pub record RosTopic : Type 0 where
  pub topic : String
  pub parameters : Option (List String)
  pub publishers : List String
  pub subscribers : List String

pub record RosNode : Type 0 where
  pub node : String
  pub gids : List String
  pub services : List RosService

pub record RosContext : Type 0 where
  pub nodes : List RosNode
  pub topics : List RosTopic

-- The decoded message itself is read by no rule.
pub record RosMsg : Type 0 where
  pub event : String
  pub from_topic : String
  pub raw_msg : String
  pub context : RosContext

-- What the engine writes to its connection: an alert, or a change of level with its gravity, the
-- level over the greatest level.
pub data Report : Type 0 where
  alerted : String → Report
  changed_level : String → ℤ → ℤ → Report

-- The runs of programs, with their arguments, stand for what those programs do.
pub data Effect : Type 0 where
  ran : String → List String → Effect
  sent : Report → Effect

-- Left out are the connections, the output for errors and the statistics. `effects` lists what the
-- engine did to its surroundings, the latest first.
pub record Ctx : Type 0 where
  pub curr_level : ℤ
  pub current_msg : Option RosMsg
  pub scripts_path : String
  pub nusr1 : ℕ
  pub nusr2 : ℕ
  pub paths : List String
  pub levels : List String
  pub n_levels : ℕ
  pub init : Bool
  pub effects : List Effect

unfoldable pub new_context : Option RosMsg → String → ℕ → Ctx
new_context msg spath nlevels = record {
  curr_level = negsuc 0;
  current_msg = msg;
  scripts_path = spath;
  nusr1 = 0;
  nusr2 = 0;
  paths = [];
  levels = [];
  n_levels = nlevels;
  init = false;
  effects = [];
}

unfoldable pub update : Ctx → Option RosMsg → Ctx
update c msg = record c { current_msg = msg }

unfoldable pub add_level : Ctx → String → Ctx
add_level c s = record c { levels = c.levels ++ s ∷ [] }

-- `Msg.Type`: the name of the section whose rules run.
unfoldable pub msg_type_name : RosMsg → String
msg_type_name m =
    if str_eq m.event "graph"
    then "Graph"
    else if str_eq m.event "message"
    then "Msg"
    else "Unknown"

-- The current message; without one its use is the dereference of a nil pointer.
abbrev pub get_msg : Ctx → Result RosMsg
get_msg c = elim c.current_msg [ none ↦ panic | some m ↦ ok m ]

find_topic : String → List RosTopic → Option RosTopic
find_topic t [] = none
find_topic t (rt ∷ rest) = if str_eq rt.topic t then some rt else find_topic t rest

-- `Ctx.rostopic`, in the graph of a message.
unfoldable pub ros_topic : RosMsg → String → Option RosTopic
unfolding find_topic
ros_topic m t = find_topic t m.context.topics

find_node : String → List RosNode → Option RosNode
find_node n [] = none
find_node n (rn ∷ rest) = if str_eq rn.node n then some rn else find_node n rest

-- `Ctx.RosNode`.
unfoldable pub ros_node : RosMsg → String → Option RosNode
unfolding find_node
ros_node m n = find_node n m.context.nodes

-- `Ctx.Topics`, `Ctx.Publishers` and `Ctx.Subscribers`.
unfoldable pub topic_names : RosMsg → List String
topic_names m = map (λ rt. rt.topic) m.context.topics

unfoldable pub publishers_of : RosMsg → String → List String
publishers_of m t = elim (ros_topic m t) [ none ↦ [] | some rt ↦ rt.publishers ]

unfoldable pub subscribers_of : RosMsg → String → List String
subscribers_of m t = elim (ros_topic m t) [ none ↦ [] | some rt ↦ rt.subscribers ]

abbrev push_char : Char → List String → List String
push_char c [] = (String.◌∷◌ c String.[]) ∷ []
push_char c (s ∷ ss) = (String.◌∷◌ c s) ∷ ss

-- `strings.Split(s, "/")`.
unfoldable pub split_slash : String → List String
split_slash String.[] = "" ∷ []
split_slash (String.◌∷◌ c s) =
    if code c == b'/' then "" ∷ split_slash s else push_char c (split_slash s)

-- `param := rostopic.Parameters[0]`, cut at the slashes; an empty slice is out of range.
first_param : List String → Result (List String)
unfolding split_slash
first_param [] = panic
first_param (p ∷ ps) = ok (split_slash p)

field : ℕ → List String → String → String
field n [] default = default
field n (s ∷ ss) default = if n == 0 then s else field (n - 1) ss default

abbrev params_of : Option RosTopic → Option (List String)
params_of none = none
params_of (some rt) = rt.parameters

-- `Ctx.RosType` and `Ctx.RosSubtype`: the first and the third field of `package/msg/Type`.
unfoldable pub ros_type : RosMsg → String → Result String
unfolding ros_topic first_param field
ros_type m t = elim (params_of (ros_topic m t)) [
  | none ↦ ok "UnknownRostype"
  | some ps ↦ (first_param ps >>= λ fields. ok (field 0 fields ""))
]

unfoldable pub ros_subtype : RosMsg → String → Result String
unfolding ros_topic first_param field
ros_subtype m t = elim (params_of (ros_topic m t)) [
  | none ↦ ok "UnknownRosSubtype"
  | some ps ↦ (first_param ps >>= λ fields. ok (field 2 fields "UnknownRosSubtype"))
]

has_service_in : String → List RosService → Bool
has_service_in s [] = false
has_service_in s (x ∷ xs) = str_eq x.service s || has_service_in s xs

-- `RosNode.HasService`.
unfoldable pub has_service : RosNode → String → Bool
unfolding has_service_in
has_service rn s = has_service_in s rn.services
