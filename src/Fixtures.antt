-- ===== src/Fixtures.antt =====
-- Concrete data for the tests: a host, floats with a value that is not equal to itself, and a graph.
use rips.Prelude.{
  String, ℕ, ◌+◌, ◌-◌, ◌*◌, ◌/◌, Bool, true, false, ◌==◌, ltb, leb, Option, none, some, [], ◌∷◌,
}
use rips.Prelude.Int.{pos}
use rips.Extern.Ctx.{Ctx, RosMsg, RosTopic, RosNode}
use rips.Extern.Host.{Host, exited}
use rips.Tree.Sym.{Floats}
use rips.Lex.Library.{Library}
use rips.Lex.Reader.{Lexer}

-- Natural numbers, and `none` for NaN.
abbrev lift2 : (ℕ → ℕ → ℕ) → Option ℕ → Option ℕ → Option ℕ
lift2 f none b = none
lift2 f (some a) none = none
lift2 f (some a) (some b) = some (f a b)

abbrev test2 : (ℕ → ℕ → Bool) → Option ℕ → Option ℕ → Bool
test2 f none b = false
test2 f (some a) none = false
test2 f (some a) (some b) = f a b

abbrev pub sample_floats : Floats (Option ℕ)
sample_floats = record {
  f_zero = some 0;
  f_add = lift2 ◌+◌;
  f_sub = lift2 ◌-◌;
  f_mul = lift2 ◌*◌;
  f_div = lift2 ◌/◌;
  f_lt = test2 ltb;
  f_le = test2 leb;
  f_eq = test2 ◌==◌;
  f_format = λ f. "float";
}

-- Every program can be run and succeeds.
abbrev pub willing_host : Host
willing_host = record {
  is_executable = λ p. true;
  is_readable = λ p. true;
  run_ok = λ p xs. true;
  decode_base64 = λ s. some [];
  run_plugin = λ p bytes. exited 0;
  yara_compiles = λ p. true;
  yara_scan = λ p bytes. some 0;
  regexp_compiles = λ s. true;
  regexp_matches = λ r s. true;
  read_lines = λ p. none;
}

abbrev pub camera : RosTopic
camera = record {
  topic = "/camera";
  parameters = some ("sensor_msgs/msg/Image" ∷ []);
  publishers = "/cam" ∷ "/cam2" ∷ [];
  subscribers = "/view" ∷ [];
}

abbrev pub cam_node : RosNode
cam_node = record {
  node = "/cam";
  gids = [];
  services = record { service = "/reset"; params = [] } ∷ [];
}

abbrev pub camera_msg : RosMsg
camera_msg = record {
  event = "message";
  from_topic = "/camera";
  raw_msg = "";
  context = record { nodes = cam_node ∷ []; topics = camera ∷ [] };
}

-- A started engine with two levels, at the first.
abbrev pub running_ctx : Ctx
running_ctx = record {
  curr_level = pos 0;
  current_msg = some camera_msg;
  scripts_path = "/etc/rips/scripts";
  nusr1 = 1;
  nusr2 = 0;
  paths = [];
  levels = "DEFAULT" ∷ "ALERT" ∷ [];
  n_levels = 2;
  init = true;
  effects = [];
}

-- No letters and so on beyond ASCII; numbers convert to 5 and 1, and texts to themselves.
abbrev pub sample_library : Library (Option ℕ)
sample_library = record {
  letter = λ c. false;
  digit = λ c. false;
  space = λ c. false;
  graphic = λ c. false;
  float_zero = some 0;
  parse_int = λ s. some 5;
  parse_based = λ s. some 5;
  parse_float = λ s. some (some 1);
  unquote = λ s. some s;
}

-- `NewFakeLexer`.
abbrev pub lexer_on : String → Lexer (Option ℕ)
lexer_on text = record {
  line = 1;
  rest = text;
  unread = none;
  lastrune = some 0;
  accepted = "";
  saved = none;
}
