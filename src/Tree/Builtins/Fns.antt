-- ===== src/Tree/Builtins/Fns.antt =====
-- tree/builtins.go: the functions. Most hand their arguments to the function of that name in extern.
use rips.Prelude.{
  ℕ, zero, suc, ◌-◌, ◌/◌, ◌%◌, Bool, true, false, ◌==◌, if◌then◌else◌, String, List, ◌∷◌,
}
use rips.Prelude.Int.{pos, negsuc}
use rips.Prelude.Int64.{is_neg, modulus}
use rips.Prelude.Result.{Result, ok, fatal, panic, ◌>>=◌}
use Prim.Native.String.{◌++◌}
use rips.Types.{TypeVal, tv_int, tv_float, tv_bool, tv_string}
use rips.Extern.Ctx.{Ctx}
use rips.Extern.Host.{Host}
use rips.Extern.Expr
use rips.Extern.Trigger.{alert, exec}
use rips.Tree.Sym.{Floats, Val, SType, s_yara, new_bool, new_string}
use rips.Tree.Eval.{lvalue, rvalue}
use rips.Tree.Levels.{Level, Engine, trigger_level, level_name}
use rips.Tree.Builtins.World.{
  World, BuiltinFn, set_val, arg_at, str_at, int_at, var_args, var_args_from_one, answer, act,
}

-- The decimal digits of a number, by rounds: 20 are enough for an int64.
abbrev digit : ℕ → String
digit d =
    if d == 0
    then "0"
    else if d == 1
    then "1"
    else if d == 2
    then "2"
    else if d == 3
    then "3"
    else if d == 4
    then "4"
    else if d == 5
    then "5"
    else if d == 6
    then "6"
    else if d == 7
    then "7"
    else if d == 8
    then "8"
    else "9"

pub decimal : ℕ → ℕ → String
decimal zero n = ""
decimal (suc f) n =
    let higher = decimal f (n / 10) in if n / 10 == 0 then digit n else higher ++ digit (n % 10)

-- `%v` of an int64.
unfoldable pub int_text : ℕ → String
unfolding decimal
int_text n = if is_neg n then "-" ++ decimal 20 (modulus - n) else decimal 20 n

module _ {F : Type 0} (fl : Floats F) where
  text_of : TypeVal → Val F → String
  unfolding int_text
  text_of tv_bool s = if s.bool_val then "true" else "false"
  text_of tv_int s = int_text s.int_val
  text_of tv_float s = fl.f_format s.float_val
  text_of tv_string s = s.str_val
  text_of _ s = "Unk_Type"

  -- `String` on one value.
  unfoldable pub string_of : Val F → String
  unfolding text_of
  string_of s = text_of s.data_type.t_val s

module _ {F : Type 0} (fl : Floats F) (host : Host) where
  -- The fields of a value that `trigger` reads.
  abbrev level_of : Val F → Level
  level_of v = record { name = v.name; slevel = v.slevel; is_soft = v.is_soft }

  unfoldable pub string_fn : BuiltinFn F
  unfolding string_of
  string_fn xs w = do s ← arg_at 0 xs; ok (new_string fl (string_of fl s), w)

  -- `LevelName`: an int64 as the number of a level.
  unfoldable pub level_name_fn : BuiltinFn F
  level_name_fn xs w = do
    n ← int_at 0 xs
    s ← level_name w.ctx (if is_neg n then negsuc (modulus - n - 1) else pos n)
    ok (new_string fl s, w)

  unfoldable pub set_fn : BuiltinFn F
  set_fn (lvalue n ∷ rvalue v ∷ rest) w = ok (new_bool fl true, set_val n v w)
  set_fn _ w = panic

  -- `True` and `False` print their arguments and answer.
  unfoldable pub true_fn : BuiltinFn F
  true_fn xs w = ok (new_bool fl true, w)

  unfoldable pub false_fn : BuiltinFn F
  false_fn xs w = ok (new_bool fl false, w)

  -- `Crash` ends the process in `os.Exit(2)`.
  unfoldable pub crash_fn : BuiltinFn F
  crash_fn xs w = do msg ← str_at 0 xs; fatal

  unfoldable pub alert_fn : BuiltinFn F
  alert_fn xs w = do msg ← str_at 0 xs; act fl w (alert w.ctx msg)

  unfoldable pub exec_fn : BuiltinFn F
  exec_fn xs w = do
    path ← str_at 0 xs
    rest ← var_args_from_one xs
    act fl w (exec host w.ctx path rest)

  -- The evaluator puts the current level before the arguments.
  trigger_to : Val F → World F → Result (Val F × World F)
  trigger_to to w =
      let e : Engine = record { ctx = w.ctx; level = level_of w.curr_level } in
      let (e', v) = trigger_level host e (level_of to) in
      ok (new_bool fl v, record w { ctx = e'.ctx; curr_level = if v then to else w.curr_level })

  unfoldable pub trigger_fn : BuiltinFn F
  unfolding trigger_to
  trigger_fn (lvalue cur ∷ rvalue to ∷ rest) w = trigger_to to w
  trigger_fn _ w = panic

  -- A predicate on one text, on two numbers, on a text and two numbers, on texts, and on a text and
  -- texts.
  abbrev pub of_str : (Ctx → String → Result Bool) → BuiltinFn F
  of_str f xs w = do a ← str_at 0 xs; answer fl w (f w.ctx a)

  abbrev pub of_range : (Ctx → ℕ → ℕ → Result Bool) → BuiltinFn F
  of_range f xs w = do a ← int_at 0 xs; b ← int_at 1 xs; answer fl w (f w.ctx a b)

  abbrev pub of_str_range : (Ctx → String → ℕ → ℕ → Result Bool) → BuiltinFn F
  of_str_range f xs w = do
    s ← str_at 0 xs
    a ← int_at 1 xs
    b ← int_at 2 xs
    answer fl w (f w.ctx s a b)

  abbrev pub of_strs : (Ctx → List String → Result Bool) → BuiltinFn F
  of_strs f xs w = answer fl w (f w.ctx (var_args xs))

  abbrev pub of_str_strs : (Ctx → String → List String → Result Bool) → BuiltinFn F
  of_str_strs f xs w = do s ← str_at 0 xs; rest ← var_args_from_one xs; answer fl w (f w.ctx s rest)

  unfoldable pub msg_subtype_fn : BuiltinFn F
  msg_subtype_fn xs w = do
    a ← str_at 0 xs
    b ← str_at 1 xs
    answer fl w (Expr.msg_subtype w.ctx a b)

  unfoldable pub service_fn : BuiltinFn F
  service_fn xs w = do a ← str_at 0 xs; b ← str_at 1 xs; answer fl w (Expr.service w.ctx a b)

  abbrev is_yara : SType → Bool
  is_yara s_yara = true
  is_yara _ = false

  -- The compiled rule is in the argument if folding compiled it.
  unfoldable pub payload_fn : BuiltinFn F
  payload_fn xs w = do
    a ← arg_at 0 xs
    answer fl w (Expr.payload host w.ctx a.str_val (is_yara a.s_type))

  unfoldable pub signal_fn : BuiltinFn F
  signal_fn xs w = do a ← str_at 0 xs; act fl w (Expr.signal w.ctx a)

  unfoldable pub ids_alert_fn : BuiltinFn F
  ids_alert_fn xs w = do a ← str_at 0 xs; answer fl w (ok (Expr.ids_alert host w.ctx a))

  abbrev pub plugin_fn : BuiltinFn F
  plugin_fn = of_str (Expr.plugin host)

  abbrev pub topic_matches_fn : BuiltinFn F
  topic_matches_fn = of_str (Expr.topic_matches host)

  abbrev pub service_count_fn : BuiltinFn F
  service_count_fn = of_str_range Expr.service_count

  abbrev pub services_fn : BuiltinFn F
  services_fn = of_str_strs Expr.services

  abbrev pub services_include_fn : BuiltinFn F
  services_include_fn = of_str_strs Expr.services_include
