-- ===== src/Tree/Check.antt =====
-- tree/type.go: `TypeCheck` of expressions, declarations and programs, and tree/states.go. A check gives
-- the number of its errors.
mod Sound
mod Tests
mod Sections
pub mod Typed
use rips.Prelude.{
  ℕ, zero, suc, ◌+◌, Bool, true, false, not, ◌&&◌, ◌||◌, if◌then◌else◌, str_eq, String, Option,
  none, some, List, [], ◌∷◌, length,
}
use rips.Prelude.Result.{Result, ok, fatal, panic, ◌>>=◌}
use rips.Lex.Token.{TokType}
use rips.Types.{
  Ty, TypeExpr, te_expr, te_msg, te_graph, te_msg_graph, te_external, same_val, tv_bool, tv_string,
  univ_type, is_type_compat, is_type_undef,
}
use rips.Extern.Host.{Host}
use rips.Tree.Sym.{
  Val, Sym, leaf, ref, fcall, binary, unary, Args, no_args, arg, Func, SType, s_none, s_sect,
  s_level, s_fcall, s_var, s_func, s_const, s_unary, s_binary, s_asign, s_regexp, s_yara, sym_val,
  s_type_of,
}
use rips.Tree.Annotate.{Mark, Marks, mark, type_of, annotate, bad_arity, is_var, last_of}
use rips.Tree.Chain.{Action, Rule, RuleSect}

-- What the checker reads of other symbols: whether the function of that name is an action, as the parser
-- copies it to a call, and the kind of the symbol that is the value of a variable.
pub record Scope : Type 0 where
  pub is_action : String → Bool
  pub val_type : String → Option SType

abbrev pub count_if : Bool → ℕ
count_if b = if b then 1 else 0

-- Neither undefined nor out of the section's type.
unfoldable pub bad_type : Ty → Ty → Bool
bad_type t s = is_type_undef s || not (is_type_compat t s)

abbrev pub is_level : SType → Bool
is_level s_level = true
is_level _ = false

abbrev pub not_level : Option SType → SType → Bool
not_level (some k) s_var = not (is_level k)
not_level _ k = not (is_level k)

-- A symbol without an `Expr`; it is no action.
abbrev pub check_sym : Ty → Ty → SType → Result ℕ
check_sym t s s_const = ok (count_if (not (is_type_compat t s)))
check_sym t s s_var = ok (count_if (bad_type t s))
check_sym t s s_level = ok 0
check_sym t s s_sect = ok 0
check_sym t s s_none = ok 1
check_sym t s s_fcall = ok 1
check_sym t s _ = panic

-- `expr.Args[i]` and then the argument's type; a function without parameters has no type for it.
abbrev pub and_arg : Option Ty → ℕ → Bool → Result ℕ
and_arg none n bad = panic
and_arg (some t) n bad = ok (n + count_if bad)

module _ (host : Host) (sc : Scope) where
  abbrev pub path_errors : String → String → Bool → ℕ
  path_errors name path bad =
      count_if ((str_eq name "exec" || str_eq name "plugin") && not (host.is_executable path))
      + count_if (str_eq name "payload" && not (host.is_readable path))
      + count_if bad

  abbrev pub action_error : Bool → String → ℕ
  action_error top name = count_if (not top && sc.is_action name)

module _ {F : Type 0} (host : Host) (sc : Scope) where
  -- `islevel`, which is true for what is no level.
  unfoldable pub is_no_level : Sym F → Bool
  is_no_level s = not_level (sc.val_type (sym_val s).name) (s_type_of s)

  -- The errors of `set`, which reads its arguments for the message.
  abbrev pub set_errors : Args F → Result ℕ
  set_errors no_args = panic
  set_errors (arg x no_args) = if is_var x then panic else ok 1
  set_errors (arg x (arg y xs)) = ok 1

  -- The checks of `trigger`, `levelname`, `exec`, `plugin` and `payload`, with their first argument, and
  -- of the type of the call.
  abbrev pub first_errors : String → Bool → Bool → Args F → Result ℕ
  first_errors name undef bad no_args =
      if str_eq name "trigger"
        || str_eq name "levelname"
        || str_eq name "exec"
        || str_eq name "plugin"
        || str_eq name "payload"
      then panic
      else ok (count_if bad)
  first_errors name undef bad (arg x xs) =
      if (str_eq name "trigger" || str_eq name "levelname") && (undef || is_no_level x)
      then ok 1
      else ok (path_errors host sc name (sym_val x).str_val bad)

  -- The case `SFCall` behind the loop over the arguments.
  unfoldable pub call_errors : Ty → Val F → Args F → Result ℕ
  unfolding bad_type
  call_errors t v xs =
      let bad = bad_type t v.data_type in
      if str_eq v.name "set" && bad
      then set_errors xs
      else first_errors v.name (is_type_undef v.data_type) bad xs

  -- `Sym.TypeCheck`; `top` tells that the symbol is the call of an action, whose `IsAction` is off.
  unfoldable mutual
    unfolding call_errors bad_type bad_arity

    pub type_check : Ty → Marks → Bool → Sym F → Result ℕ
    type_check t m top (leaf v) = check_sym t v.data_type v.s_type
    type_check t m top (ref v) = check_sym t (type_of m (ref v)) v.s_type
    type_check t m top (fcall v none xs) = ok (action_error host sc top v.name + 1)
    type_check t m top (fcall v (some f) xs) =
        let r = check_args t m (last_of f.arg_data_types) xs in
        if bad_arity f xs
        then ok (action_error host sc top v.name + 1)
        else (r >>= λ n. call_errors t v xs >>= λ k. ok (action_error host sc top v.name + n + k))
    type_check t m top (binary v op l r) = do
      n ← type_check t m false l
      k ← type_check t m false r
      ok (n + k + count_if (bad_type t v.data_type))
    type_check t m top (unary v op r) = do
      n ← type_check t m false r
      ok (count_if (same_val v.data_type.t_val tv_string) + n + count_if (bad_type t v.data_type))

    -- The loop over the arguments. The second test on an argument is the first one again.
    pub check_args : Ty → Marks → Option Ty → Args F → Result ℕ
    check_args t m last no_args = ok 0
    check_args t m last (arg x xs) = do
      n ← type_check t m false x
      k ← and_arg last n (bad_type t (type_of m x))
      rest ← check_args t m last xs
      ok (k + rest)

-- `Decl`, and `Prog` with the variables of its environment.
pub record Decl (F : Type 0) : Type 0 where
  pub l_val : Sym F
  pub r_val : Sym F

pub record Prog (F : Type 0) : Type 0 where
  pub vars : List String
  pub levels : List (Sym F)
  pub decls : List (Decl F)
  pub rule_sects : List (RuleSect F)

-- The type of a section by its name, and whether `TypeExprFromNames` has it. The nil type of an unknown
-- name agrees with what `te_expr` agrees with, on the types that builtins and constants have.
unfoldable pub section_type : String → TypeExpr × Bool
section_type name =
    if str_eq name "Message"
    then (te_msg_graph, false)
    else if str_eq name "Msg"
    then (te_msg, true)
    else if str_eq name "Graph"
    then (te_graph, true)
    else if str_eq name "MsgGraph"
    then (te_msg_graph, true)
    else if str_eq name "External"
    then (te_external, true)
    else (te_expr, false)

-- A variable has to be set and used.
unfoldable pub check_vars : List String → Marks → ℕ
check_vars [] m = 0
check_vars (n ∷ ns) m = count_if (not ((m n).is_used && (m n).is_set)) + check_vars ns m

module _ {F : Type 0} (host : Host) (sc : Scope) where
  unfoldable pub annotate_levels : List (Sym F) → Marks → Result (List (Sym F) × Marks)
  annotate_levels [] m = ok ([], m)
  annotate_levels (s ∷ ss) m = do
    (s', m₁) ← annotate s m
    (ss', m₂) ← annotate_levels ss m₁
    ok (s' ∷ ss', m₂)

  -- `Decl.TypeCheck`.
  unfoldable pub check_decl : Marks → Decl F → ℕ
  check_decl m d =
      count_if (is_type_undef (type_of m d.r_val))
      + count_if (
          is_type_undef (type_of m d.l_val)
          || not (is_type_compat (type_of m d.l_val) (type_of m d.r_val)))

  -- The declarations: a variable is not used by being declared.
  unfoldable pub check_decls : List (Decl F) → Marks → Result (ℕ × List (Decl F) × Marks)
  unfolding check_decl mark
  check_decls [] m = ok (0, [], m)
  check_decls (d ∷ ds) m = do
    (l, m₁) ← annotate d.l_val m
    let m₂ = mark (sym_val l).name (λ k. record k { is_used = false }) m₁
    (r, m₃) ← annotate d.r_val m₂
    let d' : Decl F = record { l_val = l; r_val = r }
    (n, ds', m₄) ← check_decls ds m₃
    ok (check_decl m₃ d' + n, d' ∷ ds', m₄)

  -- The errors of an action that is no call, or the call of a function that is no action.
  abbrev pub is_call : Sym F → Bool
  is_call (fcall v f xs) = true
  is_call _ = false

  -- `IsAction`, which only calls have.
  abbrev pub is_action_call : Sym F → Bool
  is_action_call (fcall v f xs) = sc.is_action v.name
  is_action_call _ = false

  unfoldable pub action_errors : Sym F → ℕ
  action_errors s = count_if (not (is_call s)) + count_if (not (is_action_call s))

  unfoldable pub check_actions : Ty → List (Action F) → Marks → Result (ℕ × List (Action F) × Marks)
  unfolding action_errors
  check_actions t [] m = ok (0, [], m)
  check_actions t (a ∷ acts) m = do
    (s, m₁) ← annotate a.what m
    n ← type_check host sc t m₁ true s
    (k, acts', m₂) ← check_actions t acts m₁
    ok (action_errors s + n + k, record a { what = s } ∷ acts', m₂)

  unfoldable pub check_rules : Ty → List (Rule F) → Marks → Result (ℕ × List (Rule F) × Marks)
  unfolding type_of
  check_rules t [] m = ok (0, [], m)
  check_rules t (r ∷ rs) m = do
    (s, m₁) ← annotate r.expr m
    n ← type_check host sc t m₁ false s
    (k, acts, m₂) ← check_actions t r.actions m₁
    (j, rs', m₃) ← check_rules t rs m₂
    ok (
      count_if (not (same_val (type_of m₁ s).t_val tv_bool)) + n + k + j,
      record { expr = s; actions = acts } ∷ rs',
      m₃,
    )

  unfoldable pub check_sects : List (RuleSect F) → Marks → Result (ℕ × List (RuleSect F) × Marks)
  unfolding section_type
  check_sects [] m = ok (0, [], m)
  check_sects (rs ∷ rest) m = do
    let te = section_type rs.sect_name
    (n, rules, m₁) ← check_rules (record univ_type { t_expr = te.0 }) rs.rules m
    (k, rest', m₂) ← check_sects rest m₁
    ok (count_if (not (te.1)) + n + k, record rs { rules = rules } ∷ rest', m₂)

  -- `Prog.TypeCheck`.
  unfoldable pub check_prog : Prog F → Marks → Result (ℕ × Prog F × Marks)
  unfolding annotate_levels check_decls check_sects check_vars
  check_prog p m = do
    (ls, m₁) ← annotate_levels p.levels m
    (n, ds, m₂) ← check_decls p.decls m₁
    (k, ss, m₃) ← check_sects p.rule_sects m₂
    ok (n + k + check_vars p.vars m₃, record p { levels = ls; decls = ds; rule_sects = ss }, m₃)

-- `StatesCheck`: the levels that are not marked as reachable.
unfoldable pub states_check : {F : Type 0} → List (Sym F) → Marks → ℕ
states_check [] m = 0
states_check (s ∷ ss) m = count_if (not (m (sym_val s).name).is_reach) + states_check ss m
