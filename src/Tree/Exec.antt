-- ===== src/Tree/Exec.antt =====
-- tree/vars.go and tree/interp.go: a run of a program on a message, with the predefined variables
-- that are set before it. Times are of Go's package time and the clock of the machine is read by the
-- caller. `s.Val.IntVal = n` is a write through a pointer: behind a trigger it is the level of the
-- program itself, whose number that is already.
pub mod Laws
pub mod Reported
mod Tests
use rips.Prelude.{ℕ, if◌then◌else◌, String, Option, none, some, List, [], ◌∷◌}
use rips.Prelude.Int.{ℤ, pos, negsuc}
use rips.Prelude.Int64.{signed, pattern_of}
use rips.Prelude.Result.{Result, ok, panic, ◌>>=◌}
use rips.Extern.Host.{Host}
use rips.Tree.Sym.{Floats, Val}
use rips.Tree.Builtins.World.{World, get_val, set_val}
use rips.Tree.Builtins.Table.{machine}
use rips.Tree.Chain.{RuleSect, interp_prog}

-- What the program uses of `time.Time`: `UnixNano`, and `Sub` with `Nanoseconds`, both an int64.
pub record Times (T : Type 0) : Type 0 where
  pub unix_nano : T → ℕ
  pub sub_nano : T → T → ℕ

-- The state of the run with the field `TimeStarted` of the context.
pub record Exec (F T : Type 0) : Type 0 where
  pub world : World F
  pub time_started : T

-- What a run needs of `Prog`.
pub record Prog (F : Type 0) : Type 0 where
  pub levels : List (Val F)
  pub rule_sects : List (RuleSect F)

-- The time at which the run started.
abbrev pub init_time : {T : Type 0} → ℤ → T → T → T
init_time (pos n) now started = started
init_time (negsuc n) now started = now

module _ {F : Type 0} where
  -- `s.Val.IntVal = n` for the variable of that name; no such variable is an error, on which the
  -- callers panic.
  abbrev pub write_int : Option (Val F) → String → ℕ → World F → Result (World F)
  write_int none name n w = panic
  write_int (some v) name n w = ok (set_val name (record v { int_val = n }) w)

  unfoldable pub set_int : String → ℕ → World F → Result (World F)
  set_int name n w = write_int (get_val name w) name n w

  -- `s.Val = p.Levels[0]`, and the context with its number.
  abbrev pub first_level : List (Val F) → World F → Result (World F)
  first_level [] w = panic
  first_level (l ∷ ls) w =
      ok (record w { curr_level = l; ctx = record w.ctx { curr_level = signed l.int_val } })

  -- What the level of the context, before the call, decides: a negative one is the first time.
  abbrev pub init_level : ℤ → List (Val F) → World F → Result (World F)
  init_level (pos n) levels w = ok w
  init_level (negsuc n) levels w = first_level levels w

  -- The part of `CurrLevel`.
  unfoldable pub set_curr_level : List (Val F) → World F → Result (World F)
  set_curr_level levels w =
      set_int "CurrLevel" (pattern_of w.ctx.curr_level) w >>= init_level w.ctx.curr_level levels

module _ {F T : Type 0} (times : Times T) where
  unfoldable pub set_predef_vars : Prog F → T → Exec F T → Result (Exec F T)
  set_predef_vars p now e =
      let started = init_time e.world.ctx.curr_level now e.time_started in
      set_curr_level p.levels e.world >>= λ w. set_int "Time" (times.unix_nano now) w >>= λ w.
      set_int "Uptime" (times.sub_nano now started) w >>= λ w.
      ok (record { world = w; time_started = started })

  -- `Prog.Interp`.
  unfoldable pub interp : Floats F → Host → Prog F → T → Exec F T → Result (Exec F T)
  interp fl host p now e = set_predef_vars p now e >>= λ e.
      interp_prog fl (machine fl host) p.rule_sects e.world.ctx.current_msg e.world >>= λ w.
      ok (record e { world = w })
