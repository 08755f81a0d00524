-- ===== src/Tree/Exec/Laws.antt =====
-- tree/vars.go and tree/interp.go: what the predefined variables are at the start of each message,
-- and the level behind it.
use rips.Prelude.{
  ℕ, ◌≡◌, refl, sym, ap, ◌∙◌, if◌then◌else◌, String, Option, none, some, List, [], ◌∷◌, arith, Bool,
  true, false, str_eq,
}
use mathlib.Core.Path.{subst}
use rips.Prelude.Int.{ℤ, pos, negsuc, ◌≤ℤ◌}
use rips.Prelude.Int64.{IsInt64, signed, pattern_of}
use rips.Prelude.Result.{Result, ok, ◌>>=◌}
use rips.Extern.Host.{Host}
use rips.Extern.Ctx.{Ctx}
use rips.Extern.Trigger.Reported.{InRange}
use rips.Tree.Sym.{Floats, Val}
use rips.Tree.Builtins.World.{World, get_val, set_val, lookup_var}
use rips.Tree.Chain.Invariant.{EndsIn, bind-EndsIn}
use rips.Tree.Chain.Run.{interp_prog-InRange}
use rips.Tree.Exec.{
  Times, Exec, Prog, write_int, set_int, init_level, set_curr_level, set_predef_vars, interp,
}

pattern_of-signed : (a : ℕ) → IsInt64 a → pattern_of (signed a) ≡ a
unfolding pattern_of signed
pattern_of-signed a h = ground arith

-- `r` is a result that satisfies `P`.
abbrev pub Gives : {A : Type 0} → (A → Type 0) → Result A → Type 0
Gives {A = A} P r = (x : A) × (r ≡ ok x) × P x

-- The program has a level, and its number fits.
abbrev pub HasLevel : {F : Type 0} → List (Val F) → Type 0
HasLevel [] = ⊥
HasLevel (l ∷ ls) = IsInt64 l.int_val

-- The value of an int variable.
abbrev pub int_of : {F : Type 0} → String → World F → Option ℕ
int_of name w = elim (get_val name w) [ none ↦ none | some v ↦ some v.int_val ]

module _ {F : Type 0} where
  -- The variable `CurrLevel` is the number of the level of the context.
  abbrev pub InStep : World F → Type 0
  InStep w = w.curr_level.int_val ≡ pattern_of w.ctx.curr_level

  -- What `set_curr_level` makes of a state: no other variable changes.
  abbrev Levelled : World F → World F → Type 0
  Levelled w w' = (w'.vars ≡ w.vars) × InStep w'

  init_level-Gives :
      (k : ℤ) (levels : List (Val F)) (w : World F)
      → w.ctx.curr_level ≡ k
      → w.curr_level.int_val ≡ pattern_of k
      → HasLevel levels
      → Gives (Levelled w) (init_level k levels w)
  init_level-Gives (pos n) levels w at same h = (w, refl, (refl, same ∙ ap pattern_of (sym at)))
  init_level-Gives (negsuc n) [] w at same h = elim h [ ]
  init_level-Gives (negsuc n) (l ∷ ls) w at same h =
      (_, refl, (refl, sym (pattern_of-signed l.int_val h)))

  set_curr_level-Gives :
      (levels : List (Val F)) (w : World F)
      → HasLevel levels
      → Gives (Levelled w) (set_curr_level levels w)
  unfolding set_curr_level set_int get_val set_val
  set_curr_level-Gives levels w h =
      init_level-Gives w.ctx.curr_level levels
        (record w { curr_level = record w.curr_level { int_val = pattern_of w.ctx.curr_level } })
        refl refl h

  set_int-found :
      (name : String) (n : ℕ) (w : World F) (v : Val F)
      → get_val name w ≡ some v
      → set_int name n w ≡ ok (set_val name (record v { int_val = n }) w)
  unfolding set_int
  set_int-found name n w v found = ap (λ o. write_int o name n w) found

  uptime_kept :
      (v : Val F) (w : World F) → get_val "Uptime" (set_val "Time" v w) ≡ get_val "Uptime" w
  unfolding get_val set_val lookup_var
  uptime_kept v w = refl

  time_read :
      (u v : Val F) (w : World F)
      → get_val "Time" (set_val "Uptime" u (set_val "Time" v w)) ≡ some v
  unfolding get_val set_val lookup_var
  time_read u v w = refl

  set_val-ctx : (name : String) (v : Val F) (w : World F) → (set_val name v w).ctx ≡ w.ctx
  unfolding set_val
  set_val-ctx name v w = if-ctx (str_eq name "CurrLevel")
    where
      if-ctx :
          (b : Bool)
          → (if b then record w { curr_level = v } else record w { vars = (name, v) ∷ w.vars }).ctx
            ≡ w.ctx
      if-ctx true = refl
      if-ctx false = refl

then-Gives :
    {A B : Type 0} (P : A → Type 0) (Q : B → Type 0) (r : Result A) (f : A → Result B)
    → Gives P r
    → ((x : A) → P x → Gives Q (f x))
    → Gives Q (r >>= f)
then-Gives P Q r f (x, e, p) k = let (y, e', q) = k x p in (y, ap (λ s. s >>= f) e ∙ e', q)

module _ {F T : Type 0} (times : Times T) where
  -- The predefined variables at the time `now`.
  abbrev pub Predefined : T → Exec F T → Type 0
  Predefined now e =
      InStep e.world
      × (int_of "Time" e.world ≡ some (times.unix_nano now))
      × (int_of "Uptime" e.world ≡ some (times.sub_nano now e.time_started))

  set_times-Gives :
      (now started : T) (w : World F) (t u : Val F)
      → InStep w
      → get_val "Time" w ≡ some t
      → get_val "Uptime" w ≡ some u
      → Gives (Predefined now) (
          set_int "Time" (times.unix_nano now) w >>= λ w.
          set_int "Uptime" (times.sub_nano now started) w >>= λ w.
          ok (record { world = w; time_started = started }))
  unfolding get_val set_val lookup_var
  set_times-Gives now started w t u step at_t at_u = (
    _,
    ap (λ r. r >>= rest) (set_int-found "Time" (times.unix_nano now) w t at_t)
        ∙ ap (λ r. r >>= done) (set_int-found "Uptime" (times.sub_nano now started) _ u at_u),
    (step, refl, refl),
  )
    where
      uptime : World F → Result (World F)
      uptime w = set_int "Uptime" (times.sub_nano now started) w

      done : World F → Result (Exec F T)
      done w = ok (record { world = w; time_started = started })

      rest : World F → Result (Exec F T)
      rest w = uptime w >>= done

  -- If the program has a level, whose number fits in 64 bits, and `Time` and `Uptime` are variables,
  -- `SetPredefVars` ends without an error, `CurrLevel` is the number of the level of the context,
  -- the first time and every other, `Time` is the time now and `Uptime` what has passed since the
  -- start that the context then has.
  pub set_predef_vars-Gives :
      (p : Prog F) (now : T) (e : Exec F T) (t u : Val F)
      → HasLevel p.levels
      → get_val "Time" e.world ≡ some t
      → get_val "Uptime" e.world ≡ some u
      → Gives (Predefined now) (set_predef_vars times p now e)
  unfolding set_predef_vars get_val
  set_predef_vars-Gives p now e t u h at_t at_u =
      then-Gives (Levelled e.world) (Predefined now) _ _ (set_curr_level-Gives p.levels e.world h)
        (λ w (same, step).
          set_times-Gives now _ w t u step (ap (lookup_var "Time") same ∙ at_t)
            (ap (lookup_var "Uptime") same ∙ at_u))

-- The levels of a program are numbered from 0.
abbrev pub FromZero : {F : Type 0} → List (Val F) → Type 0
FromZero [] = Unit
FromZero (l ∷ ls) = l.int_val ≡ 0

module _ {F : Type 0} where
  -- The level of the context is not above the number of levels.
  abbrev pub AtMost : World F → Type 0
  AtMost w = w.ctx.curr_level ≤ℤ pos w.ctx.n_levels

  set_int-EndsIn :
      (P : Ctx → Type 0) (name : String) (n : ℕ) (w : World F)
      → P w.ctx
      → EndsIn (λ w'. P w'.ctx) (set_int name n w)
  unfolding set_int
  set_int-EndsIn P name n w h = written (get_val name w)
    where
      written : (o : Option (Val F)) → EndsIn (λ w'. P w'.ctx) (write_int o name n w)
      written none = tt
      written (some v) = subst P (sym (set_val-ctx name (record v { int_val = n }) w)) h

  init_level-InRange :
      (k : ℤ) (levels : List (Val F)) (w : World F)
      → k ≤ℤ pos w.ctx.n_levels
      → w.ctx.curr_level ≡ k
      → FromZero levels
      → EndsIn (λ w'. InRange w'.ctx) (init_level k levels w)
  unfolding signed
  init_level-InRange (pos n) levels w h at zeroth = (
    subst (λ j. pos 0 ≤ℤ j) (sym at) (omega arith),
    subst (λ j. j ≤ℤ pos w.ctx.n_levels) (sym at) h,
  )
  init_level-InRange (negsuc n) [] w h at zeroth = tt
  init_level-InRange (negsuc n) (l ∷ ls) w h at zeroth =
      subst (λ a. (pos 0 ≤ℤ signed a) × (signed a ≤ℤ pos w.ctx.n_levels)) (sym zeroth)
        (omega arith, omega arith)

  set_curr_level-InRange :
      (levels : List (Val F)) (w : World F)
      → AtMost w
      → FromZero levels
      → EndsIn (λ w'. InRange w'.ctx) (set_curr_level levels w)
  unfolding set_curr_level set_int get_val set_val
  set_curr_level-InRange levels w h zeroth =
      init_level-InRange w.ctx.curr_level levels
        (record w { curr_level = record w.curr_level { int_val = pattern_of w.ctx.curr_level } }) h
        refl zeroth

module _ {F T : Type 0} (times : Times T) where
  -- What `SetPredefVars` does to the context it does with `CurrLevel`.
  pub set_predef_vars-EndsIn :
      (P : Ctx → Type 0) (p : Prog F) (now : T) (e : Exec F T)
      → EndsIn (λ w. P w.ctx) (set_curr_level p.levels e.world)
      → EndsIn (λ e'. P e'.world.ctx) (set_predef_vars times p now e)
  unfolding set_predef_vars
  set_predef_vars-EndsIn P p now e h = bind-EndsIn InCtx _ _ _ h (λ w₁ i₁.
      bind-EndsIn InCtx _ _ _ (set_int-EndsIn P "Time" _ w₁ i₁)
        (λ w₂ i₂. bind-EndsIn InCtx _ _ _ (set_int-EndsIn P "Uptime" _ w₂ i₂) (λ w₃ i₃. i₃)))
    where
      InCtx : World F → Type 0
      InCtx w = P w.ctx

  pub set_predef_vars-InRange :
      (p : Prog F) (now : T) (e : Exec F T)
      → AtMost e.world
      → FromZero p.levels
      → EndsIn (λ e'. InRange e'.world.ctx) (set_predef_vars times p now e)
  set_predef_vars-InRange p now e h zeroth =
      set_predef_vars-EndsIn InRange p now e (set_curr_level-InRange p.levels e.world h zeroth)

  -- If the level of the context is not above the number of levels (as before the first message, when
  -- it is -1) and the first level of the program has the number 0, the level is between 0 and the
  -- number of levels behind `Prog.Interp`, with the set-up of its variables, if that ends.
  pub interp-InRange :
      (fl : Floats F) (host : Host) (p : Prog F) (now : T) (e : Exec F T)
      → AtMost e.world
      → FromZero p.levels
      → EndsIn (λ e'. InRange e'.world.ctx) (interp times fl host p now e)
  unfolding interp
  interp-InRange fl host p now e h zeroth =
      bind-EndsIn (λ e'. InRange e'.world.ctx) _ _ _ (set_predef_vars-InRange p now e h zeroth)
        (λ e₁ i₁.
          bind-EndsIn (λ w. InRange w.ctx) _ _ _
            (interp_prog-InRange fl host p.rule_sects e₁.world.ctx.current_msg e₁.world i₁)
            (λ w i. i))
