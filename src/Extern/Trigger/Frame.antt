-- ===== src/Extern/Trigger/Frame.antt =====
-- extern/actions.go and extern/expr.go: what the operations that write to the context leave alone.
use rips.Prelude.{ℕ, ◌≤◌, ◌≡◌, refl, Bool, true, not, String, Option, List, [], ◌∷◌, ◌∙◌, arith}
use rips.Prelude.Int.{ℤ}
use rips.Extern.Host.{Host}
use rips.Extern.Ctx.{Ctx, Effect, RosMsg, ran, sent, changed_level}
use rips.Extern.Expr.{signal}
use rips.Extern.Trigger.{
  max_level, alert, exec, trigger, change_level, run_scripts, enter_level, add_effect, script_from,
  script_to,
}

-- The second list is the first with more effects on it.
pub data Extends (old : List Effect) : List Effect → Type 0 where
  same : Extends old old
  more : (e : Effect) (es : List Effect) → Extends old es → Extends old (e ∷ es)

-- What no rule can change: the message, the folder of the scripts, the levels and the logs.
abbrev pub settings : Ctx → Option RosMsg × String × ℕ × List String × List String
settings c = (c.current_msg, c.scripts_path, c.n_levels, c.levels, c.paths)

-- What holds between the context before a message and the one after it.
pub record Frame (c₀ c : Ctx) : Type 0 where
  pub kept : settings c ≡ settings c₀
  pub signals : (c.nusr1 ≤ c₀.nusr1) × (c.nusr2 ≤ c₀.nusr2)
  pub started : c₀.init ≡ true → c.init ≡ true
  pub extends : Extends c₀.effects c.effects

pub Frame-refl : (c : Ctx) → Frame c c
Frame-refl c = record {
  kept = refl;
  signals = (omega arith, omega arith);
  started = λ h. h;
  extends = same;
}

signal-settings : (c : Ctx) (sig : String) → settings (signal c sig).0 ≡ settings c
unfolding signal
signal-settings c sig = ground arith

signal-init : (c : Ctx) (sig : String) → (signal c sig).0.init ≡ c.init
unfolding signal
signal-init c sig = ground arith

signal-effects : (c : Ctx) (sig : String) → (signal c sig).0.effects ≡ c.effects
unfolding signal
signal-effects c sig = ground arith

signal-counters :
    (c : Ctx) (sig : String)
    → ((signal c sig).0.nusr1 ≤ c.nusr1) × ((signal c sig).0.nusr2 ≤ c.nusr2)
unfolding signal
signal-counters c sig = (ground arith, ground arith)

module _ (host : Host) (c₀ : Ctx) where
  add_effect-Frame : (c : Ctx) (e : Effect) → Frame c₀ c → Frame c₀ (add_effect c e)
  add_effect-Frame c e f = record {
    kept = f.kept;
    signals = f.signals;
    started = f.started;
    extends = more e c.effects f.extends;
  }

  set_level-Frame : (c : Ctx) (n : ℤ) → Frame c₀ c → Frame c₀ (record c { curr_level = n })
  set_level-Frame c n f = record {
    kept = f.kept;
    signals = f.signals;
    started = f.started;
    extends = f.extends;
  }

  set_init-Frame : (c : Ctx) → Frame c₀ c → Frame c₀ (record c { init = true })
  set_init-Frame c f = record {
    kept = f.kept;
    signals = f.signals;
    started = λ h. refl;
    extends = f.extends;
  }

  pub alert-Frame : (c : Ctx) (msg : String) → Frame c₀ c → Frame c₀ (alert c msg).0
  unfolding alert
  alert-Frame c msg f = add_effect-Frame c _ f

  pub exec-Frame :
      (c : Ctx) (path : String) (arguments : List String)
      → Frame c₀ c
      → Frame c₀ (exec host c path arguments).0
  unfolding exec
  exec-Frame c path arguments f = add_effect-Frame c _ f

  pub signal-Frame : (c : Ctx) (sig : String) → Frame c₀ c → Frame c₀ (signal c sig).0
  signal-Frame c sig f = record {
    kept = signal-settings c sig ∙ f.kept;
    signals = (
      omega (arith, f.signals, signal-counters c sig),
      omega (arith, f.signals, signal-counters c sig),
    );
    started = λ h. signal-init c sig ∙ f.started h;
    extends = rw (signal-effects c sig) f.extends;
  }

  module _ (levelto : String) (levelidto : ℤ) (levelfrom : String) where
    enter_level-Frame :
        (c : Ctx) → Frame c₀ c → Frame c₀ (enter_level host c levelto levelidto levelfrom).0
    unfolding enter_level
    enter_level-Frame c f =
        let f' = add_effect-Frame c (ran (script_to c levelto) (levelto ∷ levelfrom ∷ [])) f in
        let max = max_level (add_effect c (ran (script_to c levelto) (levelto ∷ levelfrom ∷ []))) in
        ground (
          arith,
          f',
          add_effect-Frame _ (sent (changed_level levelto levelidto max))
              (set_level-Frame _ levelidto f'),
        )

    run_scripts-Frame :
        (c : Ctx) (isfirst : Bool)
        → Frame c₀ c
        → Frame c₀ (run_scripts host c isfirst levelto levelidto levelfrom).0
    unfolding run_scripts
    run_scripts-Frame c isfirst f =
        let f' = add_effect-Frame c (ran (script_from c levelfrom) (levelto ∷ levelfrom ∷ [])) f in
        ground (arith, f', enter_level-Frame c f, enter_level-Frame _ f')

    change_level-Frame :
        (c : Ctx) (isfirst : Bool) (levelidfrom : ℤ) (fromsoft : Bool)
        → Frame c₀ c
        → Frame c₀ (change_level host c isfirst levelto levelidto levelfrom levelidfrom fromsoft).0
    unfolding change_level
    change_level-Frame c isfirst levelidfrom fromsoft f =
        ground (arith, f, run_scripts-Frame c isfirst f)

  pub trigger-Frame :
      (c : Ctx) (levelto : String) (levelidto : ℤ) (levelfrom : String) (levelidfrom : ℤ)
      (fromsoft : Bool)
      → Frame c₀ c
      → Frame c₀ (trigger host c levelto levelidto levelfrom levelidfrom fromsoft).0
  unfolding trigger
  trigger-Frame c levelto levelidto levelfrom levelidfrom fromsoft f = ground (
    arith,
    f,
    change_level-Frame levelto levelidto levelfrom _ (not c.init) levelidfrom fromsoft
        (set_init-Frame c f),
  )
