-- ===== src/Extern/Trigger/Reported.antt =====
-- extern/actions.go and extern/expr.go: the level of the context against the reports and the bounds.
use rips.Prelude.{◌≡◌, Bool, String, List, [], ◌∷◌, arith}
use rips.Prelude.Int.{ℤ, pos, ◌≤ℤ◌}
use rips.Extern.Host.{Host}
use rips.Extern.Ctx.{Ctx, Report, alerted, changed_level}
use rips.Extern.Expr.{signal}
use rips.Extern.Trigger.{alert, exec, trigger}
use rips.Extern.Trigger.Laws.{reports, trigger_succeeds, trigger_fails, trigger-n_levels}

-- The level of the latest report of a change, or the one given if there is none.
unfoldable pub reported_level : ℤ → List Report → ℤ
reported_level n [] = n
reported_level n (alerted msg ∷ rest) = reported_level n rest
reported_level n (changed_level name i max ∷ rest) = i

-- The level of the context is the one that was reported last, `n` before any report.
abbrev pub IsReported : ℤ → Ctx → Type 0
IsReported n c = c.curr_level ≡ reported_level n (reports c.effects)

-- The level of the context is between 0 and the number of levels.
abbrev pub InRange : Ctx → Type 0
InRange c = (pos 0 ≤ℤ c.curr_level) × (c.curr_level ≤ℤ pos c.n_levels)

signal-same :
    (c : Ctx) (sig : String)
    → ((signal c sig).0.curr_level ≡ c.curr_level)
      × ((signal c sig).0.n_levels ≡ c.n_levels)
      × ((signal c sig).0.effects ≡ c.effects)
unfolding signal
signal-same c sig = (ground arith, ground arith, ground arith)

module _ (host : Host) (n : ℤ) (c : Ctx) where
  pub alert-IsReported : (s : String) → IsReported n c → IsReported n (alert c s).0
  unfolding alert reports reported_level
  alert-IsReported s h = h

  pub exec-IsReported :
      (path : String) (arguments : List String)
      → IsReported n c
      → IsReported n (exec host c path arguments).0
  unfolding exec reports reported_level
  exec-IsReported path arguments h = h

  pub signal-IsReported : (s : String) → IsReported n c → IsReported n (signal c s).0
  signal-IsReported s h = ground (arith, signal-same c s)

  pub trigger-IsReported :
      (levelto : String) (levelidto : ℤ) (levelfrom : String) (levelidfrom : ℤ) (fromsoft : Bool)
      → IsReported n c
      → IsReported n (trigger host c levelto levelidto levelfrom levelidfrom fromsoft).0
  unfolding reported_level
  trigger-IsReported levelto levelidto levelfrom levelidfrom fromsoft h =
      let yes_case = trigger_succeeds host c levelto levelidto levelfrom levelidfrom fromsoft in
      let no_case = trigger_fails host c levelto levelidto levelfrom levelidfrom fromsoft in
      ground (arith, yes_case, no_case)

module _ (host : Host) (c : Ctx) where
  pub alert-InRange : (s : String) → InRange c → InRange (alert c s).0
  unfolding alert
  alert-InRange s h = h

  pub exec-InRange :
      (path : String) (arguments : List String) → InRange c → InRange (exec host c path arguments).0
  unfolding exec
  exec-InRange path arguments h = h

  pub signal-InRange : (s : String) → InRange c → InRange (signal c s).0
  signal-InRange s h = ground (arith, signal-same c s)

  pub trigger-InRange :
      (levelto : String) (levelidto : ℤ) (levelfrom : String) (levelidfrom : ℤ) (fromsoft : Bool)
      → InRange c
      → InRange (trigger host c levelto levelidto levelfrom levelidfrom fromsoft).0
  trigger-InRange levelto levelidto levelfrom levelidfrom fromsoft h =
      let yes_case = trigger_succeeds host c levelto levelidto levelfrom levelidfrom fromsoft in
      let no_case = trigger_fails host c levelto levelidto levelfrom levelidfrom fromsoft in
      let same = trigger-n_levels host c levelto levelidto levelfrom levelidfrom fromsoft in
      ground (arith, yes_case, no_case, same)
