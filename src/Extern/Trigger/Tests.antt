-- ===== src/Extern/Trigger/Tests.antt =====
-- extern/actions.go: the theorems at an engine with two levels.
use rips.Prelude.{◌≡◌, refl, ◌≢◌, ◌⊎◌, true, false, String, ◌∷◌, arith, str_eq_iff}
use rips.Prelude.Int.{pos, ◌≤ℤ◌}
use rips.Extern.Ctx.{changed_level}
use rips.Extern.Trigger.{trigger, max_level}
use rips.Extern.Trigger.Laws.{
  trigger_succeeds, trigger_fails, trigger_beyond_last, IsPermitted, reports, after,
}
use rips.Fixtures.{running_ctx, willing_host}

-- From DEFAULT to ALERT.
rises : (after willing_host running_ctx "ALERT" (pos 1) "DEFAULT" (pos 0) false).1 ≡ true
unfolding trigger
rises = refl

trigger_succeeds_example :
    let r = after willing_host running_ctx "ALERT" (pos 1) "DEFAULT" (pos 0) false in
    (r.0 ≡ running_ctx) × (◌≡◌ {A = String} "ALERT" "DEFAULT") × (true ≡ true)
    ⊎ (r.0.curr_level ≡ pos 1)
      × (reports r.0.effects
          ≡ changed_level "ALERT" (pos 1) (max_level running_ctx) ∷ reports running_ctx.effects)
      × (pos 0 ≤ℤ pos 1)
      × (pos 1 ≤ℤ pos 2)
      × IsPermitted false (pos 0) (pos 1) false
trigger_succeeds_example =
    trigger_succeeds willing_host running_ctx "ALERT" (pos 1) "DEFAULT" (pos 0) false rises

-- From ALERT, which is not soft, back to DEFAULT.
stays : (after willing_host running_ctx "DEFAULT" (pos 0) "ALERT" (pos 1) false).1 ≡ false
unfolding trigger
stays = refl

trigger_fails_example :
    let r = after willing_host running_ctx "DEFAULT" (pos 0) "ALERT" (pos 1) false in
    (r.0.curr_level ≡ running_ctx.curr_level) × (reports r.0.effects ≡ reports running_ctx.effects)
trigger_fails_example =
    trigger_fails willing_host running_ctx "DEFAULT" (pos 0) "ALERT" (pos 1) false stays

texts_differ : ◌≢◌ {A = String} "NONE" "ALERT"
texts_differ = ground (arith, str_eq_iff "NONE" "ALERT")

trigger_beyond_last_example :
    (trigger willing_host running_ctx "NONE" (pos 2) "ALERT" (pos 1) false).0.curr_level ≡ pos 2
trigger_beyond_last_example =
    trigger_beyond_last willing_host running_ctx "NONE" "ALERT" (pos 1) false (λ p. refl)
      (λ p xs. refl) (ground (arith, str_eq_iff "/etc/rips/scripts" "")) refl texts_differ
      (omega arith)
