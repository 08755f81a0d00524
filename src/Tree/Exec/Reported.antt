-- ===== src/Tree/Exec/Reported.antt =====
-- tree/vars.go and tree/interp.go: the level that the engine reported last, over a run on a message.
use rips.Prelude.{ℕ, ◌≡◌, sym, List, [], ◌∷◌, arith}
use mathlib.Core.Path.{subst}
use rips.Prelude.Int.{ℤ, pos, negsuc, ◌≤ℤ◌}
use rips.Prelude.Int64.{signed, pattern_of}
use rips.Extern.Host.{Host}
use rips.Extern.Ctx.{Ctx}
use rips.Extern.Trigger.Reported.{IsReported}
use rips.Tree.Sym.{Floats, Val}
use rips.Tree.Builtins.World.{World, get_val, set_val}
use rips.Tree.Chain.Invariant.{EndsIn, bind-EndsIn}
use rips.Tree.Chain.Run.{interp_prog-IsReported}
use rips.Tree.Exec.{Times, Exec, Prog, set_int, init_level, set_curr_level, interp}
use rips.Tree.Exec.Laws.{FromZero, set_predef_vars-EndsIn}

not_negative : (n : ℕ) → pos 0 ≤ℤ negsuc n → ⊥
not_negative n h = omega arith

module _ {F : Type 0} (P : Ctx → Type 0) where
  -- From the second message on, the context stays as it is.
  init_level-EndsIn :
      (k : ℤ) (levels : List (Val F)) (w : World F)
      → pos 0 ≤ℤ k
      → P w.ctx
      → EndsIn (λ w'. P w'.ctx) (init_level k levels w)
  init_level-EndsIn (pos n) levels w k≥0 h = h
  init_level-EndsIn (negsuc n) levels w k≥0 h = absurd (not_negative n k≥0)

  set_curr_level-later :
      (levels : List (Val F)) (w : World F)
      → pos 0 ≤ℤ w.ctx.curr_level
      → P w.ctx
      → EndsIn (λ w'. P w'.ctx) (set_curr_level levels w)
  unfolding set_curr_level set_int get_val set_val
  set_curr_level-later levels w nonneg h = init_level-EndsIn w.ctx.curr_level levels _ nonneg h

  first_level-EndsIn :
      (levels : List (Val F)) (w : World F)
      → FromZero levels
      → P (record w.ctx { curr_level = pos 0 })
      → EndsIn (λ w'. P w'.ctx) (init_level (negsuc 0) levels w)
  unfolding signed
  first_level-EndsIn [] w zeroth h = tt
  first_level-EndsIn (l ∷ ls) w zeroth h =
      subst (λ a. P (record w.ctx { curr_level = signed a })) (sym zeroth) h

  pub set_curr_level-first :
      (levels : List (Val F)) (w : World F)
      → w.ctx.curr_level ≡ negsuc 0
      → FromZero levels
      → P (record w.ctx { curr_level = pos 0 })
      → EndsIn (λ w'. P w'.ctx) (set_curr_level levels w)
  unfolding set_curr_level set_int get_val set_val
  set_curr_level-first levels w at zeroth h =
      subst (λ k. EndsIn (λ w'. P w'.ctx) (init_level k levels written)) (sym at)
        (first_level-EndsIn levels written zeroth h)
    where
      written : World F
      written = record w {
        curr_level = record w.curr_level { int_val = pattern_of w.ctx.curr_level };
      }

module _ {F T : Type 0} (times : Times T) (fl : Floats F) (host : Host) (p : Prog F) where
  -- If the level of the context is not negative, and is the one that the engine reported last (or, before
  -- any report of a level, the level `n`), it still is behind `Prog.Interp`, with the set-up of its
  -- variables, if that ends.
  pub interp-IsReported :
      (n : ℤ) (now : T) (e : Exec F T)
      → pos 0 ≤ℤ e.world.ctx.curr_level
      → IsReported n e.world.ctx
      → EndsIn (λ e'. IsReported n e'.world.ctx) (interp times fl host p now e)
  unfolding interp
  interp-IsReported n now e nonneg h =
      bind-EndsIn (λ e'. IsReported n e'.world.ctx) _ _ _
        (set_predef_vars-EndsIn times (IsReported n) p now e
          (set_curr_level-later (IsReported n) p.levels e.world nonneg h))
        (λ e₁ i₁.
          bind-EndsIn (λ w. IsReported n w.ctx) _ _ _
            (interp_prog-IsReported fl host p.rule_sects e₁.world.ctx.current_msg e₁.world n i₁)
            (λ w i. i))
