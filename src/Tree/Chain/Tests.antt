-- ===== src/Tree/Chain/Tests.antt =====
-- tree/interp.go: the theorems at a chain of three actions and at programs with one rule to a section.
use rips.Prelude.{ℕ, ◌≡◌, true, Option, none}
use rips.Prelude.Result.{panic}
use rips.Lex.Token.{tok_comma}
use rips.Tree.Sym.{Sym, leaf, new_bool}
use rips.Tree.Eval.{Machine}
use rips.Tree.Chain.{run_actions}
use rips.Tree.Chain.Laws.{
  Ruler, link, last, thens, nthens, actions_of, run_ruler, run_actions-run_ruler,
}
use rips.Fixtures.{sample_floats}

abbrev machine : Machine (Option ℕ) (Unit {0})
machine = record { get_val = λ n w. none; call = λ n xs w. panic }

abbrev yes_action : Sym (Option ℕ)
yes_action = leaf (new_bool sample_floats true)

abbrev chain : Ruler (Option ℕ)
chain = link yes_action thens (link yes_action nthens (last yes_action))

run_actions-run_ruler_example :
    run_actions sample_floats machine true (actions_of tok_comma chain) tt
    ≡ run_ruler sample_floats machine chain tt
run_actions-run_ruler_example = run_actions-run_ruler sample_floats machine chain tt
