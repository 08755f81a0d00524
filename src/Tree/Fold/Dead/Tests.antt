-- ===== src/Tree/Fold/Dead/Tests.antt =====
-- tree/const.go: the deletion of dead code on two chains.
use rips.Prelude.{ℕ, Option, List, [], ◌∷◌}
use rips.Lex.Token.{tok_then, tok_comma}
use rips.Tree.Chain.{Action}
use rips.Tree.Fold.Dead.Live.{set_x, alert_x}
use rips.Fixtures.{sample_floats}

abbrev chain : List (Action (Option ℕ))
chain =
    record { con = tok_comma; what = set_x sample_floats 1 }
    ∷ record { con = tok_then; what = alert_x sample_floats }
    ∷ record { con = tok_then; what = set_x sample_floats 2 }
    ∷ []
