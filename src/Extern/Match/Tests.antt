-- ===== src/Extern/Match/Tests.antt =====
-- extern/expr.go: the theorems at concrete lists of names.
use rips.Prelude.{◌≡◌, ◌↔◌, true, String, List, [], ◌∷◌, In, arith, str_eq_iff}
use rips.Extern.Match.{match_all, match_all_iff, Named}

abbrev two_names : List String
two_names = "/cam" ∷ "/view" ∷ []

abbrev one_name : List String
one_name = "/view" ∷ []

two_names-Named : Named two_names
two_names-Named =
    (ground (arith, str_eq_iff "/cam" ""), (ground (arith, str_eq_iff "/view" ""), tt))

one_name-Named : Named one_name
one_name-Named = (ground (arith, str_eq_iff "/view" ""), tt)

match_all_iff_example :
    (match_all two_names one_name ≡ true) ↔ ((a : String) → In a two_names ↔ In a one_name)
match_all_iff_example = match_all_iff two_names one_name two_names-Named one_name-Named
