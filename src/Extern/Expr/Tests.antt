-- ===== src/Extern/Expr/Tests.antt =====
-- extern/expr.go: the theorems at a message of the topic /camera.
use rips.Prelude.{◌≡◌, refl, ◌↔◌, ◌≢◌, ◌⊎◌, true, none, String, List, [], ◌∷◌, arith, str_eq_iff}
use rips.Prelude.Result.{ok}
use rips.Extern.Ctx.{ros_node, ros_topic, subscribers_of}
use rips.Extern.Match.{Named, Subset}
use rips.Extern.Expr.{subscribers_include}
use rips.Extern.Expr.Laws.{subscribers_include_iff, services_panic, AllPanic, NonePanics}
use rips.Fixtures.{running_ctx, camera_msg}

abbrev cams : List String
cams = "/cam2" ∷ "/cam" ∷ []

cams-Named : Named cams
cams-Named = (ground (arith, str_eq_iff "/cam2" ""), (ground (arith, str_eq_iff "/cam" ""), tt))

viewers-Named : Named (subscribers_of camera_msg "/camera")
unfolding subscribers_of ros_topic
viewers-Named = (ground (arith, str_eq_iff "/view" ""), tt)

subscribers_include_iff_example :
    (subscribers_include running_ctx cams ≡ ok true)
    ↔ Subset (subscribers_of camera_msg "/camera") cams
subscribers_include_iff_example =
    subscribers_include_iff running_ctx camera_msg cams cams-Named refl viewers-Named

services_panic_example :
    (ros_node camera_msg "/none" ≡ none) × AllPanic running_ctx "/none" "/reset" cams 0 1
    ⊎ (ros_node camera_msg "/none" ≢ none) × NonePanics running_ctx "/none" "/reset" cams 0 1
services_panic_example = services_panic running_ctx "/none" "/reset" cams 0 1 camera_msg refl
