-- ===== src/Extern/Expr/Laws.antt =====
-- extern/expr.go: what the predicates on the graph of the current message say.
use rips.Prelude.{
  ℕ, ◌≡◌, refl, ◌↔◌, ◌≢◌, ◌⊎◌, inl, inr, Bool, true, String, Option, none, some, List, In, arith,
  ◌∙◌, ap,
}
use rips.Prelude.Result.{Result, ok, panic}
use rips.Extern.Ctx.{Ctx, RosMsg, RosNode, ros_node, publishers_of, subscribers_of}
use rips.Extern.Match.{match_subset, match_all, match_subset_iff, match_all_iff, Named, Subset}
use rips.Extern.Expr.{
  publishers, publishers_include, subscribers_include, service, service_count, services,
  services_include,
}

abbrev pub SameMembers : List String → List String → Type 0
SameMembers xs ys = (a : String) → In a xs ↔ In a ys

ok_injective : (a b : Bool) → ◌≡◌ {A = Result Bool} (ok a) (ok b) → a ≡ b
ok_injective a b e = cc

-- An answer `ok b` is true exactly if `P` holds, when the test `b` is true exactly if `P` holds.
answers : {P : Type 0} (r : Result Bool) (b : Bool) → r ≡ ok b → (b ≡ true) ↔ P → (r ≡ ok true) ↔ P
answers r b e iff = (λ h. iff.0 (ok_injective b true (cc)), λ p. e ∙ ap ok (iff.1 p))

module _ (c : Ctx) (m : RosMsg) (names : List String) (given : Named names)
    (now : c.current_msg ≡ some m) where
  -- With a current message and no empty name given or publishing, `publishers` is true exactly if
  -- the names given are those of the publishers of its topic, whatever their order and repetition.
  publishers_iff :
      Named (publishers_of m m.from_topic)
      → (publishers c names ≡ ok true) ↔ SameMembers names (publishers_of m m.from_topic)
  unfolding publishers
  publishers_iff known =
      answers _ (match_all names (publishers_of m m.from_topic)) (rw now)
        (match_all_iff names (publishers_of m m.from_topic) given known)

  -- With a current message and no empty name given, `publishersinclude` is true exactly if every
  -- name given publishes on its topic.
  publishers_include_iff :
      (publishers_include c names ≡ ok true) ↔ Subset names (publishers_of m m.from_topic)
  unfolding publishers_include
  publishers_include_iff =
      answers _ (match_subset (publishers_of m m.from_topic) names) (rw now)
        (match_subset_iff (publishers_of m m.from_topic) names given)

  -- With a current message and no empty name given or subscribing, `subscribersinclude` is true
  -- exactly if every subscriber of its topic is among the names given: the other way round than
  -- `publishersinclude`.
  pub subscribers_include_iff :
      Named (subscribers_of m m.from_topic)
      → (subscribers_include c names ≡ ok true) ↔ Subset (subscribers_of m m.from_topic) names
  unfolding subscribers_include
  subscribers_include_iff known =
      answers _ (match_subset names (subscribers_of m m.from_topic)) (rw now)
        (match_subset_iff names (subscribers_of m m.from_topic) known)

module _ (c : Ctx) (node name : String) (names : List String) (min max : ℕ) where
  -- The four predicates on the services of a node, each with arguments of its own.
  abbrev pub AllPanic : Type 0
  AllPanic =
      (service c node name ≡ panic)
      × (service_count c node min max ≡ panic)
      × (services c node names ≡ panic)
      × (services_include c node names ≡ panic)

  abbrev pub NonePanics : Type 0
  NonePanics =
      (service c node name ≢ panic)
      × (service_count c node min max ≢ panic)
      × (services c node names ≢ panic)
      × (services_include c node names ≢ panic)

  services_by_node :
      (m : RosMsg) (o : Option RosNode)
      → c.current_msg ≡ some m
      → ros_node m node ≡ o
      → (o ≡ none) × AllPanic ⊎ (o ≢ none) × NonePanics
  unfolding service service_count services services_include
  services_by_node m none now e =
      inl (refl, (ground arith, ground arith, ground arith, ground arith))
  services_by_node m (some n) now e =
      inr (λ h. cc, (ground arith, ground arith, ground arith, ground arith))

  -- With a current message, `service`, `servicecount`, `services` and `servicesinclude` end in a
  -- panic if its graph has no node of the name given, and in no panic if it has one.
  pub services_panic :
      (m : RosMsg)
      → c.current_msg ≡ some m
      → (ros_node m node ≡ none) × AllPanic ⊎ (ros_node m node ≢ none) × NonePanics
  services_panic m now = services_by_node m (ros_node m node) now refl
