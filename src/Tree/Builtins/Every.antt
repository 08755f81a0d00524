-- ===== src/Tree/Builtins/Every.antt =====
-- tree/builtins.go: what holds of every entry of the table holds of the one that a call finds.
use rips.Prelude.{
  ◌≡◌, sym, refl, String, Option, none, some, List, [], ◌∷◌, ◌++◌, All, str_eq, inl, inr,
  Bool-cases,
}
use rips.Prelude.Result.{panic}
use rips.Extern.Host.{Host}
use rips.Tree.Sym.{Floats}
use rips.Tree.Eval.{Actual}
use rips.Tree.Builtins.World.{World}
use rips.Tree.Builtins.Table.{
  Builtin, builtins, call_builtin, find_builtin, action_builtins, msg_builtins, graph_builtins,
  other_builtins,
}

-- Proofs for the entries of a table, in its order.
infixr 3 ◌&◌
abbrev pub ◌&◌ : {A B : Type 0} → A → B → A × B
a & b = (a, b)

All-++ : {A : Type 0} (P : A → Type 0) (xs ys : List A) → All P xs → All P ys → All P (xs ++ ys)
All-++ P [] ys h k = k
All-++ P (x ∷ xs) ys h k = (h.0, All-++ P xs ys h.1 k)

module _ {F : Type 0} (fl : Floats F) (host : Host) (P : Builtin F → Type 0) where
  pub All-builtins :
      All P (action_builtins fl host)
      → All P (msg_builtins fl host)
      → All P (graph_builtins fl host)
      → All P (other_builtins fl host)
      → All P (builtins fl host)
  unfolding builtins
  All-builtins a m g o =
      let graph_on = graph_builtins fl host ++ other_builtins fl host in
      All-++ P (action_builtins fl host) (msg_builtins fl host ++ graph_on) a (
        All-++ P (msg_builtins fl host) graph_on m
          (All-++ P (graph_builtins fl host) (other_builtins fl host) g o))

  same : (b c : Builtin F) → ◌≡◌ {A = Option (Builtin F)} (some b) (some c) → b ≡ c
  same b c e = cc

  pub find_builtin-All :
      (n : String) (list : List (Builtin F)) (b : Builtin F)
      → All P list
      → find_builtin n list ≡ some b
      → P b
  unfolding find_builtin
  find_builtin-All n [] b h e = absurd (the_same e)
    where
      the_same : ◌≡◌ {A = Option (Builtin F)} none (some b) → ⊥
      the_same k = cc
  find_builtin-All n (c ∷ rest) b h e = elim (Bool-cases (str_eq c.name n)) [
    | inl k ↦ rw (sym (same c b (rw k at e))) h.0
    | inr k ↦ find_builtin-All n rest b h.1 (rw k at e)
  ]

  on_entry :
      (o : Option (Builtin F)) (b : Builtin F) (xs : List (Actual F)) (w : World F)
      → o ≡ some b
      → elim o [ none ↦ panic | some c ↦ c.fn xs w ] ≡ b.fn xs w
  on_entry none b xs w e = cc
  on_entry (some c) b xs w e = rw (same c b e) refl

  pub call_builtin-find_builtin :
      (n : String) (b : Builtin F) (xs : List (Actual F)) (w : World F)
      → find_builtin n (builtins fl host) ≡ some b
      → call_builtin fl host n xs w ≡ b.fn xs w
  unfolding call_builtin
  call_builtin-find_builtin n b xs w e = on_entry (find_builtin n (builtins fl host)) b xs w e
