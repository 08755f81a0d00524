-- ===== src/Tree/Fold/Dead/Ends.antt =====
-- tree/const.go: the passes over a chain come to an end, and leave no constants.
use rips.Prelude.{
  ℕ, ◌+◌, ◌≤◌, ◌≡◌, Bool, false, ◌&&◌, if◌then◌else◌, str_eq, Option, none, some, List, [], ◌∷◌,
}
use rips.Prelude.Result.{Result, ok, fatal, panic}
use rips.Extern.Host.{Host}
use rips.Tree.Sym.{Floats, Sym, sym_val}
use rips.Tree.Chain.{Action}
use rips.Tree.Fold.{is_constant}
use rips.Tree.Fold.Dead.{Kept, Pass}

-- What an action weighs: a constant, which the next pass deletes, less than another one.
abbrev weight_if : Bool → ℕ
weight_if b = if b then 1 else 2

abbrev weigh : {F : Type 0} → List (Action F) → ℕ
weigh [] = 0
weigh (a ∷ acts) = weight_if (is_constant a.what) + weigh acts

abbrev weigh_kept : {F : Type 0} → Kept F → ℕ
weigh_kept [] = 0
weigh_kept ((i, a) ∷ ks) = weight_if (is_constant a.what) + weigh_kept ks

-- No action that is kept is a constant called `set`.
abbrev Good : {F : Type 0} → Kept F → Type 0
Good [] = Unit {0}
Good ((i, a) ∷ ks) = ((is_constant a.what && str_eq (sym_val a.what).name "set") ≡ false) × Good ks

abbrev Lasting : {F : Type 0} → Kept F → Type 0
Lasting [] = Unit {0}
Lasting ((i, a) ∷ ks) = (is_constant a.what ≡ false) × Lasting ks

abbrev pub NoConstants : {F : Type 0} → List (Action F) → Type 0
NoConstants [] = Unit {0}
NoConstants (a ∷ acts) = (is_constant a.what ≡ false) × NoConstants acts

abbrev bit : Bool → ℕ
bit b = if b then 1 else 0

-- What a pass over actions of the weight `w` keeps.
record Inv {F : Type 0} (w : ℕ) (p : Pass F) : Type 0 where
  good : Good p.kept
  light : weigh_kept p.kept + bit p.nd ≤ w
  lasting : p.nd ≡ false → Lasting p.kept

module _ {F : Type 0} (fl : Floats F) where
  -- What a computation of a pass gives, if it gives one.
  abbrev Gives : ℕ → Result (Pass F) → Type 0
  Gives w (ok p) = Inv w p
  Gives w fatal = Unit {0}
  Gives w panic = Unit {0}

  abbrev Gives2 : ℕ → Result (Bool × Pass F) → Type 0
  Gives2 w (ok p) = Inv w p.1
  Gives2 w fatal = Unit {0}
  Gives2 w panic = Unit {0}

  module _ (host : Host) where
    -- There was fuel enough, and the chain has no constants. A `set` without arguments panics.
    abbrev pub Settles : Result (Option (ℕ × List (Action F))) → Type 0
    Settles (ok none) = ⊥
    Settles (ok (some (n, acts))) = NoConstants acts
    Settles fatal = Unit {0}
    Settles panic = Unit {0}
