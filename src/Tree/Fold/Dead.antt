-- ===== src/Tree/Fold/Dead.antt =====
-- tree/const.go: the deletion of dead code in the rules, in `Prog.Fold`. An action is a pointer in the
-- source: here it is known by its place in the chain that a pass goes through.
pub mod Ends
pub mod Live
mod Tests
use rips.Prelude.{
  ℕ, zero, suc, ◌+◌, ◌*◌, Bool, true, false, not, ◌&&◌, ◌||◌, ◌==◌, if◌then◌else◌, str_eq, String,
  Option, none, some, List, [], ◌∷◌, length,
}
use rips.Prelude.Result.{Result, ok, fatal, panic, ◌>>=◌}
use rips.Lex.Token.{TokType, same_tok, tok_then, tok_nthen}
use rips.Extern.Host.{Host}
use rips.Tree.Sym.{
  Floats, Val, Sym, leaf, ref, fcall, binary, unary, Args, no_args, arg, SType, s_const, sym_val,
  s_type_of, new_bool,
}
use rips.Tree.Chain.{Action, Rule, RuleSect}
use rips.Tree.Fold.{fold, is_constant}

-- `vardesc`, without `whereused`, which is not read.
pub record VarDesc : Type 0 where
  pub whereset : ℕ
  pub is_set : Bool
  pub is_used : Bool

abbrev pub VarDescs : Type 0
VarDescs = List (String × VarDesc)

abbrev pub find_var : String → VarDescs → Option VarDesc
find_var n [] = none
find_var n ((x, d) ∷ ds) = let rest = find_var n ds in if str_eq x n then some d else rest

-- The entry of a name, where there is one.
abbrev pub change_var : String → (VarDesc → VarDesc) → VarDescs → VarDescs
change_var n f [] = []
change_var n f ((x, d) ∷ ds) =
    let rest = change_var n f ds in if str_eq x n then (x, f d) ∷ ds else (x, d) ∷ rest

abbrev pub note_set : ℕ → String → Option VarDesc → VarDescs → VarDescs
note_set a n none ds = (n, record { whereset = a; is_set = true; is_used = false }) ∷ ds
note_set a n (some d) ds = change_var n (λ x. record x { is_set = true }) ds

-- The actions that a pass keeps, the latest first, with their places.
abbrev pub Kept : Type 0 → Type 0
Kept F = List (ℕ × Action F)

-- The chain that is kept, the variables, `nd`, and the errors.
pub record Pass (F : Type 0) : Type 0 where
  pub kept : List (ℕ × Action F)
  pub vds : VarDescs
  pub nd : Bool
  pub nerr : ℕ

module _ {F : Type 0} where
  -- `expr.Args[0].Name`.
  abbrev pub first_name : Args F → Result String
  first_name no_args = panic
  first_name (arg x xs) = ok (sym_val x).name

  -- `setused` of the action `a`. It returns at once from a symbol without an `Expr`, which every variable
  -- is, and so never comes to its case for variables.
  unfoldable mutual
    pub set_used : ℕ → Sym F → VarDescs → Result VarDescs
    set_used a (leaf v) ds = ok ds
    set_used a (ref v) ds = ok ds
    set_used a (fcall v f xs) ds =
        let r = first_name xs >>= λ n. set_used_args a xs (note_set a n (find_var n ds) ds) in
        if str_eq v.name "set" then r else ok ds
    set_used a (binary v op l r) ds = do ds₁ ← set_used a r ds; set_used a l ds₁
    set_used a (unary v op r) ds = set_used a r ds

    pub set_used_args : ℕ → Args F → VarDescs → Result VarDescs
    set_used_args a no_args ds = ok ds
    set_used_args a (arg x xs) ds = do ds₁ ← set_used a x ds; set_used_args a xs ds₁

  -- `vd.whereset.What.Name == "set"`. An action that is not kept is a constant.
  unfoldable pub sets : ℕ → Kept F → Bool
  sets i [] = false
  sets i ((j, a) ∷ ks) =
      let rest = sets i ks in if j == i then str_eq (sym_val a.what).name "set" else rest

  -- `IsTrue`.
  unfoldable pub is_true : Sym F → Bool
  is_true s = elim (s_type_of s) [ s_const ↦ (sym_val s).bool_val | _ ↦ true ]

  -- `a.What.Expr.Args[0].Name`.
  abbrev pub set_name : Sym F → Result String
  set_name (fcall v f xs) = first_name xs
  set_name _ = panic

module _ {F : Type 0} (fl : Floats F) where
  -- `vd.whereset.What = NewBool(true)`.
  unfoldable pub kill : ℕ → Kept F → Kept F
  kill i [] = []
  kill i ((j, a) ∷ ks) =
      let rest = kill i ks in
      if j == i then (j, record a { what = leaf (new_bool fl true) }) ∷ ks else (j, a) ∷ rest

  -- The test on the variable that the action `i` sets: an earlier `set` of it is made constant.
  abbrev pub shadow : ℕ → String → Option VarDesc → Pass F → Pass F
  shadow i n none p = p
  shadow i n (some d) p =
      if not d.is_used && not (d.whereset == i) && sets d.whereset p.kept
      then record p {
        kept = kill d.whereset p.kept;
        vds = change_var n (λ x. record x { whereset = i }) p.vds;
        nd = true;
      }
      else p

  unfoldable pub dead_set : ℕ → Sym F → Pass F → Result (Pass F)
  dead_set i s p =
      if str_eq (sym_val s).name "set"
      then (set_name s >>= λ n. ok (shadow i n (find_var n p.vds) p))
      else ok p

  -- Behind the folding of an action to `s`: whether the loop breaks, and the pass.
  unfoldable pub keep : ℕ → Action F → Sym F → Pass F → Bool × Pass F
  unfolding is_constant
  keep i a s p =
      if not (is_constant s)
      then (false, record p { kept = (i, record a { what = s }) ∷ p.kept })
      else (
        (sym_val s).bool_val && same_tok a.con tok_nthen
            || not (sym_val s).bool_val && same_tok a.con tok_then,
        record p { nd = true },
      )

  module _ (host : Host) where
    unfoldable pub pass_action : ℕ → Action F → Pass F → Result (Bool × Pass F)
    unfolding set_used dead_set keep
    pass_action i a p = do
      ds ← set_used i a.what p.vds
      q ← dead_set i a.what (record p { vds = ds })
      let r = fold fl host a.what
      ok (keep i a r.1 (record q { nerr = q.nerr + r.0 }))

    -- A pass over the chain.
    unfoldable pub pass : ℕ → List (Action F) → Pass F → Result (Pass F)
    unfolding pass_action
    pass i [] p = ok p
    pass i (a ∷ acts) p = do
      q ← pass_action i a p
      let rest = pass (suc i) acts q.1
      if q.0 then ok q.1 else rest

    abbrev pub chain_of : Kept F → List (Action F) → List (Action F)
    chain_of [] acc = acc
    chain_of ((i, a) ∷ ks) acc = chain_of ks (a ∷ acc)

    abbrev pub start : ℕ → Pass F
    start n = record { kept = []; vds = []; nd = false; nerr = n }

    -- The passes over a chain, until one changes nothing, on fuel; `none` is for want of it.
    unfoldable pub fold_chain : ℕ → ℕ → List (Action F) → Result (Option (ℕ × List (Action F)))
    unfolding pass
    fold_chain zero n acts = ok none
    fold_chain (suc f) n acts = do
      p ← pass 0 acts (start n)
      let again = fold_chain f p.nerr (chain_of p.kept [])
      if p.nd then again else ok (some (p.nerr, chain_of p.kept []))

    -- Two passes for each action, and one more.
    abbrev pub enough : List (Action F) → ℕ
    enough acts = 2 * length acts + 1

    abbrev pub end_rule : Sym F → Option (ℕ × List (Action F)) → Result (ℕ × Option (Rule F))
    end_rule e none = panic
    end_rule e (some (n, [])) = ok (n, none)
    end_rule e (some (n, a ∷ acts)) = ok (n, some (record { expr = e; actions = a ∷ acts }))

    -- A rule that is folded, if it is kept, and the errors.
    unfoldable pub fold_rule : Rule F → Result (ℕ × Option (Rule F))
    unfolding fold_chain is_true
    fold_rule r =
        let e = fold fl host r.expr in
        let rest = fold_chain (enough r.actions) e.0 r.actions >>= end_rule e.1 in
        if e.0 == 0 && not (is_true e.1) then ok (0, none) else rest

    abbrev pub or_drop : Option (Rule F) → List (Rule F) → List (Rule F)
    or_drop none rs = rs
    or_drop (some r) rs = r ∷ rs

    unfoldable pub fold_rules : List (Rule F) → Result (ℕ × List (Rule F))
    unfolding fold_rule
    fold_rules [] = ok (0, [])
    fold_rules (r ∷ rs) = do
      (n, o) ← fold_rule r
      (k, rest) ← fold_rules rs
      ok (n + k, or_drop o rest)

    unfoldable pub fold_sects : List (RuleSect F) → Result (ℕ × List (RuleSect F))
    unfolding fold_rules
    fold_sects [] = ok (0, [])
    fold_sects (s ∷ ss) = do
      (n, rules) ← fold_rules s.rules
      (k, rest) ← fold_sects ss
      ok (n + k, record s { rules = rules } ∷ rest)
