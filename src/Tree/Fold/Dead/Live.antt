-- ===== src/Tree/Fold/Dead/Live.antt =====
-- tree/const.go: no variable counts as used, so that a `set` whose value is read is deleted as well.
use rips.Prelude.{
  ℕ, ◌≡◌, refl, Bool, true, false, if◌then◌else◌, str_eq, String, Option, none, some, List, [], ◌∷◌,
}
use rips.Prelude.Result.{Result, ok, fatal, panic}
use rips.Lex.Token.{tok_then, tok_comma}
use rips.Types.{Ty, string_type, int_type, bool_type, univ_type}
use rips.Extern.Host.{Host}
use rips.Tree.Sym.{
  Floats, Val, Sym, leaf, ref, fcall, binary, unary, Args, arg, no_args, new_anon_sym, s_const,
  s_var, s_fcall,
}
use rips.Tree.Chain.Invariant.{EndsIn, bind-EndsIn, if-EndsIn}
use rips.Tree.Fold.{fold}
use rips.Tree.Fold.Dead.{
  VarDesc, VarDescs, Pass, find_var, change_var, note_set, first_name, set_used, set_used_args,
  sets, kill, fold_chain,
}

-- No variable counts as used.
abbrev pub NoneUsed : VarDescs → Type 0
NoneUsed [] = Unit {0}
NoneUsed ((x, d) ∷ ds) = (d.is_used ≡ false) × NoneUsed ds

if-NoneUsed :
    (b : Bool) (ds es : VarDescs) → NoneUsed ds → NoneUsed es → NoneUsed (if b then ds else es)
if-NoneUsed true ds es h i = h
if-NoneUsed false ds es h i = i

change_var-NoneUsed :
    (n : String) (f : VarDesc → VarDesc) (ds : VarDescs)
    → ((d : VarDesc) → d.is_used ≡ false → (f d).is_used ≡ false)
    → NoneUsed ds
    → NoneUsed (change_var n f ds)
change_var-NoneUsed n f [] k h = tt
change_var-NoneUsed n f ((x, d) ∷ ds) k (h, hs) =
    if-NoneUsed (str_eq x n) ((x, f d) ∷ ds) ((x, d) ∷ change_var n f ds) (k d h, hs)
      (h, change_var-NoneUsed n f ds k hs)

note_set-NoneUsed :
    (a : ℕ) (n : String) (o : Option VarDesc) (ds : VarDescs)
    → NoneUsed ds
    → NoneUsed (note_set a n o ds)
note_set-NoneUsed a n none ds h = (refl, h)
note_set-NoneUsed a n (some d) ds h = change_var-NoneUsed n _ ds (λ x e. e) h

always : {A : Type 0} (r : Result A) → EndsIn (λ _. Unit {0}) r
always (ok a) = tt
always fatal = tt
always panic = tt

module _ {F : Type 0} where
  mutual
    unfolding set_used

    set_used-NoneUsed :
        (a : ℕ) (s : Sym F) (ds : VarDescs) → NoneUsed ds → EndsIn NoneUsed (set_used a s ds)
    set_used-NoneUsed a (leaf v) ds h = h
    set_used-NoneUsed a (ref v) ds h = h
    set_used-NoneUsed a (fcall v f xs) ds h =
        if-EndsIn NoneUsed (str_eq v.name "set") _ _
          (bind-EndsIn (λ _. Unit {0}) NoneUsed (first_name xs) _ (always (first_name xs))
            (λ n _. set_used_args-NoneUsed a xs _ (note_set-NoneUsed a n (find_var n ds) ds h)))
          h
    set_used-NoneUsed a (binary v op l r) ds h =
        bind-EndsIn NoneUsed NoneUsed _ _ (set_used-NoneUsed a r ds h) (set_used-NoneUsed a l)
    set_used-NoneUsed a (unary v op r) ds h = set_used-NoneUsed a r ds h

    set_used_args-NoneUsed :
        (a : ℕ) (xs : Args F) (ds : VarDescs)
        → NoneUsed ds
        → EndsIn NoneUsed (set_used_args a xs ds)
    set_used_args-NoneUsed a no_args ds h = h
    set_used_args-NoneUsed a (arg x xs) ds h =
        bind-EndsIn NoneUsed NoneUsed _ _ (set_used-NoneUsed a x ds h) (set_used_args-NoneUsed a xs)

module _ {F : Type 0} (fl : Floats F) (host : Host) where
  Unused : Pass F → Type 0
  Unused p = NoneUsed p.vds

module _ {F : Type 0} (fl : Floats F) where
  abbrev pub sample : Val F
  unfolding new_anon_sym
  sample = new_anon_sym fl s_const

  -- The variable x, of the type int.
  abbrev pub x_ref : Sym F
  x_ref = ref (record sample { name = "x"; s_type = s_var; data_type = int_type })

  abbrev pub call : String → List Ty → Args F → Sym F
  call n ts xs =
      fcall (record sample { name = n; s_type = s_fcall; data_type = bool_type })
        (some
          (record { f_name = n; ret_type = bool_type; arg_data_types = ts; is_variadic = false }))
        xs

  -- `set(x, k)`, and `alert(string(x))`, which sends the value of x.
  abbrev pub set_x : ℕ → Sym F
  set_x k =
      call "set" (univ_type ∷ univ_type ∷ [])
        (arg x_ref (arg (leaf (record sample { data_type = int_type; int_val = k })) no_args))

  abbrev pub alert_x : Sym F
  alert_x =
      call "alert" (string_type ∷ [])
        (arg (call "string" (univ_type ∷ []) (arg x_ref no_args)) no_args)

  -- `set(x, j) => alert(string(x)) => set(x, k)`, without its first action.
  fold_chain-live :
      (host : Host) (j k : ℕ)
      → fold_chain fl host 7 0 (
          record { con = tok_comma; what = set_x j }
          ∷ record { con = tok_then; what = alert_x }
          ∷ record { con = tok_then; what = set_x k }
          ∷ [])
        ≡ ok (
            some (
              0,
              record { con = tok_then; what = alert_x }
                  ∷ record { con = tok_then; what = set_x k }
                  ∷ [],
            ))
  unfolding fold_chain fold rips.Tree.Fold.Dead.sets rips.Tree.Fold.Dead.kill rips.Tree.Sym.new_bool
      sample
  fold_chain-live host j k = refl
