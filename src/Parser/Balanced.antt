-- ===== src/Parser/Balanced.antt =====
-- parser: the number of environments that the functions of the parser leave.
pub mod Envs
pub mod Exprs
pub mod Rules
pub mod Sections
use rips.Prelude.{
  ℕ, zero, suc, ◌+◌, ◌≡◌, refl, sym, ap, ◌∙◌, Bool, true, false, if◌then◌else◌, leb, str_eq, String,
  Option, none, some, List, [], ◌∷◌, ◌++◌,
}
use rips.Lex.Token.{TokType, same_tok, tok_semi}
use rips.Lex.Reader.{Token}
use rips.Tree.Env.{Env, StkEnv, Made, made, refused, no_env, Symbol}
use rips.Parser.{
  LexPeeker, Parser, P, Parsed, ParseErr, done, failed, too_many, crashed, stuck, pure, fail, ◌>>=◌,
  ◌>>◌, and_then, when, rename, renamed, errorf, peek, skip, looked, match_tok,
}
use rips.Parser.Tree.{Prog, count}
use rips.Parser.Sync.{
  tried, attempt, return_err, is_end_section, kept, lex_while_not, next_section, next_sync_no_semi,
  next_sync, matched, match_err, is_tok,
}

module _ {F S : Type 0} where
  -- Behind a value there are `b` environments, behind an error `e`. Nothing crashes.
  abbrev pub Lands : {A : Type 0} → ℕ → ℕ → Parsed A × Parser F S → Type 0
  Lands b e (done a, p) = count p.envs ≡ b
  Lands b e (failed x, p) = count p.envs ≡ e
  Lands b e (too_many, p) = Unit {0}
  Lands b e (crashed, p) = ⊥
  Lands b e (stuck, p) = Unit {0}

  -- From `a` environments.
  pub record Moves {A : Type 0} (a b e : ℕ) (m : P F S A) : Type 0 where
    pub moves : (p : Parser F S) → count p.envs ≡ a → Lands b e (m p)

  pub pure-Moves : {A : Type 0} {a e : ℕ} (x : A) → Moves a a e (pure x)
  unfolding pure
  pure-Moves x = record { moves = λ p h. h }

  pub fail-Moves : {A : Type 0} {a b : ℕ} (x : ParseErr) → Moves {A = A} a b a (fail x)
  unfolding fail
  fail-Moves x = record { moves = λ p h. h }

  and_then-Lands :
      {A B : Type 0} {b c e : ℕ} (r : Parsed A × Parser F S) (f : A → P F S B)
      → Lands b e r
      → ((x : A) → Moves b c e (f x))
      → Lands c e (and_then r f)
  and_then-Lands (done x, p) f h k = (k x).moves p h
  and_then-Lands (failed x, p) f h k = h
  and_then-Lands (too_many, p) f h k = tt
  and_then-Lands (crashed, p) f h k = h
  and_then-Lands (stuck, p) f h k = tt

  infixl 5 ◌▷◌
  pub ◌▷◌ :
      {A B : Type 0} {a b c e : ℕ} {m : P F S A} {f : A → P F S B}
      → Moves a b e m
      → ((x : A) → Moves b c e (f x))
      → Moves a c e (m >>= f)
  unfolding ◌>>=◌
  ◌▷◌ {m = m} {f = f} h k = record { moves = λ p j. and_then-Lands (m p) f (h.moves p j) k }

  pub when-Moves :
      {A : Type 0} {a b e : ℕ} (t : Bool) {m k : P F S A}
      → Moves a b e m
      → Moves a b e k
      → Moves a b e (when t m k)
  unfolding when
  when-Moves true h k = record { moves = h.moves }
  when-Moves false h k = record { moves = k.moves }

  rename-Lands :
      {A : Type 0} (b e : ℕ) (g : ParseErr → ParseErr) (r : Parsed A × Parser F S)
      → Lands b e r
      → Lands b e (renamed g r)
  rename-Lands b e g (done x, p) h = h
  rename-Lands b e g (failed x, p) h = h
  rename-Lands b e g (too_many, p) h = h
  rename-Lands b e g (crashed, p) h = h
  rename-Lands b e g (stuck, p) h = h

  pub rename-Moves :
      {A : Type 0} {a b e : ℕ} (g : ParseErr → ParseErr) {m : P F S A}
      → Moves a b e m
      → Moves a b e (rename g m)
  unfolding rename
  rename-Moves g {m = m} h = record { moves = λ p j. rename-Lands _ _ g (m p) (h.moves p j) }

  limit-Lands :
      (b e : ℕ) (t : Bool) (p : Parser F S)
      → count p.envs ≡ b
      → Lands b e (if t then (too_many, p) else (done tt, p))
  limit-Lands b e true p h = tt
  limit-Lands b e false p h = h

  pub errorf-Moves : {a e : ℕ} → Moves a a e errorf
  unfolding errorf
  errorf-Moves = record {
    moves = λ p j. limit-Lands _ _ (leb 10 (p.n_err + 1)) (record p { n_err = p.n_err + 1 }) j;
  }

  tried-Lands :
      {A : Type 0} (b e : ℕ) (r : Parsed A × Parser F S) → Lands b b r → Lands b e (tried r)
  tried-Lands b e (done x, p) h = h
  tried-Lands b e (failed x, p) h = h
  tried-Lands b e (too_many, p) h = tt
  tried-Lands b e (crashed, p) h = h
  tried-Lands b e (stuck, p) h = tt

  -- An error that is tested is none for what follows.
  pub attempt-Moves :
      {A : Type 0} {a b e : ℕ} {m : P F S A} → Moves a b b m → Moves a b e (attempt m)
  unfolding attempt
  attempt-Moves {m = m} h = record { moves = λ p j. tried-Lands _ _ (m p) (h.moves p j) }

  pub return_err-Moves : {a : ℕ} (o : Option (Token F)) → Moves a a a (return_err o)
  return_err-Moves none = fail-Moves _
  return_err-Moves (some t) = pure-Moves tt

  module _ (l : LexPeeker F S) where
    looked-Lands :
        {a : ℕ} (o : Option (Token F) × S) (p : Parser F S)
        → count p.envs ≡ a
        → Lands a a (looked l o p)
    looked-Lands (none, s) p h = h
    looked-Lands (some t, s) p h = h

    pub peek-Moves : {a : ℕ} → Moves a a a (peek l)
    unfolding peek
    peek-Moves = record { moves = λ p j. looked-Lands (l.look p.source) p j }

    pub skip-Moves : {a e : ℕ} → Moves a a e (skip l)
    unfolding rips.Parser.skip
    skip-Moves = record { moves = λ p j. j }

    pub match_tok-Moves : {a : ℕ} (t : TokType) → Moves a a a (match_tok l t)
    unfolding match_tok
    match_tok-Moves t =
        peek-Moves ▷ λ x. when-Moves _ (skip-Moves ▷ λ _. pure-Moves _) (pure-Moves _)

    pub is_end_section-Moves : {a : ℕ} → Moves a a a (is_end_section l)
    unfolding is_end_section
    is_end_section-Moves = peek-Moves ▷ λ x. pure-Moves _

    while_not-Moves : {a e : ℕ} (ts : List TokType) → Moves a a e (lex_while_not l ts)
    unfolding lex_while_not
    while_not-Moves ts = record { moves = λ p j. j }

    pub next_section-Moves : {a e : ℕ} → Moves a a e (next_section l)
    unfolding next_section
    next_section-Moves = while_not-Moves _

    pub no_semi-Moves : {a e : ℕ} (ts : List TokType) → Moves a a e (next_sync_no_semi l ts)
    unfolding next_sync_no_semi
    no_semi-Moves ts = while_not-Moves _

    pub next_sync-Moves : {a e : ℕ} (ts : List TokType) → Moves a a e (next_sync l ts)
    unfolding next_sync
    next_sync-Moves ts =
        no_semi-Moves ts ▷ λ o. when-Moves _ (skip-Moves ▷ λ _. pure-Moves o) (pure-Moves o)

    matched-Moves : {a e : ℕ} (o : Option (Option (Token F))) → Moves a a e (matched l o)
    matched-Moves (some (some t)) = pure-Moves _
    matched-Moves none = errorf-Moves ▷ λ _. next_sync-Moves [] ▷ λ _. pure-Moves _
    matched-Moves (some none) = errorf-Moves ▷ λ _. next_sync-Moves [] ▷ λ _. pure-Moves _

    pub match_err-Moves : {a e : ℕ} (t : TokType) → Moves a a e (match_err l t)
    unfolding match_err
    match_err-Moves t = attempt-Moves (match_tok-Moves t) ▷ λ o. matched-Moves o
