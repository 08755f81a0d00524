-- ===== src/Lex/Reader/Invariant.antt =====
-- lex/lex.go: a property of the lexer that the primitive operations keep is kept by what is composed of
-- them.
use Prim.Native.Char.{Char}
use mathlib.Core.Path.{subst}
use rips.Prelude.{◌≡◌, Bool, true, false, String}
use rips.Lex.Reader.{
  Lexer, L, Res, ok, failed, panicked, stuck, LexErr, ◌>>=◌, pure, fail, when, and_then, get,
  get_on, unget, accept, quote,
}

-- What holds of an end: `Q` of the state, or `S` if the fuel was not enough.
abbrev pub Ends : {F A : Type 0} → Type 0 → (Lexer F → Type 0) → Res A × Lexer F → Type 0
Ends S Q (ok a, l) = Q l
Ends S Q (failed e, l) = Q l
Ends S Q (panicked e, l) = Q l
Ends S Q (stuck, l) = S

-- Where `P` holds at the start, the operation ends so.
pub record Runs {F A : Type 0} (S : Type 0) (P Q : Lexer F → Type 0) (m : L F A) : Type 0 where
  pub runs : (l : Lexer F) → P l → Ends S Q (m l)

-- The operation keeps the property, however it ends.
abbrev pub Keeps : {F A : Type 0} → Type 0 → (Lexer F → Type 0) → L F A → Type 0
Keeps S J m = Runs S J J m

module _ {F : Type 0} {S : Type 0} {Q : Lexer F → Type 0} where
  pub and_then-Ends :
      {A B : Type 0} (r : Res A × Lexer F) (f : A → L F B)
      → Ends S Q r
      → ((a : A) → Keeps S Q (f a))
      → Ends S Q (and_then r f)
  and_then-Ends (ok a, l) f j k = (k a).runs l j
  and_then-Ends (failed e, l) f j k = j
  and_then-Ends (panicked e, l) f j k = j
  and_then-Ends (stuck, l) f j k = j

module _ {F : Type 0} {S : Type 0} {P Q : Lexer F → Type 0} where
  pub bind-Runs :
      {A B : Type 0} {m : L F A} {f : A → L F B}
      → Runs S P Q m
      → ((a : A) → Keeps S Q (f a))
      → Runs S P Q (m >>= f)
  unfolding ◌>>=◌
  bind-Runs {m = m} {f = f} h k = record { runs = λ l j. and_then-Ends (m l) f (h.runs l j) k }

  pub when-Runs :
      {A : Type 0} (b : Bool) {m n : L F A} → Runs S P Q m → Runs S P Q n → Runs S P Q (when b m n)
  unfolding when
  when-Runs true h k = record { runs = h.runs }
  when-Runs false h k = record { runs = k.runs }

module _ {F : Type 0} (S : Type 0) (Q R : Lexer F → Type 0) (k : (l : Lexer F) → Q l → R l) where
  pub weaken-Ends : {A : Type 0} (r : Res A × Lexer F) → Ends S Q r → Ends S R r
  weaken-Ends (ok a, l) h = k l h
  weaken-Ends (failed e, l) h = k l h
  weaken-Ends (panicked e, l) h = k l h
  weaken-Ends (stuck, l) h = h

  pub weaken-Runs : {A : Type 0} {P : Lexer F → Type 0} {m : L F A} → Runs S P Q m → Runs S P R m
  weaken-Runs {m = m} h = record { runs = λ l j. weaken-Ends (m l) (h.runs l j) }

module _ {F : Type 0} {S : Type 0} {J : Lexer F → Type 0} where
  pub pure-Keeps : {A : Type 0} (a : A) → Keeps S J (pure a)
  unfolding pure
  pure-Keeps a = record { runs = λ l j. j }

  pub fail-Keeps : {A : Type 0} (e : LexErr) → Keeps S J (fail {A = A} e)
  unfolding fail
  fail-Keeps e = record { runs = λ l j. j }

-- The primitive operations keep the property.
pub record Primitive {F : Type 0} (S : Type 0) (J : Lexer F → Type 0) : Type 0 where
  pub get_keeps : Keeps S J get
  pub unget_keeps : Keeps S J unget
  pub accept_keeps : Keeps S J accept
  pub quote_keeps : (q r : Char) → Keeps S J (quote q r)

-- A first operation that brings about what the others keep.
module _ {F : Type 0} {S : Type 0} {Q R : Lexer F → Type 0} where
  pub and_then-Runs :
      {A B : Type 0} (r : Res A × Lexer F) (f : A → L F B)
      → Ends S Q r
      → ((l : Lexer F) → Q l → R l)
      → ((a : A) → Runs S Q R (f a))
      → Ends S R (and_then r f)
  and_then-Runs (ok a, l) f j w k = (k a).runs l j
  and_then-Runs (failed e, l) f j w k = w l j
  and_then-Runs (panicked e, l) f j w k = w l j
  and_then-Runs (stuck, l) f j w k = j

  pub then-Runs :
      {A B : Type 0} {P : Lexer F → Type 0} {m : L F A} {f : A → L F B}
      → ((l : Lexer F) → Q l → R l)
      → Runs S P Q m
      → ((a : A) → Runs S Q R (f a))
      → Runs S P R (m >>= f)
  unfolding ◌>>=◌
  then-Runs {m = m} {f = f} w h k = record { runs = λ l j. and_then-Runs (m l) f (h.runs l j) w k }

-- `get` where the text that is left is known.
pub get_on-Runs :
    {F S : Type 0} (P Q : Lexer F → Type 0) (g : Runs S P Q get) (s : String) (l : Lexer F)
    → l.rest ≡ s
    → P l
    → Q (get_on s l).1
unfolding get
get_on-Runs P Q g s l e j = subst (λ x. Q (get_on x l).1) e (g.runs l j)
