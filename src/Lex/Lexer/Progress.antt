-- ===== src/Lex/Lexer/Progress.antt =====
-- lex/lex.go: every call of `Lex` comes to an end, and leaves less text than there was.
use Prim.Native.Char.{Char}
use rips.Prelude.{
  ℕ, zero, suc, ◌+◌, ◌-◌, ◌≤◌, ◌<◌, ◌≡◌, refl, ap, arith, Bool, ◌==◌, String, Option, none, some,
}
use rips.Lex.Library.{Library}
use rips.Lex.Reader.{
  runes, Token, Lexer, Res, ok, failed, panicked, stuck, ◌>>=◌, pure, get, get_on, unget, unget_on,
  put_back, quote, save,
}
use rips.Lex.Reader.Invariant.{Runs, Ends, Keeps, weaken-Runs, Primitive}
use rips.Lex.Reader.Progress.{Loose, accept-Keeps}
use rips.Lex.Lexer.{lex_loop, next_token, lex}
use rips.Lex.Lexer.Invariant.{round-Keeps, deferred-Ends}
use rips.Lex.Lexer.Round.{round-Ends}

-- A token that is saved counts as one rune.
abbrev pub count : {F : Type 0} → Option (Token F) → ℕ
count none = 0
count (some t) = 1

-- What is left for `Lex` to read.
abbrev pub left : {F : Type 0} → Lexer F → ℕ
left l = runes l.rest + count l.saved

-- Both of two properties that hold of an end.
pub both-Ends :
    {F A : Type 0} (P Q R : Lexer F → Type 0) (r : Res A × Lexer F)
    → Ends ⊥ P r
    → Ends (Unit {0}) Q r
    → ((l : Lexer F) → P l → Q l → R l)
    → Ends ⊥ R r
both-Ends P Q R (ok a, l) h k w = w l h k
both-Ends P Q R (failed e, l) h k w = w l h k
both-Ends P Q R (panicked e, l) h k w = w l h k
both-Ends P Q R (stuck, l) h k w = h

module _ {F : Type 0} where
  -- The primitive operations leave the token that is saved alone.
  abbrev pub Saves : ℕ → Lexer F → Type 0
  Saves n l = count l.saved ≡ n

  get_on-Saves : (n : ℕ) (s : String) (l : Lexer F) → Saves n l → Saves n (get_on s l).1
  get_on-Saves n String.[] l j = j
  get_on-Saves n (String.◌∷◌ c s) l j = j

  put_back-Saves :
      (n : ℕ) (u : Option Char) (b : Bool) (l : Lexer F)
      → Saves n l
      → Ends (Unit {0}) (Saves n) (put_back u b l)
  put_back-Saves n none b l j = j
  put_back-Saves n (some c) b l j = j

  unget_on-Saves :
      (n : ℕ) (o : Option ℕ) (l : Lexer F) → Saves n l → Ends (Unit {0}) (Saves n) (unget_on o l)
  unget_on-Saves n none l j = j
  unget_on-Saves n (some r) l j = put_back-Saves n l.unread (r == 10) _ j

  saved-Primitive : (n : ℕ) → Primitive (Unit {0}) (Saves n)
  unfolding get unget quote
  saved-Primitive n = record {
    get_keeps = record { runs = λ l j. get_on-Saves n l.rest l j };
    unget_keeps = record { runs = λ l j. unget_on-Saves n l.lastrune l j };
    accept_keeps = accept-Keeps (Unit {0}) (Saves n) (λ l a j. j);
    quote_keeps = λ q r. record { runs = λ l j. j };
  }

module _ {F : Type 0} (lib : Library F) where
  -- With more fuel than there are runes left the loop ends, and has taken a rune if there was one.
  loop-Loose : (f n : ℕ) → n < f → Runs ⊥ (Loose n) (Loose (n - 1)) (lex_loop lib f)
  unfolding lex_loop get ◌>>=◌
  loop-Loose zero n h = absurd (omega arith)
  loop-Loose (suc f) n h =
      let ih : (k : ℕ) → k < f → Keeps ⊥ (Loose k) (lex_loop lib f) =
        λ k i. weaken-Runs ⊥ (Loose (k - 1)) (Loose k) (λ l j. omega arith) (loop-Loose f k i) in
      record { runs = λ l j. round-Ends lib f (lex_loop lib f) n h ih l.rest l j }

  -- `Lex` leaves no token saved.
  pub next_token-Saves :
      (o : Option (Token F)) (l : Lexer F)
      → l.saved ≡ o
      → Ends (Unit {0}) (Saves 0) (next_token lib o l)
  unfolding save ◌>>=◌ pure
  next_token-Saves none l e =
      (round-Keeps (Saves 0) (saved-Primitive 0) lib tt (suc (runes l.rest))).runs l (ap count e)
  next_token-Saves (some t) l e = refl

  next_token-left :
      (o : Option (Token F)) (l : Lexer F)
      → l.saved ≡ o
      → Ends ⊥ (λ l'. left l' ≤ runes l.rest + count o - 1) (next_token lib o l)
  unfolding save ◌>>=◌ pure
  next_token-left none l e =
      both-Ends (Loose (runes l.rest - 1)) (Saves 0) (λ l'. left l' ≤ runes l.rest + 0 - 1) _
        ((loop-Loose (suc (runes l.rest)) (runes l.rest) (omega arith)).runs l (omega arith))
        (next_token-Saves none l e) (λ l' a b. omega arith)
  next_token-left (some t) l e = omega arith

  -- `Lex` ends, whatever the text and the state of the lexer, and leaves at least one rune or saved
  -- token fewer than there were, unless there were none.
  pub lex-left : (l : Lexer F) → Ends ⊥ (λ l'. left l' ≤ left l - 1) (lex lib l)
  unfolding lex
  lex-left l =
      deferred-Ends ⊥ (λ l'. left l' ≤ left l - 1) lib (next_token lib l.saved l)
        (next_token-left l.saved l refl)

  pub lex-Saves : (l : Lexer F) → Ends (Unit {0}) (Saves 0) (lex lib l)
  unfolding lex
  lex-Saves l =
      deferred-Ends (Unit {0}) (Saves 0) lib (next_token lib l.saved l)
        (next_token-Saves l.saved l refl)
