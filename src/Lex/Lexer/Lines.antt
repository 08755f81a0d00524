-- ===== src/Lex/Lexer/Lines.antt =====
-- lex/lex.go: the line number of the lexer.
use Prim.Native.Char.{Char, code}
use rips.Prelude.{
  ℕ, ◌+◌, ◌-◌, ◌≤◌, ◌≡◌, refl, sym, arith, Bool, true, false, ◌==◌, if◌then◌else◌, String, Option,
  none, some,
}
use mathlib.Core.Path.{subst}
use rips.Lex.Library.{Library}
use rips.Lex.Reader.{Lexer, get, get_on, unget, unget_on, put_back, drop_last, quote, save}
use rips.Lex.Reader.Invariant.{Ends, Primitive}
use rips.Lex.Reader.Progress.{accept-Keeps}
use rips.Lex.Lexer.{lex}
use rips.Lex.Lexer.Invariant.{lex-Keeps}
use rips.Lex.Lexer.Progress.{left, lex-left, both-Ends}

-- The newlines of a text.
abbrev pub newlines : String → ℕ
newlines String.[] = 0
newlines (String.◌∷◌ c s) = if code c == 10 then newlines s + 1 else newlines s

-- The rune that can be put back is the one that `unget` looks at, and a newline was counted.
abbrev pub Undoes : Option Char → Option ℕ → ℕ → Type 0
Undoes none r n = Unit {0}
Undoes (some c) r n = (r ≡ some (code c)) × (if code c == 10 then 1 else 0) ≤ n

-- The line number and the newlines that are left make `k`.
abbrev pub Counted : {F : Type 0} → ℕ → Lexer F → Type 0
Counted k l = (l.line + newlines l.rest ≡ k) × Undoes l.unread l.lastrune l.line

read_line :
    (k n m : ℕ) (b : Bool)
    → n + (if b then m + 1 else m) ≡ k
    → ((if b then n + 1 else n) + m ≡ k) × ((if b then 1 else 0) ≤ (if b then n + 1 else n))
read_line k n m true e = (omega arith, omega arith)
read_line k n m false e = (omega arith, omega arith)

unread_line :
    (k n m : ℕ) (b : Bool)
    → n + m ≡ k
    → (if b then 1 else 0) ≤ n
    → (if b then n - 1 else n) + (if b then m + 1 else m) ≡ k
unread_line k n m true e h = omega arith
unread_line k n m false e h = omega arith

some_injective : (a b : ℕ) → some a ≡ some b → a ≡ b
some_injective a b e = cc

module _ {F : Type 0} where
  get_on-Counted :
      (k : ℕ) (s : String) (l : Lexer F) → l.line + newlines s ≡ k → Counted k (get_on s l).1
  get_on-Counted k String.[] l e = (e, tt)
  get_on-Counted k (String.◌∷◌ c s) l e =
      let (a, b) = read_line k l.line (newlines s) (code c == 10) e in (a, (refl, b))

  put_back-Counted :
      (k last : ℕ) (u : Option Char) (l : Lexer F)
      → l.unread ≡ u
      → l.line + newlines l.rest ≡ k
      → Undoes u (some last) l.line
      → Ends (Unit {0}) (Counted k) (put_back u (last == 10) (record l { lastrune = some 0xfffd }))
  put_back-Counted k last none l i e h = (e, subst (λ u. Undoes u (some 0xfffd) l.line) (sym i) tt)
  put_back-Counted k last (some c) l i e h = (
    subst (λ n. (if n == 10 then l.line - 1 else l.line) + newlines (String.◌∷◌ c l.rest) ≡ k)
        (sym (some_injective last (code c) h.0))
        (unread_line k l.line (newlines l.rest) (code c == 10) e h.1),
    tt,
  )

  unget_on-Counted :
      (k : ℕ) (o : Option ℕ) (l : Lexer F)
      → l.lastrune ≡ o
      → Counted k l
      → Ends (Unit {0}) (Counted k) (unget_on o l)
  unget_on-Counted k none l i j = j
  unget_on-Counted k (some last) l i (e, u) =
      put_back-Counted k last l.unread (record l { accepted = drop_last l.accepted }) refl e
        (subst (λ r. Undoes l.unread r l.line) i u)

  counted : (k : ℕ) → Primitive (Unit {0}) (Counted {F = F} k)
  unfolding get unget quote
  counted k = record {
    get_keeps = record { runs = λ l j. get_on-Counted k l.rest l j.0 };
    unget_keeps = record { runs = λ l j. unget_on-Counted k l.lastrune l refl j };
    accept_keeps = accept-Keeps (Unit {0}) (Counted k) (λ l a j. j);
    quote_keeps = λ q r. record { runs = λ l j. j };
  }

  -- However `Lex` ends, and it does end, the line number has gone up by the newlines of the text that
  -- was read, where it and the rune to put back agree before: they agree again.
  pub lex-Counted :
      (lib : Library F) (k : ℕ) (l : Lexer F) → Counted k l → Ends ⊥ (Counted k) (lex lib l)
  unfolding save
  lex-Counted lib k l j =
      both-Ends (λ l'. left l' ≤ left l - 1) (Counted k) (Counted k) (lex lib l) (lex-left lib l)
        ((lex-Keeps (Counted k) (counted k) lib tt (λ o. record { runs = λ l i. i })).runs l j)
        (λ l' a b. b)
