-- ===== src/Parser/Sized.antt =====
-- parser: lexers that run out of tokens, and what the functions of the parser leave of them.
use rips.Prelude.{
  ℕ, suc, ◌+◌, ◌≤◌, ◌<◌, ◌≡◌, refl, arith, Bool, true, false, Option, none, some, leb,
  if◌then◌else◌,
}
use rips.Lex.Token.{TokType, same_tok}
use rips.Lex.Reader.{Token}
use rips.Parser.{
  LexPeeker, Parser, P, Parsed, ParseErr, done, failed, too_many, crashed, stuck, pure, fail, ◌>>=◌,
  ◌>>◌, and_then, when, rename, renamed, errorf, peek, skip, looked, match_tok,
}
use rips.Parser.Tables.{is_expr_tok}

-- What is left behind a `Peek`: no more than there was, and less once a token of an expression is taken.
abbrev pub Looked : {F S : Type 0} → (S → ℕ) → (S → S) → ℕ → Option (Token F) × S → Type 0
Looked size take n (none, s) = size s ≤ n
Looked size take n (some t, s) = (size s ≤ n) × (is_expr_tok t.type ≡ true → size (take s) < n)

-- A lexer with a measure of what it has left.
pub record Sized {F S : Type 0} (l : LexPeeker F S) : Type 0 where
  pub size : S → ℕ
  pub look_size : (s : S) → Looked size l.skip (size s) (l.look s)
  pub skip_size : (s : S) → size (l.skip s) ≤ size s

module _ {F S : Type 0} {l : LexPeeker F S} (z : Sized l) where
  -- The end is not for want of fuel, and a value leaves less than the bound.
  abbrev pub Ends : {A : Type 0} → ℕ → Parsed A × Parser F S → Type 0
  Ends c (done a, p) = z.size p.source < c
  Ends c (failed e, p) = Unit {0}
  Ends c (too_many, p) = Unit {0}
  Ends c (crashed, p) = Unit {0}
  Ends c (stuck, p) = ⊥

  -- From less than `b` to less than `c`.
  pub record Runs {A : Type 0} (b c : ℕ) (m : P F S A) : Type 0 where
    pub runs : (p : Parser F S) → z.size p.source < b → Ends c (m p)

  pub pure-Runs : {A : Type 0} (b : ℕ) (a : A) → Runs b b (pure a)
  unfolding pure
  pure-Runs b a = record { runs = λ p j. j }

  pub fail-Runs : {A : Type 0} (b c : ℕ) (e : ParseErr) → Runs {A = A} b c (fail e)
  unfolding fail
  fail-Runs b c e = record { runs = λ p j. tt }

  and_then-Ends :
      {A B : Type 0} (b c : ℕ) (r : Parsed A × Parser F S) (f : A → P F S B)
      → Ends b r
      → ((a : A) → Runs b c (f a))
      → Ends c (and_then r f)
  and_then-Ends b c (done a, p) f h k = (k a).runs p h
  and_then-Ends b c (failed e, p) f h k = tt
  and_then-Ends b c (too_many, p) f h k = tt
  and_then-Ends b c (crashed, p) f h k = tt
  and_then-Ends b c (stuck, p) f h k = h

  pub bind-Runs :
      {A B : Type 0} (b c d : ℕ) {m : P F S A} {f : A → P F S B}
      → Runs b c m
      → ((a : A) → Runs c d (f a))
      → Runs b d (m >>= f)
  unfolding ◌>>=◌
  bind-Runs b c d {m = m} {f = f} h k = record {
    runs = λ p j. and_then-Ends c d (m p) f (h.runs p j) k;
  }

  pub when-Runs :
      {A : Type 0} (b c : ℕ) (t : Bool) {m k : P F S A}
      → (t ≡ true → Runs b c m)
      → (t ≡ false → Runs b c k)
      → Runs b c (when t m k)
  unfolding when
  when-Runs b c true h k = record { runs = (h refl).runs }
  when-Runs b c false h k = record { runs = (k refl).runs }

  pub weaken-Ends : {A : Type 0} (b c : ℕ) (r : Parsed A × Parser F S) → b ≤ c → Ends b r → Ends c r
  weaken-Ends b c (done a, p) i h = omega arith
  weaken-Ends b c (failed e, p) i h = h
  weaken-Ends b c (too_many, p) i h = h
  weaken-Ends b c (crashed, p) i h = h
  weaken-Ends b c (stuck, p) i h = h

  pub weaken-Runs : {A : Type 0} (a b c : ℕ) {m : P F S A} → b ≤ c → Runs a b m → Runs a c m
  weaken-Runs a b c {m = m} i h = record { runs = λ p j. weaken-Ends b c (m p) i (h.runs p j) }

  rename-Ends :
      {A : Type 0} (c : ℕ) (g : ParseErr → ParseErr) (r : Parsed A × Parser F S)
      → Ends c r
      → Ends c (renamed g r)
  rename-Ends c g (done a, p) h = h
  rename-Ends c g (failed e, p) h = h
  rename-Ends c g (too_many, p) h = h
  rename-Ends c g (crashed, p) h = h
  rename-Ends c g (stuck, p) h = h

  pub rename-Runs :
      {A : Type 0} (b c : ℕ) (g : ParseErr → ParseErr) {m : P F S A}
      → Runs b c m
      → Runs b c (rename g m)
  unfolding rename
  rename-Runs b c g {m = m} h = record { runs = λ p j. rename-Ends c g (m p) (h.runs p j) }

  limit-Ends :
      (c : ℕ) (t : Bool) (p : Parser F S)
      → z.size p.source < c
      → Ends c (if t then (too_many, p) else (done tt, p))
  limit-Ends c true p h = tt
  limit-Ends c false p h = h

  pub errorf-Runs : (b : ℕ) → Runs b b errorf
  unfolding errorf
  errorf-Runs b = record {
    runs = λ p j. limit-Ends b (leb 10 (p.n_err + 1)) (record p { n_err = p.n_err + 1 }) j;
  }

  -- `Peek`, and what follows it: where a token of an expression is taken, less is left.
  looked-Ends :
      {A : Type 0} (b c : ℕ) (k : Token F → P F S A) (o : Option (Token F) × S) (p : Parser F S)
      (n : ℕ)
      → n < b
      → Looked z.size l.skip n o
      → ((t : Token F) (p : Parser F S)
          → z.size p.source ≤ n
          → (is_expr_tok t.type ≡ true → z.size (l.skip p.source) < n)
          → Ends c (k t p))
      → Ends c (and_then (looked l o p) k)
  looked-Ends b c k (none, s) p n i h f = tt
  looked-Ends b c k (some t, s) p n i (h, h') f = f t (record p { source = s }) h h'

  -- A token that is taken if it is one of an expression.
  pub peek-Runs :
      {A : Type 0} (b c : ℕ) (k : Token F → P F S A)
      → ((t : Token F) → is_expr_tok t.type ≡ false → Runs (suc b) c (k t))
      → ((t : Token F)
          → is_expr_tok t.type ≡ true
          → (p : Parser F S) → z.size p.source < suc b
          → z.size (l.skip p.source) < b
          → Ends c (k t p))
      → Runs (suc b) c (peek l >>= k)
  unfolding peek ◌>>=◌
  peek-Runs b c k h h' = record {
    runs = λ p j.
        looked-Ends (suc b) c k (l.look p.source) p (z.size p.source) j (z.look_size p.source)
          (λ t p' i i'.
            either t p' (is_expr_tok t.type) refl (omega arith) (λ e. omega (arith, i' e)));
  }
    where
      either :
          (t : Token F) (p : Parser F S) (x : Bool)
          → is_expr_tok t.type ≡ x
          → z.size p.source < suc b
          → (is_expr_tok t.type ≡ true → z.size (l.skip p.source) < b)
          → Ends c (k t p)
      either t p true e i i' = h' t e p i (i' e)
      either t p false e i i' = (h t e).runs p i

  take-Ends :
      (b : ℕ) (x : Bool) (t : Token F) (p : Parser F S)
      → z.size p.source < b
      → Ends b (when x (do skip l; pure (some t)) (pure none) p)
  unfolding when pure ◌>>=◌ rips.Parser.skip
  take-Ends b true t p h = omega (arith, z.skip_size p.source)
  take-Ends b false t p h = h

  pub match_tok-Runs : (b : ℕ) (tok : TokType) → Runs b b (match_tok l tok)
  unfolding match_tok peek ◌>>=◌
  match_tok-Runs b tok = record {
    runs = λ p j.
        looked-Ends b b _ (l.look p.source) p (z.size p.source) j (z.look_size p.source)
          (λ t p' i i'. take-Ends b (same_tok t.type tok) t p' (omega arith));
  }

  pub skip-Ends :
      {A : Type 0} (b c : ℕ) (m : P F S A) (p : Parser F S)
      → z.size (l.skip p.source) < b
      → Runs b c m
      → Ends c ((skip l >> m) p)
  unfolding ◌>>=◌ rips.Parser.skip
  skip-Ends b c m p h k = k.runs (record p { source = l.skip p.source }) h

  pub when-Ends :
      {A : Type 0} (c : ℕ) (t : Bool) (m k : P F S A) (p : Parser F S)
      → (t ≡ true → Ends c (m p))
      → (t ≡ false → Ends c (k p))
      → Ends c (when t m k p)
  unfolding when
  when-Ends c true m k p h i = h refl
  when-Ends c false m k p h i = i refl

  -- Nothing is less than nothing.
  pub none-Runs : {A : Type 0} (c : ℕ) (m : P F S A) → Runs 0 c m
  none-Runs c m = record { runs = λ p j. absurd (omega arith) }
