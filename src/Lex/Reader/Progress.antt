-- ===== src/Lex/Reader/Progress.antt =====
-- lex/lex.go: how many runes the primitive operations leave.
use Prim.Native.Char.{Char}
use rips.Prelude.{
  ℕ, suc, ◌+◌, ◌≤◌, Bool, true, false, ◌==◌, if◌then◌else◌, String, Option, none, some, arith,
}
use rips.Lex.Reader.{
  runes, Lexer, ok, panicked, get, get_on, unget, unget_on, put_back, accept, accept_on, is_none,
  empty_token, quote,
}
use rips.Lex.Reader.Invariant.{Runs, Ends, Keeps, weaken-Runs, Primitive}

-- The runes that `unget` can put back.
abbrev pub pending : Option Char → ℕ
pending none = 0
pending (some c) = 1

module _ {F : Type 0} where
  -- At most so many runes are left.
  abbrev pub Loose : ℕ → Lexer F → Type 0
  Loose k l = runes l.rest ≤ k

  -- That holds also when the rune read last is put back.
  abbrev pub Settled : ℕ → Lexer F → Type 0
  Settled k l = runes l.rest + pending l.unread ≤ k

  abbrev pub After : ℕ → Lexer F → Type 0
  After k l = Loose k l × Settled (suc k) l

  pub settled-Loose : (k : ℕ) (l : Lexer F) → Settled k l → Loose k l
  settled-Loose k l j = omega arith

  pub get_on-After : (k : ℕ) (s : String) (l : Lexer F) → runes s ≤ suc k → After k (get_on s l).1
  get_on-After k String.[] l j = (omega arith, omega arith)
  get_on-After k (String.◌∷◌ c s) l j = (omega arith, omega arith)

  pub get_on-Settled : (k : ℕ) (s : String) (l : Lexer F) → runes s ≤ k → Settled k (get_on s l).1
  get_on-Settled k String.[] l j = omega arith
  get_on-Settled k (String.◌∷◌ c s) l j = omega arith

  get-After : (k : ℕ) → Runs ⊥ (Loose (suc k)) (After k) get
  unfolding get
  get-After k = record { runs = λ l j. get_on-After k l.rest l j }

  pub get-Loose : (k : ℕ) → Runs ⊥ (Loose (suc k)) (Loose k) get
  unfolding get
  get-Loose k = record { runs = λ l j. (get_on-After k l.rest l j).0 }

  pub get-Settled : (k : ℕ) → Runs ⊥ (Loose k) (Settled k) get
  unfolding get
  get-Settled k = record { runs = λ l j. get_on-Settled k l.rest l j }

  put_back-Settled :
      (k : ℕ) (u : Option Char) (b : Bool) (l : Lexer F)
      → runes l.rest + pending u ≤ k
      → Settled k l
      → Ends ⊥ (Settled k) (put_back u b l)
  put_back-Settled k none b l j i = i
  put_back-Settled k (some c) b l j i = omega arith

  unget_on-Settled :
      (k : ℕ) (o : Option ℕ) (l : Lexer F) → Settled k l → Ends ⊥ (Settled k) (unget_on o l)
  unget_on-Settled k none l j = j
  unget_on-Settled k (some n) l j = put_back-Settled k l.unread (n == 10) _ j j

  -- `accept` leaves the text alone.
  module _ (S : Type 0) (J : Lexer F → Type 0)
      (same : (l : Lexer F) (a : String) → J l → J (record l { accepted = a })) where
    empty-Ends :
        (b : Bool) (l : Lexer F)
        → J l
        → Ends {A = String} S J
            (if b then (ok "", record l { accepted = "" }) else (panicked empty_token, l))
    empty-Ends true l j = same l "" j
    empty-Ends false l j = j

    accept_on-Ends : (s : String) (l : Lexer F) → J l → Ends S J (accept_on s l)
    accept_on-Ends String.[] l j = empty-Ends (is_none l.lastrune) l j
    accept_on-Ends (String.◌∷◌ c s) l j = same l "" j

    pub accept-Keeps : Keeps S J accept
    unfolding accept
    accept-Keeps = record { runs = λ l j. accept_on-Ends l.accepted l j }

  pub primitive : (k : ℕ) → Primitive ⊥ (Settled k)
  unfolding unget quote
  primitive k = record {
    get_keeps = record { runs = λ l j. (get-Settled k).runs l (settled-Loose k l j) };
    unget_keeps = record { runs = λ l j. unget_on-Settled k l.lastrune l j };
    accept_keeps = accept-Keeps ⊥ (Settled k) (λ l a j. j);
    quote_keeps = λ q r. record { runs = λ l j. j };
  }

  unget-Loose : (k : ℕ) → Runs ⊥ (After k) (Loose (suc k)) unget
  unget-Loose k =
      weaken-Runs ⊥ (Settled (suc k)) (Loose (suc k)) (settled-Loose (suc k))
        (record { runs = λ l j. (primitive (suc k)).unget_keeps.runs l j.1 })

  accept-Loose : (k : ℕ) → Runs ⊥ (After k) (Loose k) accept
  accept-Loose k =
      weaken-Runs ⊥ (After k) (Loose k) (λ l j. j.0) (accept-Keeps ⊥ (After k) (λ l a j. j))
