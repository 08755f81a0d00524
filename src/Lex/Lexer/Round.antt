-- ===== src/Lex/Lexer/Round.antt =====
-- lex/lex.go: a round of the loop of `Lex` leaves less text than there was.
use Prim.Native.Char.{Char, code}
use rips.Prelude.{
  ℕ, zero, suc, ◌-◌, ◌≤◌, ◌<◌, ◌≡◌, refl, Bool, ◌==◌, String, Option, none, some, arith,
}
use rips.Lex.Token.{TokType}
use rips.Lex.Library.{Library, is_space}
use rips.Lex.Reader.{
  runes, Lexer, L, Token, get_on, unget, unget_on, put_back, accept, pure, ◌>>=◌, ◌>>◌, when,
  and_then,
}
use rips.Lex.Reader.Invariant.{
  Runs, Ends, Keeps, bind-Runs, when-Runs, weaken-Runs, pure-Keeps, fail-Keeps,
}
use rips.Lex.Scan.{holds}
use rips.Lex.Scan.Invariant.{if-Keeps}
use rips.Lex.Scan.Progress.{lex_id-Runs, lex_num-Runs, lex_string-Runs}
use rips.Lex.Lexer.{
  eat_comment, eat_comment_on, may_lex_double, accepted_as, found, on_other, on_rune,
}
use rips.Lex.Lexer.Invariant.{eat_comment_on-Keeps, settle-Keeps, read_pair-Keeps}
use rips.Lex.Reader.Progress.{
  Loose, Settled, After, settled-Loose, get_on-After, get_on-Settled, get-Settled, get-Loose,
  accept-Keeps, primitive,
}

module _ {F : Type 0} where
  comment_on-Runs :
      (k : ℕ) (s : String) (l : Lexer F)
      → runes s ≤ k
      → l.rest ≡ s
      → Ends ⊥ (Settled k) (eat_comment_on s l)
  unfolding eat_comment_on accept pure
  comment_on-Runs k String.[] l j e =
      (primitive k).unget_keeps.runs _ (get_on-Settled k String.[] l j)
  comment_on-Runs k (String.◌∷◌ c s) l j e =
      let l' = (get_on (String.◌∷◌ c s) l).1 in
      let j' : Settled k (accept l').1 =
        (primitive k).accept_keeps.runs l' (get_on-Settled k (String.◌∷◌ c s) l j) in
      if-Keeps (Settled k) (primitive k) (code c == 10) _ _ j'
        (eat_comment_on-Keeps (Settled k) (primitive k) s _ refl j')

  comment-Loose : (k : ℕ) → Runs {F = F} ⊥ (Loose k) (Loose k) eat_comment
  unfolding eat_comment
  comment-Loose k =
      weaken-Runs ⊥ (Settled k) (Loose k) (settled-Loose k)
        (record { runs = λ l j. comment_on-Runs k l.rest l j refl })

  -- What follows after the first rune of a token, with `k` runes left behind it.
  module _ (lib : Library F) (k : ℕ) where
    double-Loose : (t : TokType) → Runs ⊥ (Loose k) (Loose k) (may_lex_double lib t)
    unfolding may_lex_double
    double-Loose t = weaken-Runs ⊥ (Settled k) (Loose k) (settled-Loose k) (
        bind-Runs (get-Settled k) (λ _.
          bind-Runs (read_pair-Keeps (Settled k) (primitive k) lib)
            (λ o. settle-Keeps (Settled k) (primitive k) lib t o)))

    accept_k : Keeps {F = F} ⊥ (Loose k) accept
    accept_k = accept-Keeps ⊥ (Loose k) (λ l a j. j)

    as-Loose : (t : TokType) → Keeps ⊥ (Loose k) (accepted_as lib t)
    unfolding accepted_as
    as-Loose t = bind-Runs accept_k (λ text. pure-Keeps _)

    found-Runs :
        (P : Lexer F → Type 0) (o : Option TokType) (f : TokType → L F (Token F))
        (m : L F (Token F))
        → ((t : TokType) → Runs ⊥ P (Loose k) (f t))
        → Runs ⊥ P (Loose k) m
        → Runs ⊥ P (Loose k) (found lib o f m)
    found-Runs P none f m h i = i
    found-Runs P (some t) f m h i = h t

    after : {A : Type 0} {m : L F A} → Runs ⊥ (Loose k) (Loose k) m → Runs ⊥ (After k) (Loose k) m
    after h = record { runs = λ l j. h.runs l j.0 }

    -- A rune that is put back is there again; a panic leaves the text as it was.
    module _ {A : Type 0} {m : L F A} (h : Runs ⊥ (Loose (suc k)) (Loose k) m) where
      put_back-Ends :
          (u : Option Char) (b : Bool) (l : Lexer F)
          → Loose k l
          → Ends ⊥ (Loose k) (and_then (put_back u b l) (λ _. m))
      put_back-Ends none b l j = j
      put_back-Ends (some c) b l j = h.runs _ (omega arith)

      unget_on-Ends :
          (o : Option ℕ) (l : Lexer F)
          → Loose k l
          → Ends ⊥ (Loose k) (and_then (unget_on o l) (λ _. m))
      unget_on-Ends none l j = h.runs l (omega arith)
      unget_on-Ends (some n) l j = put_back-Ends l.unread (n == 10) _ j

      back : Runs ⊥ (After k) (Loose k) (unget >> m)
      unfolding unget ◌>>=◌
      back = record { runs = λ l j. unget_on-Ends l.lastrune l j.0 }

    on_other-Loose : (c : Char) → Runs ⊥ (After k) (Loose k) (on_other lib c)
    unfolding on_other
    on_other-Loose c =
        let J = Settled k in
        let Q = Loose k in
        let P = Loose (suc k) in
        let p = primitive k in
        found-Runs (After k) _ _ _ (λ t. after (as-Loose t))
          (found-Runs (After k) _ _ _ (λ t. after (bind-Runs (double-Loose t) as-Loose))
            (when-Runs _
              (back (lex_string-Runs Q J p (get-Settled k) lib P (get-Loose k) (settled-Loose k)))
              (when-Runs _
                (back (lex_num-Runs Q J p (get-Settled k) lib P (get-Loose k) (settled-Loose k)))
                (when-Runs _
                  (back (
                    bind-Runs
                      (lex_id-Runs Q J p (get-Settled k) lib P (get-Loose k) (settled-Loose k))
                      (λ t. pure-Keeps _)))
                  (after (fail-Keeps _))))))

    on_rune-Loose :
        (again : L F (Token F)) (c : Char)
        → Keeps ⊥ (Loose k) again
        → Runs ⊥ (After k) (Loose k) (on_rune lib again (some c))
    unfolding on_rune
    on_rune-Loose again c h = when-Runs _ (after (bind-Runs accept_k (λ _. pure-Keeps _))) (
        when-Runs _ (after (bind-Runs accept_k (λ _. pure-Keeps _)))
          (when-Runs _ (after (bind-Runs (comment-Loose k) (λ _. h))) (on_other-Loose c)))

    pub round-Loose :
        (again : L F (Token F)) (c : Char)
        → Keeps ⊥ (Loose k) again
        → Runs ⊥
            (After k)
            (Loose k)
            (when (holds (is_space lib) (some c)) (do accept; again) (on_rune lib again (some c)))
    round-Loose again c h =
        when-Runs _ (after (bind-Runs accept_k (λ _. h))) (on_rune-Loose again c h)

    end-Loose : (again : L F (Token F)) (n : ℕ) → Keeps ⊥ (Loose n) (on_rune lib again none)
    unfolding on_rune
    end-Loose again n = bind-Runs (accept-Keeps ⊥ (Loose n) (λ l a j. j)) (λ _. pure-Keeps _)

  -- A round from a text of at most `n` runes, where the next round keeps what is fewer than `f`.
  pub round-Ends :
      (lib : Library F) (f : ℕ) (again : L F (Token F)) (n : ℕ)
      → n < suc f
      → ((k : ℕ) → k < f → Keeps ⊥ (Loose k) again)
      → (s : String) (l : Lexer F) → runes s ≤ n
      → Ends ⊥ (Loose (n - 1)) (
          let (r, l') = get_on s l in
          when (holds (is_space lib) r) (do accept; again) (on_rune lib again r) l')
  unfolding when
  round-Ends lib f again n h i String.[] l j =
      (end-Loose lib (n - 1) again (n - 1)).runs _ (omega arith)
  round-Ends lib f again zero h i (String.◌∷◌ c s) l j = absurd (omega arith)
  round-Ends lib f again (suc k) h i (String.◌∷◌ c s) l j =
      (weaken-Runs ⊥ (Loose k) (Loose (suc k - 1)) (λ l j. omega arith)
          (round-Loose lib k again c (i k (omega arith)))).runs
        _ (get_on-After k (String.◌∷◌ c s) l j)
