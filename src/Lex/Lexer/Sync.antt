-- ===== src/Lex/Lexer/Sync.antt =====
-- lex/lex.go: `LexWhileNot` comes to an end, at the latest at the end of the text.
use rips.Prelude.{
  ℕ, zero, suc, ◌+◌, ◌-◌, ◌≤◌, ◌<◌, ◌≡◌, refl, sym, ap₂, arith, Bool, true, false, ◌||◌, String,
  Option, none, some, List, ◌⊎◌, inl, inr,
}
use mathlib.Core.Path.{subst}
use rips.Lex.Token.{TokType, tok_eof, same_tok, contains_rune}
use rips.Lex.Library.{Library}
use rips.Lex.Scan.{token}
use rips.Lex.Reader.{
  runes, Token, Lexer, L, Res, ok, failed, panicked, stuck, ◌>>=◌, ◌>>◌, and_then, pure, when, get,
  accept, save,
}
use rips.Lex.Reader.Invariant.{Ends, weaken-Ends, and_then-Ends}
use rips.Lex.Lexer.{lex, lex_loop, on_rune, peek, lex_while_not, lex_while_not_on}
use rips.Lex.Lexer.Progress.{count, left, lex-left}

pub runes-zero : (s : String) → runes s ≡ 0 → s ≡ ""
runes-zero String.[] e = refl
runes-zero (String.◌∷◌ c s) e = absurd (omega arith)

pub count-zero : {F : Type 0} (o : Option (Token F)) → count o ≡ 0 → o ≡ none
count-zero none e = refl
count-zero (some t) e = absurd (omega arith)

pub zero_or_more : (n : ℕ) → (n ≡ 0) ⊎ (0 < n)
zero_or_more zero = inl refl
zero_or_more (suc n) = inr (omega arith)

module _ {F : Type 0} (lib : Library F) where
  at_end_as :
      (a : String) (l : Lexer F)
      → (lex lib (record l { rest = ""; accepted = a; saved = none })).0 ≡ ok (token lib "" tok_eof)
  unfolding lex lex_loop get on_rune when accept pure ◌>>=◌
  at_end_as String.[] l = refl
  at_end_as (String.◌∷◌ c a) l = refl

  -- At the end of the text the token is that of the end.
  pub at_end :
      (l : Lexer F) → l.rest ≡ "" → l.saved ≡ none → (lex lib l).0 ≡ ok (token lib "" tok_eof)
  at_end l e s =
      subst (λ x. (lex lib x).0 ≡ ok (token lib "" tok_eof))
        (ap₂ (λ a b. record l { rest = a; saved = b }) (sym e) (sym s)) (at_end_as l.accepted l)

  peeked-left :
      (n : ℕ) (r : Res (Token F) × Lexer F)
      → Ends ⊥ (λ l. left l ≤ n) r
      → Ends ⊥ (λ l. left l ≤ n + 1) (and_then r (λ t. do save (some t); pure t))
  unfolding ◌>>=◌ save pure
  peeked-left n (ok t, l) h = omega arith
  peeked-left n (failed e, l) h = omega arith
  peeked-left n (panicked e, l) h = omega arith
  peeked-left n (stuck, l) h = h

  peek-left : (l : Lexer F) → Ends ⊥ (λ l'. left l' ≤ left l - 1 + 1) (peek lib l)
  unfolding peek ◌>>=◌
  peek-left l = peeked-left (left l - 1) (lex lib l) (lex-left lib l)

  at_end_peek :
      (l : Lexer F) → l.rest ≡ "" → l.saved ≡ none → (peek lib l).0 ≡ ok (token lib "" tok_eof)
  unfolding peek ◌>>=◌ save pure
  at_end_peek l e s =
      subst
        (λ x.
          (and_then (x, (lex lib l).1) (λ t. do save (some t); pure t)).0
          ≡ ok (token lib "" tok_eof))
        (sym (at_end l e s)) refl

  -- The rest of a round of the search, behind `Peek`.
  abbrev round : ℕ → List TokType → Token F → L F (Token F)
  round f tps t =
      when (same_tok t.type tok_eof || contains_rune tps t.type) (pure t)
        (do lex lib; lex_while_not_on lib f tps)

  -- At the end of the text the search is over.
  ended-left :
      (f n : ℕ) (tps : List TokType) (r : Res (Token F) × Lexer F)
      → r.0 ≡ ok (token lib "" tok_eof)
      → Ends ⊥ (λ l. left l ≤ n) r
      → Ends ⊥ (λ l. left l ≤ n) (and_then r (round f tps))
  unfolding when pure
  ended-left f n tps r e h =
      subst (λ x. Ends ⊥ (λ l. left l ≤ n) (and_then (x, r.1) (round f tps))) (sym e)
        (subst (λ x. Ends ⊥ (λ l. left l ≤ n) (x, r.1)) e h)

  -- `Lex` and the rounds behind it, where those end.
  module _ (f n : ℕ) (tps : List TokType)
      (ih : (l : Lexer F)
        → left l ≤ n
        → Ends ⊥ (λ l'. left l' ≤ n + 1) (lex_while_not_on lib f tps l)) where
    more-left :
        (r : Res (Token F) × Lexer F)
        → Ends ⊥ (λ l. left l ≤ n) r
        → Ends ⊥ (λ l'. left l' ≤ n + 1) (and_then r (λ t. lex_while_not_on lib f tps))
    more-left (ok t, l) h = ih l h
    more-left (failed e, l) h = omega arith
    more-left (panicked e, l) h = omega arith
    more-left (stuck, l) h = h

    round-left :
        (b : Bool) (t : Token F) (l : Lexer F)
        → left l ≤ n + 1
        → Ends ⊥
            (λ l'. left l' ≤ n + 1)
            (when b (pure t) (do lex lib; lex_while_not_on lib f tps) l)
    unfolding when pure ◌>>=◌
    round-left true t l h = h
    round-left false t l h = more-left (lex lib l) (
        weaken-Ends ⊥ (λ l'. left l' ≤ left l - 1) (λ l'. left l' ≤ n) (λ l' j. omega arith)
          (lex lib l) (lex-left lib l))

  sync-left :
      (f : ℕ) (tps : List TokType) (l : Lexer F)
      → left l < f
      → Ends ⊥ (λ l'. left l' ≤ left l - 1 + 1) (lex_while_not_on lib f tps l)
  unfolding lex_while_not_on ◌>>=◌
  sync-left zero tps l h = absurd (omega arith)
  sync-left (suc f) tps l h = elim (zero_or_more (left l)) [
    | inl e ↦
        ended-left f _ tps (peek lib l)
          (at_end_peek l (runes-zero l.rest (omega arith)) (count-zero l.saved (omega arith)))
          (peek-left l)
    | inr e ↦
        let ih : (l' : Lexer F)
            → left l' ≤ left l - 1
            → Ends ⊥ (λ l''. left l'' ≤ left l - 1 + 1) (lex_while_not_on lib f tps l') =
          λ l' i.
            weaken-Ends ⊥ (λ l''. left l'' ≤ left l' - 1 + 1) (λ l''. left l'' ≤ left l - 1 + 1)
              (λ l'' j. omega arith) _ (sync-left f tps l' (omega arith)) in
        and_then-Ends (peek lib l) (round f tps) (peek-left l) (λ t. record {
          runs = λ l' j.
              round-left f (left l - 1) tps ih (same_tok t.type tok_eof || contains_rune tps t.type)
                t l' j;
        })
  ]

  -- `LexWhileNot` ends, whatever the text, the token types and the state of the lexer, with no more left
  -- to read than before, but for the token of the end that `Peek` keeps.
  pub lex_while_not-left :
      (tps : List TokType) (l : Lexer F)
      → Ends ⊥ (λ l'. left l' ≤ left l - 1 + 1) (lex_while_not lib tps l)
  unfolding lex_while_not
  lex_while_not-left tps l = sync-left (runes l.rest + 2) tps l (enough l.saved)
    where
      enough : (o : Option (Token F)) → runes l.rest + count o < runes l.rest + 2
      enough none = omega arith
      enough (some t) = omega arith
