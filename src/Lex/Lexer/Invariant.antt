-- ===== src/Lex/Lexer/Invariant.antt =====
-- lex/lex.go: what the primitive operations keep, `Lex`, `Peek` and `LexWhileNot` keep.
use Prim.Native.Char.{Char, code}
use rips.Prelude.{
  ℕ, zero, suc, ◌+◌, ◌≡◌, refl, Bool, true, false, ◌==◌, Bool, true, false, if◌then◌else◌,
  if◌then◌else◌, String, Option, none, some, List,
}
use rips.Lex.Token.{TokType, same_tok, tok_bad}
use rips.Lex.Library.{Library}
use rips.Lex.Reader.{
  runes, Token, Lexer, L, Res, LexErr, ok, failed, panicked, stuck, pure, get_on, accept, save,
}
use rips.Lex.Reader.Invariant.{
  Ends, Keeps, bind-Runs, when-Runs, pure-Keeps, fail-Keeps, Primitive, get_on-Runs,
}
use rips.Lex.Scan.Invariant.{if-Keeps, lex_id-Keeps, lex_num-Keeps, lex_string-Keeps}
use rips.Lex.Lexer.{
  eat_comment, eat_comment_on, read_pair, settle, may_lex_double, accepted_as, found, on_other,
  on_rune, lex_loop, next_token, deferred, lex, peek, lex_while_not, lex_while_not_on,
}

module _ {F : Type 0} (S : Type 0) (J : Lexer F → Type 0) where
  either-Ends :
      {A : Type 0} (b : Bool) (e : LexErr) (a : A) (l : Lexer F)
      → J l
      → Ends S J (if b then failed e else ok a, l)
  either-Ends true e a l j = j
  either-Ends false e a l j = j

  pub deferred-Ends :
      (lib : Library F) (r : Res (Token F) × Lexer F)
      → Ends S J r
      → Ends S J (deferred lib r.0, r.1)
  deferred-Ends lib (ok t, l) j = either-Ends (same_tok t.type tok_bad) _ _ l j
  deferred-Ends lib (failed e, l) j = j
  deferred-Ends lib (panicked e, l) j = j
  deferred-Ends lib (stuck, l) j = j

module _ {F S : Type 0} (J : Lexer F → Type 0) (p : Primitive S J) where
  pub eat_comment_on-Keeps :
      (s : String) (l : Lexer F) → l.rest ≡ s → J l → Ends S J (eat_comment_on s l)
  unfolding eat_comment_on accept pure
  eat_comment_on-Keeps String.[] l e j =
      p.unget_keeps.runs _ (get_on-Runs J J p.get_keeps String.[] l e j)
  eat_comment_on-Keeps (String.◌∷◌ c s) l e j =
      let l' = (get_on (String.◌∷◌ c s) l).1 in
      let j' : J (accept l').1 =
        p.accept_keeps.runs l' (get_on-Runs J J p.get_keeps (String.◌∷◌ c s) l e j) in
      if-Keeps J p (code c == 10) _ _ j' (eat_comment_on-Keeps s _ refl j')

  pub eat_comment-Keeps : Keeps S J (eat_comment {F = F})
  unfolding eat_comment
  eat_comment-Keeps = record { runs = λ l j. eat_comment_on-Keeps l.rest l refl j }

  module _ (lib : Library F) where
    pub settle-Keeps : (t : TokType) (o : Option TokType) → Keeps S J (settle lib t o)
    settle-Keeps t none = bind-Runs p.unget_keeps (λ _. pure-Keeps t)
    settle-Keeps t (some t') = pure-Keeps t'

    pub read_pair-Keeps : Keeps S J (read_pair lib)
    unfolding read_pair
    read_pair-Keeps = record { runs = λ l j. j }

    may_lex_double-Keeps : (t : TokType) → Keeps S J (may_lex_double lib t)
    unfolding may_lex_double
    may_lex_double-Keeps t =
        bind-Runs p.get_keeps (λ _. bind-Runs read_pair-Keeps (λ o. settle-Keeps t o))

    pub accepted_as-Keeps : (t : TokType) → Keeps S J (accepted_as lib t)
    unfolding accepted_as
    accepted_as-Keeps t = bind-Runs p.accept_keeps (λ text. pure-Keeps _)

    pub found-Keeps :
        (o : Option TokType) (f : TokType → L F (Token F)) (k : L F (Token F))
        → ((t : TokType) → Keeps S J (f t))
        → Keeps S J k
        → Keeps S J (found lib o f k)
    found-Keeps none f k h i = i
    found-Keeps (some t) f k h i = h t

    pub on_other-Keeps : (c : Char) → Keeps S J (on_other lib c)
    unfolding on_other
    on_other-Keeps c = found-Keeps _ _ _ accepted_as-Keeps (
        found-Keeps _ _ _ (λ t. bind-Runs (may_lex_double-Keeps t) (λ t'. accepted_as-Keeps t'))
          (when-Runs _ (bind-Runs p.unget_keeps (λ _. lex_string-Keeps J p lib)) (
            when-Runs _ (bind-Runs p.unget_keeps (λ _. lex_num-Keeps J p lib)) (
              when-Runs _
                (bind-Runs p.unget_keeps
                  (λ _. bind-Runs (lex_id-Keeps J p lib) (λ t. pure-Keeps _)))
                (fail-Keeps _)))))

    on_rune-Keeps :
        (again : L F (Token F)) (r : Option Char)
        → Keeps S J again
        → Keeps S J (on_rune lib again r)
    unfolding on_rune
    on_rune-Keeps again none h = bind-Runs p.accept_keeps (λ _. pure-Keeps _)
    on_rune-Keeps again (some c) h = when-Runs _ (bind-Runs p.accept_keeps (λ _. pure-Keeps _)) (
        when-Runs _ (bind-Runs p.accept_keeps (λ _. pure-Keeps _))
          (when-Runs _ (bind-Runs eat_comment-Keeps (λ _. h)) (on_other-Keeps c)))

    module _ (fuel : S) where
      pub round-Keeps : (f : ℕ) → Keeps S J (lex_loop lib f)
      unfolding lex_loop
      round-Keeps zero = record { runs = λ l j. fuel }
      round-Keeps (suc f) = record {
        runs =
            (bind-Runs p.get_keeps (λ r.
              when-Runs _ (bind-Runs p.accept_keeps (λ _. round-Keeps f))
                (on_rune-Keeps (lex_loop lib f) r (round-Keeps f)))).runs;
      }

      module _ (save_keeps : (o : Option (Token F)) → Keeps S J (save o)) where
        next_token-Keeps : (o : Option (Token F)) → Keeps S J (next_token lib o)
        next_token-Keeps (some t) = bind-Runs (save_keeps none) (λ _. pure-Keeps t)
        next_token-Keeps none = record { runs = λ l j. (round-Keeps (suc (runes l.rest))).runs l j }

        pub lex-Keeps : Keeps S J (lex lib)
        unfolding lex
        lex-Keeps = record {
          runs = λ l j.
              deferred-Ends S J lib (next_token lib l.saved l)
                ((next_token-Keeps l.saved).runs l j);
        }

        pub peek-Keeps : Keeps S J (peek lib)
        unfolding peek
        peek-Keeps = bind-Runs lex-Keeps (λ t. bind-Runs (save_keeps (some t)) (λ _. pure-Keeps t))

        sync-Keeps : (f : ℕ) (tps : List TokType) → Keeps S J (lex_while_not_on lib f tps)
        unfolding lex_while_not_on
        sync-Keeps zero tps = record { runs = λ l j. fuel }
        sync-Keeps (suc f) tps = record {
          runs =
              (bind-Runs peek-Keeps (λ t.
                when-Runs _ (pure-Keeps t) (bind-Runs lex-Keeps (λ _. sync-Keeps f tps)))).runs;
        }

        pub lex_while_not-Keeps : (tps : List TokType) → Keeps S J (lex_while_not lib tps)
        unfolding lex_while_not
        lex_while_not-Keeps tps = record {
          runs = λ l j. (sync-Keeps (runes l.rest + 2) tps).runs l j;
        }
