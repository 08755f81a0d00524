-- ===== src/Lex/Scan/Progress.antt =====
-- lex/lex.go: `lexId`, `lexString` and `lexNum`, where the first rune that they read brings about what
-- the primitive operations keep.
use Prim.Native.Char.{code}
use rips.Prelude.{ℕ, ◌≡◌, refl, Bool, true, false, not, ◌||◌, ◌==◌, String}
use rips.Lex.Library.{Library}
use rips.Lex.Reader.{Lexer, get, get_on}
use rips.Lex.Reader.Invariant.{
  Runs, Ends, bind-Runs, when-Runs, weaken-Runs, pure-Keeps, fail-Keeps, Primitive, get_on-Runs,
}
use rips.Lex.Scan.{
  get_while, get_while_on, Base, dec, hex, oct, bin, lex_id, lex_num, lex_string, str_loop,
  str_loop_on, is_str_digit, num_from, based,
}
use rips.Lex.Scan.Invariant.{
  if-Keeps, get_while_on-Keeps, get_while-Keeps, rest-quote, quoted-Keeps, str_loop_on-Keeps,
  converted-Keeps, bad_number-Keeps, num_end-Keeps, num_from-Keeps,
}

-- From `Q` a rune that is read leads to `J`, which the primitive operations keep.
module _ {F S : Type 0} (Q J : Lexer F → Type 0) (p : Primitive S J) (g : Runs S Q J get) where
  get_while_on-Runs :
      (test : ℕ → Bool) (s : String) (l : Lexer F)
      → l.rest ≡ s
      → Q l
      → Ends S J (get_while_on test s l)
  unfolding get_while_on
  get_while_on-Runs test String.[] l e j = get_on-Runs Q J g String.[] l e j
  get_while_on-Runs test (String.◌∷◌ c s) l e j =
      let j' : J (get_on (String.◌∷◌ c s) l).1 = get_on-Runs Q J g (String.◌∷◌ c s) l e j in
      if-Keeps J p (test (code c)) _ _ (get_while_on-Keeps J p test s _ refl j') j'

  pub get_while-Runs : (test : ℕ → Bool) → Runs S Q J (get_while test)
  unfolding get_while
  get_while-Runs test = record { runs = λ l j. get_while_on-Runs test l.rest l refl j }

  module _ (lib : Library F) where
    str_loop_on-Runs :
        (s : String) (l : Lexer F) → l.rest ≡ s → Q l → Ends S J (str_loop_on lib s l)
    unfolding str_loop_on
    str_loop_on-Runs String.[] l e j = get_on-Runs Q J g String.[] l e j
    str_loop_on-Runs (String.◌∷◌ c String.[]) l e j =
        let l' = (get_on (String.◌∷◌ c String.[]) l).1 in
        let j' : J l' = get_on-Runs Q J g (String.◌∷◌ c String.[]) l e j in
        if-Keeps J p (not (is_str_digit lib (code c))) _ _ j' (
          if-Keeps J p (code c == 10) _ _
            (str_loop_on-Keeps J p lib String.[] _ (rest-quote l') (quoted-Keeps J p lib l' j'))
            (if-Keeps J p (code c == b'\\') _ _ (get_on-Runs J J p.get_keeps String.[] l' refl j')
              (str_loop_on-Keeps J p lib String.[] l' refl j')))
    str_loop_on-Runs (String.◌∷◌ c (String.◌∷◌ d s)) l e j =
        let l' = (get_on (String.◌∷◌ c (String.◌∷◌ d s)) l).1 in
        let j' : J l' = get_on-Runs Q J g (String.◌∷◌ c (String.◌∷◌ d s)) l e j in
        let l'' = (get_on (String.◌∷◌ d s) l').1 in
        let j'' : J l'' = get_on-Runs J J p.get_keeps (String.◌∷◌ d s) l' refl j' in
        if-Keeps J p (not (is_str_digit lib (code c))) _ _ j' (
          if-Keeps J p (code c == 10) _ _
            (str_loop_on-Keeps J p lib (String.◌∷◌ d s) _ (rest-quote l')
              (quoted-Keeps J p lib l' j'))
            (if-Keeps J p (code c == b'\\') _ _
              (if-Keeps J p (code d == b'"' || is_str_digit lib (code d)) _ _
                (str_loop_on-Keeps J p lib s l'' refl j'') j'')
              (str_loop_on-Keeps J p lib (String.◌∷◌ d s) l' refl j')))

    str_loop-Runs : Runs S Q J (str_loop lib)
    unfolding str_loop
    str_loop-Runs = record { runs = λ l j. str_loop_on-Runs l.rest l refl j }

    num_from-Runs : (has_dot : Bool) (base : Base) → Runs S Q J (num_from lib has_dot base)
    unfolding num_from
    num_from-Runs has_dot base = bind-Runs (get_while-Runs _) (λ r.
        when-Runs _
          (when-Runs _ (bad_number-Keeps J p lib _)
            (bind-Runs (get_while-Keeps J p _) (λ s. num_end-Keeps J p lib true base s)))
          (num_end-Keeps J p lib has_dot base r))

    -- A rune that is read in the state `P` leads to `Q`, as a first one does to `J`.
    module _ (P : Lexer F → Type 0) (first : Runs S P Q get) (w : (l : Lexer F) → J l → Q l) where
      pub lex_id-Runs : Runs S P Q (lex_id lib)
      unfolding lex_id
      lex_id-Runs = bind-Runs first (λ r. when-Runs _ (fail-Keeps _) (
          weaken-Runs S J Q w (
            bind-Runs (get_while-Runs _) (λ _.
              bind-Runs p.unget_keeps (λ _. bind-Runs p.accept_keeps (λ text. pure-Keeps _))))))

      pub lex_string-Runs : Runs S P Q (lex_string lib)
      unfolding lex_string
      lex_string-Runs = bind-Runs first (λ q. when-Runs _ (fail-Keeps _) (
          weaken-Runs S J Q w (
            bind-Runs str_loop-Runs (λ r. bind-Runs p.unget_keeps (λ _. when-Runs _ (fail-Keeps _) (
              when-Runs _ (fail-Keeps _) (
                bind-Runs p.get_keeps
                  (λ _. bind-Runs p.accept_keeps (λ text. converted-Keeps J p lib _ _ _)))))))))

      pub lex_num-Runs : Runs S P Q (lex_num lib)
      unfolding lex_num based
      lex_num-Runs =
          let again : (base : Base) → Runs S J J (based lib base) =
            λ base. bind-Runs p.get_keeps (λ _. num_from-Keeps J p lib false base) in
          bind-Runs first (λ r. weaken-Runs S J Q w (
            when-Runs _ (bind-Runs g (λ _. num_from-Keeps J p lib true dec)) (
              when-Runs _ (num_from-Runs false dec) (
                bind-Runs g (λ s. when-Runs _ (again hex) (
                  when-Runs _ (again bin) (
                    when-Runs _ (again oct)
                      (bind-Runs p.unget_keeps (λ _. num_from-Keeps J p lib false dec)))))))))
