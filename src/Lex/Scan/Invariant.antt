-- ===== src/Lex/Scan/Invariant.antt =====
-- lex/lex.go: what the primitive operations keep, `lexId`, `lexString` and `lexNum` keep.
use Prim.Native.Char.{Char, code}
use rips.Prelude.{
  ℕ, ◌≡◌, refl, Bool, true, false, not, ◌||◌, ◌==◌, if◌then◌else◌, String, Option, none, some,
}
use rips.Lex.Library.{Library}
use rips.Lex.Reader.{Token, Lexer, Res, LexErr, get_on, quote}
use rips.Lex.Reader.Invariant.{
  Ends, Keeps, bind-Runs, when-Runs, pure-Keeps, fail-Keeps, Primitive, get_on-Runs,
}
use rips.Lex.Scan.{
  converted, get_while, get_while_on, Base, dec, hex, oct, bin, lex_id, lex_num, lex_string,
  str_loop, str_loop_on, is_str_digit, float_end, int_end, bad_number, exponent_end, num_end,
  num_from, based,
}

pub rest-quote : {F : Type 0} (l : Lexer F) → (quote "\\" "n" l).1.rest ≡ l.rest
unfolding quote
rest-quote l = refl

module _ {F S : Type 0} (J : Lexer F → Type 0) (p : Primitive S J) where
  pub if-Keeps :
      {A : Type 0} (b : Bool) (r q : Res A × Lexer F)
      → Ends S J r
      → Ends S J q
      → Ends S J (if b then r else q)
  if-Keeps true r q h k = h
  if-Keeps false r q h k = k

  pub get_while_on-Keeps :
      (test : ℕ → Bool) (s : String) (l : Lexer F)
      → l.rest ≡ s
      → J l
      → Ends S J (get_while_on test s l)
  unfolding get_while_on
  get_while_on-Keeps test String.[] l e j = get_on-Runs J J p.get_keeps String.[] l e j
  get_while_on-Keeps test (String.◌∷◌ c s) l e j =
      let j' : J (get_on (String.◌∷◌ c s) l).1 =
        get_on-Runs J J p.get_keeps (String.◌∷◌ c s) l e j in
      if-Keeps (test (code c)) _ _ (get_while_on-Keeps test s _ refl j') j'

  pub get_while-Keeps : (test : ℕ → Bool) → Keeps S J (get_while test)
  unfolding get_while
  get_while-Keeps test = record { runs = λ l j. get_while_on-Keeps test l.rest l refl j }

  module _ (lib : Library F) where
    pub lex_id-Keeps : Keeps S J (lex_id lib)
    unfolding lex_id
    lex_id-Keeps = bind-Runs p.get_keeps (λ r. when-Runs _ (fail-Keeps _) (
        bind-Runs (get_while-Keeps _)
          (λ _. bind-Runs p.unget_keeps (λ _. bind-Runs p.accept_keeps (λ text. pure-Keeps _)))))

    pub quoted-Keeps : (l : Lexer F) → J l → J (quote "\\" "n" l).1
    unfolding quote
    quoted-Keeps l j = (p.quote_keeps "\\" "n").runs l j

    pub str_loop_on-Keeps :
        (s : String) (l : Lexer F) → l.rest ≡ s → J l → Ends S J (str_loop_on lib s l)
    unfolding str_loop_on
    str_loop_on-Keeps String.[] l e j = get_on-Runs J J p.get_keeps String.[] l e j
    str_loop_on-Keeps (String.◌∷◌ c String.[]) l e j =
        let l' = (get_on (String.◌∷◌ c String.[]) l).1 in
        let j' : J l' = get_on-Runs J J p.get_keeps (String.◌∷◌ c String.[]) l e j in
        if-Keeps (not (is_str_digit lib (code c))) _ _ j' (
          if-Keeps (code c == 10) _ _
            (str_loop_on-Keeps String.[] _ (rest-quote l') (quoted-Keeps l' j'))
            (if-Keeps (code c == b'\\') _ _ (get_on-Runs J J p.get_keeps String.[] l' refl j')
              (str_loop_on-Keeps String.[] l' refl j')))
    str_loop_on-Keeps (String.◌∷◌ c (String.◌∷◌ d s)) l e j =
        let l' = (get_on (String.◌∷◌ c (String.◌∷◌ d s)) l).1 in
        let j' : J l' = get_on-Runs J J p.get_keeps (String.◌∷◌ c (String.◌∷◌ d s)) l e j in
        let l'' = (get_on (String.◌∷◌ d s) l').1 in
        let j'' : J l'' = get_on-Runs J J p.get_keeps (String.◌∷◌ d s) l' refl j' in
        if-Keeps (not (is_str_digit lib (code c))) _ _ j' (
          if-Keeps (code c == 10) _ _
            (str_loop_on-Keeps (String.◌∷◌ d s) _ (rest-quote l') (quoted-Keeps l' j'))
            (if-Keeps (code c == b'\\') _ _
              (if-Keeps (code d == b'"' || is_str_digit lib (code d)) _ _
                (str_loop_on-Keeps s l'' refl j'') j'')
              (str_loop_on-Keeps (String.◌∷◌ d s) l' refl j')))

    str_loop-Keeps : Keeps S J (str_loop lib)
    unfolding str_loop
    str_loop-Keeps = record { runs = λ l j. str_loop_on-Keeps l.rest l refl j }

    pub converted-Keeps :
        {A : Type 0} (e : LexErr) (f : A → Token F) (o : Option A) → Keeps S J (converted lib e f o)
    converted-Keeps e f none = fail-Keeps e
    converted-Keeps e f (some x) = pure-Keeps (f x)

    pub lex_string-Keeps : Keeps S J (lex_string lib)
    unfolding lex_string
    lex_string-Keeps = bind-Runs p.get_keeps (λ q. when-Runs _ (fail-Keeps _) (
        bind-Runs str_loop-Keeps (λ r. bind-Runs p.unget_keeps (λ _. when-Runs _ (fail-Keeps _) (
          when-Runs _ (fail-Keeps _) (
            bind-Runs p.get_keeps
              (λ _. bind-Runs p.accept_keeps (λ text. converted-Keeps _ _ _))))))))

    pub float_end-Keeps : Keeps S J (float_end lib)
    unfolding float_end
    float_end-Keeps = bind-Runs (get_while-Keeps _) (λ _.
        bind-Runs p.unget_keeps (λ _. bind-Runs p.accept_keeps (λ text. converted-Keeps _ _ _)))

    pub int_end-Keeps : (base : Base) → Keeps S J (int_end lib base)
    unfolding int_end
    int_end-Keeps base =
        bind-Runs p.unget_keeps (λ _. bind-Runs p.accept_keeps (λ text. converted-Keeps _ _ _))

    pub bad_number-Keeps : (e : LexErr) → Keeps S J (bad_number lib e)
    unfolding bad_number
    bad_number-Keeps e = bind-Runs p.accept_keeps (λ _. fail-Keeps e)

    pub exponent_end-Keeps : (base : Base) → Keeps S J (exponent_end lib base)
    unfolding exponent_end
    exponent_end-Keeps base = when-Runs _ (bad_number-Keeps _) float_end-Keeps

    pub num_end-Keeps :
        (has_dot : Bool) (base : Base) (r : Option Char) → Keeps S J (num_end lib has_dot base r)
    unfolding num_end
    num_end-Keeps has_dot base r =
        when-Runs _
          (bind-Runs p.get_keeps (λ s.
            when-Runs _ (bind-Runs p.get_keeps (λ _. exponent_end-Keeps base))
              (exponent_end-Keeps base)))
          (when-Runs _ (bind-Runs p.unget_keeps (λ _. exponent_end-Keeps base))
            (int_end-Keeps base))

    pub num_from-Keeps : (has_dot : Bool) (base : Base) → Keeps S J (num_from lib has_dot base)
    unfolding num_from
    num_from-Keeps has_dot base = bind-Runs (get_while-Keeps _) (λ r.
        when-Runs _
          (when-Runs _ (bad_number-Keeps _)
            (bind-Runs (get_while-Keeps _) (λ s. num_end-Keeps true base s)))
          (num_end-Keeps has_dot base r))

    based-Keeps : (base : Base) → Keeps S J (based lib base)
    unfolding based
    based-Keeps base = bind-Runs p.get_keeps (λ _. num_from-Keeps false base)

    pub lex_num-Keeps : Keeps S J (lex_num lib)
    unfolding lex_num
    lex_num-Keeps = bind-Runs p.get_keeps (λ r.
        when-Runs _ (bind-Runs p.get_keeps (λ _. num_from-Keeps true dec)) (
          when-Runs _ (num_from-Keeps false dec) (
            bind-Runs p.get_keeps (λ s. when-Runs _ (based-Keeps hex) (
              when-Runs _ (based-Keeps bin) (
                when-Runs _ (based-Keeps oct)
                  (bind-Runs p.unget_keeps (λ _. num_from-Keeps false dec))))))))
