-- ===== src/Lex/Scan.antt =====
-- lex/lex.go: `lexId`, `lexString` and `lexNum`, which read one token after the lexer has seen its
-- first rune and put it back.
pub mod Invariant
pub mod Progress
use Prim.Native.Char.{Char, code}
use rips.Prelude.{
  ℕ, Bool, true, false, not, ◌||◌, ◌&&◌, ◌==◌, if◌then◌else◌, String, Option, none, some,
}
use rips.Lex.Token.{TokType, tok_bad, tok_id, tok_str_val, tok_int_val, tok_float_val}
use rips.Lex.Library.{Library, is_letter, is_digit, is_graphic, between}
use rips.Lex.Reader.{
  Token, Lexer, L, Res, ok, failed, ◌>>=◌, ◌>>◌, pure, fail, when, and_then, get, get_on, unget,
  accept, quote, LexErr, bad_id, bad_str, bad_escape, newline_in_str, unterminated_str,
  badly_quoted, bad_int, bad_float, bad_float_with_hex,
}

-- A test on a rune that was read; `RuneEof` is in no class.
abbrev pub holds : (ℕ → Bool) → Option Char → Bool
holds p none = false
holds p (some c) = p (code c)

abbrev pub is_rune : ℕ → Option Char → Bool
is_rune k r = holds (λ c. c == k) r

-- `for r = l.get(); p(r); r = l.get()`, on a reader that has the text given left: the first rune that
-- fails the test.
unfoldable pub get_while_on : {F : Type 0} → (ℕ → Bool) → String → L F (Option Char)
get_while_on p String.[] l = (ok none, (get_on String.[] l).1)
get_while_on p (String.◌∷◌ c s) l =
    let l' = (get_on (String.◌∷◌ c s) l).1 in
    let rest = get_while_on p s l' in if p (code c) then rest else (ok (some c), l')

unfoldable pub get_while : {F : Type 0} → (ℕ → Bool) → L F (Option Char)
get_while p l = get_while_on p l.rest l

-- The bases of integers, by the rune after the 0.
pub data Base : Type 0 where
  dec hex oct bin : Base

abbrev pub is_quote : Base → Bool
is_quote dec = false
is_quote _ = true

module _ {F : Type 0} (lib : Library F) where
  abbrev no_token : Token F
  no_token = record {
    lexema = "";
    type = tok_bad;
    tok_float = lib.float_zero;
    tok_int = 0;
    tok_str = "";
    tok_bool = false;
  }

  abbrev pub token : String → TokType → Token F
  token text t = record no_token { lexema = text; type = t }

  abbrev pub is_alpha : ℕ → Bool
  is_alpha c = is_digit lib c || is_letter lib c || c == b'_'

  -- The token with the value of a conversion, or the error.
  abbrev pub converted : {A : Type 0} → LexErr → (A → Token F) → Option A → L F (Token F)
  converted e f none = fail e
  converted e f (some x) = pure (f x)

  unfoldable pub lex_id : L F (Token F)
  lex_id = do
    r ← get
    when (not (holds (λ c. is_letter lib c || c == b'_') r)) (fail bad_id)
        do get_while is_alpha; unget; text ← accept; pure (token text tok_id)

  abbrev pub is_str_digit : ℕ → Bool
  is_str_digit c = is_graphic lib c && not (c == b'"') || c == 10

  -- The loop of `lexString`: a newline is replaced by its escape, and the rune behind a backslash is
  -- not looked at as an end.
  unfoldable pub str_loop_on : String → L F (Option Char)
  str_loop_on String.[] l = (ok none, (get_on String.[] l).1)
  str_loop_on (String.◌∷◌ c String.[]) l =
      let l' = (get_on (String.◌∷◌ c String.[]) l).1 in
      let rest = str_loop_on String.[] l' in
      let quoted = str_loop_on String.[] (quote "\\" "n" l').1 in
      if not (is_str_digit (code c))
      then (ok (some c), l')
      else if code c == 10
      then quoted
      else if code c == b'\\'
      then (failed bad_escape, (get_on String.[] l').1)
      else rest
  str_loop_on (String.◌∷◌ c (String.◌∷◌ d s)) l =
      let l' = (get_on (String.◌∷◌ c (String.◌∷◌ d s)) l).1 in
      let rest = str_loop_on (String.◌∷◌ d s) l' in
      let quoted = str_loop_on (String.◌∷◌ d s) (quote "\\" "n" l').1 in
      let l'' = (get_on (String.◌∷◌ d s) l').1 in
      let escaped = str_loop_on s l'' in
      if not (is_str_digit (code c))
      then (ok (some c), l')
      else if code c == 10
      then quoted
      else if code c == b'\\'
      then (if code d == b'"' || is_str_digit (code d) then escaped else (failed bad_escape, l''))
      else rest

  unfoldable pub str_loop : L F (Option Char)
  str_loop l = str_loop_on l.rest l

  -- `fmt.Sprintf` of a text in which each % is doubled is that text.
  unfoldable pub lex_string : L F (Token F)
  lex_string = do
    q ← get
    when (not (is_rune b'"' q)) (fail bad_str) do
      r ← str_loop
      unget
      when (is_rune 10 r) (fail newline_in_str) do
        when (not (is_rune b'"' r)) (fail unterminated_str) do
          get
          text ← accept
          converted badly_quoted (λ s. record (token text tok_str_val) { tok_str = s })
              (lib.unquote text)

  unfoldable pub is_digit_based : Base → ℕ → Bool
  is_digit_based dec c = is_digit lib c
  is_digit_based hex c = is_digit lib c || between b'a' b'f' c
  is_digit_based oct c = between b'0' b'7' c
  is_digit_based bin c = c == b'0' || c == b'1'

  -- From the digits behind an exponent, or behind the point.
  unfoldable pub float_end : L F (Token F)
  float_end = do
    get_while (is_digit lib)
    unget
    text ← accept
    converted bad_float (λ f. record (token text tok_float_val) { tok_float = f })
        (lib.parse_float text)

  unfoldable pub int_end : Base → L F (Token F)
  int_end base = do
    unget
    text ← accept
    converted bad_int (λ n. record (token text tok_int_val) { tok_int = n })
        (if is_quote base then lib.parse_based text else lib.parse_int text)

  -- The error of a number, with the text so far taken from the lexer.
  unfoldable pub bad_number : LexErr → L F (Token F)
  bad_number e = do accept; fail e

  unfoldable pub exponent_end : Base → L F (Token F)
  exponent_end base = when (is_quote base) (bad_number bad_float_with_hex) float_end

  -- The `switch` of `lexNum` on the rune behind the digits.
  unfoldable pub num_end : Bool → Base → Option Char → L F (Token F)
  num_end has_dot base r =
      when (is_rune b'E' r || is_rune b'e' r)
        (do
          s ← get
          when (is_rune b'+' s || is_rune b'-' s) (do get; exponent_end base) (exponent_end base))
        (when has_dot (do unget; exponent_end base) (int_end base))

  -- From the digits on, behind the prefix of the base.
  unfoldable pub num_from : Bool → Base → L F (Token F)
  num_from has_dot base = do
    r ← get_while (is_digit_based base)
    when (is_rune b'.' r)
        (when (has_dot || is_quote base) (bad_number bad_float)
          do s ← get_while (is_digit lib); num_end true base s)
        (num_end has_dot base r)

  unfoldable pub based : Base → L F (Token F)
  based base = do get; num_from false base

  unfoldable pub lex_num : L F (Token F)
  lex_num = do
    r ← get
    when (is_rune b'.' r) (do get; num_from true dec)
        do
          when (not (is_rune b'0' r)) (num_from false dec) do
            s ← get
            when (is_rune b'x' s) (based hex) do
              when (is_rune b'b' s) (based bin)
                  do when (is_rune b'o' s) (based oct) (do unget; num_from false dec)
