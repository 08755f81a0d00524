-- ===== src/Lex/Lexer.antt =====
-- lex/lex.go: `Lex`, `Peek` and `LexWhileNot`.
pub mod Ahead
pub mod Invariant
pub mod Lines
mod Tests
pub mod Printed
pub mod Progress
pub mod Round
pub mod Sync
use Prim.Native.Char.{Char, code}
use rips.Prelude.{
  ℕ, zero, suc, ◌+◌, Bool, true, false, not, ◌||◌, ◌&&◌, ◌==◌, if◌then◌else◌, str_eq, String,
  Option, none, some, List, [], ◌∷◌,
}
use rips.Lex.Token.{
  TokType, same_tok, contains_rune, tok_bad, tok_quest, tok_semi, tok_colon, tok_lpar, tok_rpar,
  tok_mod, tok_add, tok_min, tok_mul, tok_div, tok_xor, tok_bit_and, tok_bit_or, tok_asig, tok_g,
  tok_l, tok_comma, tok_log_neg, tok_compl, tok_bool_val, tok_log_and, tok_log_or, tok_eq, tok_neq,
  tok_geq, tok_leq, tok_then, tok_nthen, tok_levels, tok_soft, tok_vars, tok_consts, tok_rules,
  tok_eof,
}
use rips.Lex.Library.{Library, is_letter, is_digit, is_space}
use rips.Lex.Reader.{
  Token, Lexer, L, Res, ok, failed, panicked, stuck, ◌>>=◌, ◌>>◌, pure, fail, when, and_then, get,
  get_on, unget, accept, save, bad_rune, bad_token, runes,
}
use rips.Lex.Scan.{token, lex_id, lex_num, lex_string, holds, is_rune}

-- The runes that are a token by themselves.
unfoldable pub single : ℕ → Option TokType
single c =
    if c == b'('
    then some tok_lpar
    else if c == b')'
    then some tok_rpar
    else if c == b'*'
    then some tok_mul
    else if c == b'/'
    then some tok_div
    else if c == b'+'
    then some tok_add
    else if c == b'-'
    then some tok_min
    else if c == b'^'
    then some tok_xor
    else if c == b','
    then some tok_comma
    else if c == b'%'
    then some tok_mod
    else if c == b';'
    then some tok_semi
    else if c == b':'
    then some tok_colon
    else if c == b'?'
    then some tok_quest
    else if c == b'~'
    then some tok_compl
    else none

-- The runes that may start a token of two.
unfoldable pub first_of_two : ℕ → Option TokType
first_of_two c =
    if c == b'='
    then some tok_asig
    else if c == b'!'
    then some tok_log_neg
    else if c == b'>'
    then some tok_g
    else if c == b'<'
    then some tok_l
    else if c == b'&'
    then some tok_bit_and
    else if c == b'|'
    then some tok_bit_or
    else none

-- The tokens of two runes.
abbrev pair : ℕ → ℕ → Option TokType
pair a b =
    if a == b'!' && b == b'>'
    then some tok_nthen
    else if a == b'=' && b == b'='
    then some tok_eq
    else if a == b'!' && b == b'='
    then some tok_neq
    else if a == b'>' && b == b'='
    then some tok_geq
    else if a == b'<' && b == b'='
    then some tok_leq
    else if a == b'=' && b == b'>'
    then some tok_then
    else if a == b'&' && b == b'&'
    then some tok_log_and
    else if a == b'|' && b == b'|'
    then some tok_log_or
    else none

-- `switch string(l.accepted)`; the latest rune stands first.
unfoldable pub two_of : String → Option TokType
two_of (String.◌∷◌ b (String.◌∷◌ a String.[])) = pair (code a) (code b)
two_of _ = none

-- `eatComment`, on a reader that has the text given left.
unfoldable pub eat_comment_on : {F : Type 0} → String → L F (Unit {0})
eat_comment_on String.[] l = unget (get_on String.[] l).1
eat_comment_on (String.◌∷◌ c s) l =
    let l' = (get_on (String.◌∷◌ c s) l).1 in
    let rest = and_then (accept l') (λ _. eat_comment_on s) in
    let last = and_then (accept l') (λ _. pure tt) in if code c == 10 then last else rest

unfoldable pub eat_comment : {F : Type 0} → L F (Unit {0})
eat_comment l = eat_comment_on l.rest l

module _ {F : Type 0} (lib : Library F) where
  -- The token type of the two runes read, if they are a token.
  unfoldable pub read_pair : L F (Option TokType)
  read_pair l = (ok (two_of l.accepted), l)

  abbrev pub settle : TokType → Option TokType → L F TokType
  settle t none = do unget; pure t
  settle t (some t') = pure t'

  -- `mayLexDouble`: the type of the token that starts with the rune read last.
  unfoldable pub may_lex_double : TokType → L F TokType
  may_lex_double t = do get; o ← read_pair; settle t o

  -- `keywordLookup`; `nt = rt` keeps of the token its lexeme.
  unfoldable pub keyword_lookup : Token F → Token F
  keyword_lookup t =
      let text = t.lexema in
      if str_eq text "true"
      then record (token lib text tok_bool_val) { tok_bool = true }
      else if str_eq text "false"
      then token lib text tok_bool_val
      else if str_eq text "levels"
      then token lib text tok_levels
      else if str_eq text "soft"
      then token lib text tok_soft
      else if str_eq text "vars"
      then token lib text tok_vars
      else if str_eq text "consts"
      then token lib text tok_consts
      else if str_eq text "rules"
      then token lib text tok_rules
      else t

  unfoldable pub accepted_as : TokType → L F (Token F)
  accepted_as t = do text ← accept; pure (token lib text t)

  -- A case of the `switch` on runes, and those after it.
  abbrev pub found : Option TokType → (TokType → L F (Token F)) → L F (Token F) → L F (Token F)
  found none f k = k
  found (some t) f k = f t

  -- The cases of the `switch` of `Lex` behind the synonyms and comments.
  unfoldable pub on_other : Char → L F (Token F)
  on_other c = found (single (code c)) accepted_as (
      found (first_of_two (code c)) (λ t. may_lex_double t >>= accepted_as)
        (when (code c == b'"') (do unget; lex_string lib)
          (when (code c == b'.' || is_digit lib (code c)) (do unget; lex_num lib)
            (when (is_letter lib (code c) || code c == b'_')
              (do unget; t ← lex_id lib; pure (keyword_lookup t)) (fail bad_rune)))))

  -- The `switch` of `Lex` on a rune that is no space. `again` is the next round of its loop.
  unfoldable pub on_rune : L F (Token F) → Option Char → L F (Token F)
  on_rune again none = do accept; pure (token lib "" tok_eof)
  on_rune again (some c) =
      when (code c == 0x2192) (do accept; pure (token lib "=>" tok_then))
        do
          when (code c == 0x219b) (do accept; pure (token lib "!>" tok_nthen))
              do when (code c == b'#') (do eat_comment; again) (on_other c)

  unfoldable pub lex_loop : ℕ → L F (Token F)
  lex_loop zero l = (stuck, l)
  lex_loop (suc f) l =
      (get >>= λ r. when (holds (is_space lib) r) (do accept; lex_loop f) (on_rune (lex_loop f) r))
        l

  -- The deferred function of `Lex`: a panic is returned as an error.
  abbrev pub deferred : Res (Token F) → Res (Token F)
  deferred (ok t) = if same_tok t.type tok_bad then failed bad_token else ok t
  deferred (failed e) = failed e
  deferred (panicked e) = failed e
  deferred stuck = stuck

  -- `Lex`, with a round for each rune that is left.
  abbrev pub next_token : Option (Token F) → L F (Token F)
  next_token (some t) l = (do save none; pure t) l
  next_token none l = lex_loop (suc (runes l.rest)) l

  unfoldable pub lex : L F (Token F)
  lex l = let (r, l') = next_token l.saved l in (deferred r, l')

  unfoldable pub peek : L F (Token F)
  peek = do t ← lex; save (some t); pure t

  -- `Lex` behind a `Peek` that gave a token gives that token, so that its error, which the source
  -- overwrites, does not come up.
  unfoldable pub lex_while_not_on : ℕ → List TokType → L F (Token F)
  lex_while_not_on zero tps l = (stuck, l)
  lex_while_not_on (suc f) tps l =
      (peek >>= λ t.
      when (same_tok t.type tok_eof || contains_rune tps t.type) (pure t)
        (do lex; lex_while_not_on f tps))
        l

  -- `LexWhileNot`, with a round for each rune that is left, one for a token that is saved and one for
  -- the end.
  unfoldable pub lex_while_not : List TokType → L F (Token F)
  lex_while_not tps l = lex_while_not_on (runes l.rest + 2) tps l
