-- ===== src/Lex/Reader.antt =====
-- lex/lex.go: the state of the lexer, with the reader it reads from, and its primitive operations
-- `get`, `unget`, `accept` and `quote`.
pub mod Invariant
pub mod Progress
use Prim.Native.Char.{Char, code}
use rips.Prelude.{
  ℕ, suc, ◌+◌, ◌-◌, Bool, true, false, ◌==◌, if◌then◌else◌, String, Option, none, some,
}
use rips.Lex.Token.{TokType}

-- `Token`.
pub record Token (F : Type 0) : Type 0 where
  pub lexema : String
  pub type : TokType
  pub tok_float : F
  pub tok_int : ℕ
  pub tok_str : String
  pub tok_bool : Bool

-- `Lexer`, with its reader: `rest` is the text that the reader has not given yet, and `unread` the rune
-- that `UnreadRune` would put back, if the last operation was a successful `ReadRune`. `lastrune` is
-- `none` for `RuneEof`. The latest rune of `accepted` stands first.
pub record Lexer (F : Type 0) : Type 0 where
  pub line : ℕ
  pub rest : String
  pub unread : Option Char
  pub lastrune : Option ℕ
  pub accepted : String
  pub saved : Option (Token F)

pub data LexErr : Type 0 where
  bad_token empty_token unread_rune bad_id bad_str bad_escape : LexErr
  newline_in_str unterminated_str badly_quoted : LexErr
  bad_int bad_float bad_float_with_hex bad_rune : LexErr

-- How an operation ends: with a value, with an error that it returns, with a panic, or for want of
-- fuel.
pub data Res (A : Type 0) : Type 0 where
  ok : A → Res A
  failed : LexErr → Res A
  panicked : LexErr → Res A
  stuck : Res A

-- An operation on the lexer.
abbrev pub L : Type 0 → Type 0 → Type 0
L F A = Lexer F → Res A × Lexer F

-- The length of a text in runes.
abbrev pub runes : String → ℕ
runes String.[] = 0
runes (String.◌∷◌ c s) = suc (runes s)

abbrev pub drop_last : String → String
drop_last String.[] = String.[]
drop_last (String.◌∷◌ c s) = s

-- The runes in the order they were read.
abbrev pub rev_onto : String → String → String
rev_onto String.[] t = t
rev_onto (String.◌∷◌ c s) t = rev_onto s (String.◌∷◌ c t)

abbrev pub is_none : Option ℕ → Bool
is_none none = true
is_none (some n) = false

module _ {F : Type 0} where
  unfoldable pub pure : {A : Type 0} → A → L F A
  pure a l = (ok a, l)

  unfoldable pub fail : {A : Type 0} → LexErr → L F A
  fail e l = (failed e, l)

  abbrev pub and_then : {A B : Type 0} → Res A × Lexer F → (A → L F B) → Res B × Lexer F
  and_then (ok a, l) f = f a l
  and_then (failed e, l) f = (failed e, l)
  and_then (panicked e, l) f = (panicked e, l)
  and_then (stuck, l) f = (stuck, l)

  infixl 5 ◌>>=◌ ◌>>◌
  unfoldable pub ◌>>=◌ : {A B : Type 0} → L F A → (A → L F B) → L F B
  ◌>>=◌ m f l = and_then (m l) f

  abbrev pub ◌>>◌ : {A B : Type 0} → L F A → L F B → L F B
  m >> k = m >>= λ _. k

  unfoldable pub when : {A : Type 0} → Bool → L F A → L F A → L F A
  when b m k l = if b then m l else k l

  -- `get` on a reader that has the text given left.
  abbrev pub get_on : String → Lexer F → Option Char × Lexer F
  get_on String.[] l = (none, record l { rest = String.[]; unread = none; lastrune = none })
  get_on (String.◌∷◌ c s) l = (
    some c,
    record l {
      line = if code c == 10 then l.line + 1 else l.line;
      rest = s;
      unread = some c;
      lastrune = some (code c);
      accepted = String.◌∷◌ c l.accepted;
    },
  )

  -- `get`; `none` is `RuneEof`.
  unfoldable pub get : L F (Option Char)
  get l = let (r, l') = get_on l.rest l in (ok r, l')

  -- `UnreadRune`, and the panic if it refuses.
  abbrev pub put_back : Option Char → Bool → Lexer F → Res (Unit {0}) × Lexer F
  put_back none newline l = (panicked unread_rune, l)
  put_back (some c) newline l = (
    ok tt,
    record l {
      line = if newline then l.line - 1 else l.line;
      rest = String.◌∷◌ c l.rest;
      unread = none;
    },
  )

  -- `unget`; at the end of the text it does nothing. It leaves `unicode.ReplacementChar` behind.
  abbrev pub unget_on : Option ℕ → L F (Unit {0})
  unget_on none l = (ok tt, l)
  unget_on (some last) l =
      put_back l.unread (last == 10)
        (record l { lastrune = some 0xfffd; accepted = drop_last l.accepted })

  unfoldable pub unget : L F (Unit {0})
  unget l = unget_on l.lastrune l

  -- `accept`; an empty token is a panic, but for the end of the text.
  abbrev pub accept_on : String → L F String
  accept_on String.[] l =
      if is_none l.lastrune then (ok "", record l { accepted = "" }) else (panicked empty_token, l)
  accept_on (String.◌∷◌ c s) l = (ok (rev_onto (String.◌∷◌ c s) ""), record l { accepted = "" })

  unfoldable pub accept : L F String
  accept l = accept_on l.accepted l

  -- `quote`, in place of the rune read last.
  unfoldable pub quote : Char → Char → L F (Unit {0})
  quote q r l = (ok tt, record l { accepted = String.◌∷◌ r (String.◌∷◌ q (drop_last l.accepted)) })

  -- `l.tokSaved = …`.
  unfoldable pub save : Option (Token F) → L F (Unit {0})
  save o l = (ok tt, record l { saved = o })

  -- `NewLexerRd`, on a reader that has not been read from. `lastrune` is 0, which no `unget` looks at.
  unfoldable pub new_lexer : String → Lexer F
  new_lexer text = record {
    line = 1;
    rest = text;
    unread = none;
    lastrune = some 0;
    accepted = "";
    saved = none;
  }
