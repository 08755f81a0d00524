-- ===== src/Lex/Library.antt =====
-- What lex/lex.go takes from Go's standard library: the classes of runes of the package unicode, whose
-- ASCII part is written out, and the conversions of strconv.
use rips.Prelude.{ℕ, Bool, ◌||◌, ◌&&◌, ◌==◌, ltb, leb, if◌then◌else◌, String, Option}

-- `unicode.IsLetter` and so on beyond ASCII, `strconv.ParseInt` in base 10 and in the base of the
-- prefix (the 64 bits of the result), `strconv.ParseFloat` and `strconv.Unquote`; `none` is an error.
pub record Library (F : Type 0) : Type 0 where
  pub letter : ℕ → Bool
  pub digit : ℕ → Bool
  pub space : ℕ → Bool
  pub graphic : ℕ → Bool
  pub float_zero : F
  pub parse_int : String → Option ℕ
  pub parse_based : String → Option ℕ
  pub parse_float : String → Option F
  pub unquote : String → Option String

-- A number within bounds, both included.
abbrev pub between : ℕ → ℕ → ℕ → Bool
between lo hi n = leb lo n && leb n hi

module _ {F : Type 0} (lib : Library F) where
  abbrev pub is_letter : ℕ → Bool
  is_letter c = if ltb c 128 then between b'A' b'Z' c || between b'a' b'z' c else lib.letter c

  abbrev pub is_digit : ℕ → Bool
  is_digit c = if ltb c 128 then between b'0' b'9' c else lib.digit c

  abbrev pub is_space : ℕ → Bool
  is_space c = if ltb c 128 then between 9 13 c || c == 32 else lib.space c

  abbrev pub is_graphic : ℕ → Bool
  is_graphic c = if ltb c 128 then between 32 126 c else lib.graphic c
