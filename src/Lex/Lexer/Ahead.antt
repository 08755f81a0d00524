-- ===== src/Lex/Lexer/Ahead.antt =====
-- lex/lex.go: what a `Lex` behind a `Peek` gives.
use rips.Prelude.{◌≡◌, false, none}
use rips.Lex.Token.{same_tok, tok_bad}
use rips.Lex.Library.{Library}
use rips.Lex.Reader.{Token, Lexer, Res, ok, failed, panicked, stuck, ◌>>◌}
use rips.Lex.Lexer.{lex}

module _ {F : Type 0} (lib : Library F) where
  -- What holds of an end of `Lex` that saves no token.
  abbrev Clear : Res (Token F) → Lexer F → Type 0
  Clear (ok t) l = (l.saved ≡ none) × (same_tok t.type tok_bad ≡ false)
  Clear _ l = Unit {0}

  -- How an end of `Peek` stands to the end `r` that `Lex` alone has. A token is the one that `Lex` gives,
  -- and a `Lex` behind it gives that again and leaves what `Lex` alone leaves. An error is that of `Lex`,
  -- and nothing is saved: what `Lex` leaves behind its error is left.
  abbrev pub LooksAt : Res (Token F) × Lexer F → Res (Token F) × Lexer F → Type 0
  LooksAt (ok t, l) r = (r.0 ≡ ok t) × (lex lib l ≡ r)
  LooksAt (failed e, l) r = r ≡ (failed e, l)
  LooksAt (panicked e, l) r = r ≡ (panicked e, l)
  LooksAt (stuck, l) r = ⊥
