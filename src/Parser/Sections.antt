-- ===== src/Parser/Sections.antt =====
-- parser/desc.go: a program, which is a list of sections.
use rips.Prelude.{ℕ, zero, suc, Bool, true, false, Option, none, some, List, [], ◌∷◌}
use rips.Lex.Token.{
  TokType, tok_levels, tok_vars, tok_consts, tok_rules, tok_eof, tok_id, tok_colon,
}
use rips.Lex.Reader.{Token}
use rips.Tree.Sym.{s_sect, Floats}
use rips.Tree.Env.{Made, made, refused, no_env, new_sym}
use rips.Parser.{LexPeeker, P, stuck, pure, ◌>>=◌, ◌>>◌, when, errorf, peek, skip, match_tok}
use rips.Parser.Sync.{attempt, return_err, next_section, match_err}
use rips.Parser.Tree.{Level, add_rule_sect}
use rips.Parser.Rules.{crash, write, action_decls}
use rips.Parser.Decls.{set_envs, level_decls, var_decls, const_decls}

-- What a section is of.
pub data Kind (F : Type 0) : Type 0 where
  of_levels of_consts of_vars : Kind F
  of_rules : Token F → Kind F

module _ {F S : Type 0} (fl : Floats F) (l : LexPeeker F S) where
  abbrev pub sect_made : ℕ → Made F → P F S (Unit {0})
  sect_made f (made s es) = do set_envs fl l es; write (add_rule_sect s); action_decls fl l f
  sect_made f refused = do errorf; errorf; t ← next_section l; return_err t
  sect_made f no_env = crash

  -- `RuleSect`, with `NewRuleSect`.
  unfoldable pub rule_sect : ℕ → Token F → P F S (Unit {0})
  rule_sect f tok p = sect_made f (new_sym tok.lexema s_sect p.envs) p

  abbrev is_empty : List Level → Bool
  is_empty [] = true
  is_empty (x ∷ xs) = false

  unfoldable pub check_levels : P F S (Unit {0})
  check_levels p = when (is_empty p.prog.levels) errorf (pure tt) p

  -- The end of a section with an error ends the program, behind its next section's start.
  abbrev pub section_end : P F S (Unit {0}) → Option (Unit {0}) → P F S (Unit {0})
  section_end more none = do errorf; t ← next_section l; return_err t
  section_end more (some u) = more

  abbrev pub section_of : ℕ → Kind F → P F S (Option (Unit {0}))
  section_of f of_levels = do u ← attempt (level_decls fl l f); check_levels; pure u
  section_of f of_consts = attempt (const_decls fl l f)
  section_of f of_vars = attempt (var_decls fl l f)
  section_of f (of_rules tok) = attempt (rule_sect f tok)

  abbrev pub colon_end : ℕ → P F S (Unit {0}) → Kind F → Option (Token F) → P F S (Unit {0})
  colon_end f more k none = pure tt
  colon_end f more k (some t) = do u ← section_of f k; section_end more u

  unfoldable pub colon : ℕ → P F S (Unit {0}) → Kind F → P F S (Unit {0})
  colon f more k = match_err l tok_colon >>= colon_end f more k

  abbrev pub named_rules : ℕ → P F S (Unit {0}) → Option (Option (Token F)) → P F S (Unit {0})
  named_rules f more (some (some tok)) = colon f more (of_rules tok)
  named_rules f more _ = do _ ← next_section l; more

  abbrev pub section : ℕ → P F S (Unit {0}) → TokType → P F S (Unit {0})
  section f more tok_levels = do skip l; colon f more of_levels
  section f more tok_vars = do skip l; colon f more of_vars
  section f more tok_consts = do skip l; colon f more of_consts
  section f more tok_rules = do skip l; o ← attempt (match_tok l tok_id); named_rules f more o
  section f more tok_eof = pure tt
  section f more _ = do errorf; t ← next_section l; return_err t

  -- `Prog`, on fuel.
  unfoldable pub prog : ℕ → P F S (Unit {0})
  prog zero p = (stuck, p)
  prog (suc f) p = (do tok ← peek l; section f (prog f) tok.type) p
