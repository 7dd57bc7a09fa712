-- ===== src/Grammar/Lexer.antt =====
-- lexer.go, `Lex`: the three stages in a row.
pub mod Clean
use codescan.Prelude.{List, Option, none, some}
use codescan.Grammar.Strings.{Platform}
use codescan.Grammar.Token.{Line, Token}
use codescan.Grammar.Lines.{classify_lines}
use codescan.Grammar.Bodies.{accumulate_bodies}
use codescan.Grammar.Prose.{classify_prose}

unfoldable pub lex : Platform → List Line → Option (List Token)
lex u lines = elim (accumulate_bodies u (classify_lines u lines)) [
  | none ↦ none
  | some bodied ↦ some (classify_prose u bodied)
]
