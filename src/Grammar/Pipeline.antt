-- ===== src/Grammar/Pipeline.antt =====
-- parser.go: `Parse`, `ParseAll` and `ParseText`, from a comment to its blocks.
pub mod Returns
use codescan.Prelude.{Text, List, Option, none, some, Bool}
use codescan.Grammar.Strings.{Platform}
use codescan.Grammar.Token.{Position, Line, Token}
use codescan.Grammar.Comments.{Comment, preprocess, preprocess_text}
use codescan.Grammar.Lexer.{lex}
use codescan.Grammar.Block.{Block}
use codescan.Grammar.Typing.{Services}
use codescan.Grammar.Parser.{parse_tokens, parse_all_tokens}

-- A result of the lexer is parsed; none is a loop that ran out of rounds.
abbrev pub after_lex {ℓ} : {A : Type ℓ} → (List Token → A) → Option (List Token) → Option A
after_lex f none = none
after_lex f (some ts) = some (f ts)

module _ {F I V : Type 0} (sv : Services F I V) (u : Platform) (single : Bool) where
  -- `Parse`
  unfoldable pub parse : List Comment → Option (Block F I V)
  parse cs = after_lex (parse_tokens sv u single) (lex u (preprocess cs))

  -- `ParseAll`
  unfoldable pub parse_all : List Comment → Option (List (Block F I V))
  parse_all cs = after_lex (parse_all_tokens sv u single) (lex u (preprocess cs))

  -- `ParseText`
  unfoldable pub parse_text : Text → Position → Option (Block F I V)
  parse_text text p = after_lex (parse_tokens sv u single) (lex u (preprocess_text text p))
