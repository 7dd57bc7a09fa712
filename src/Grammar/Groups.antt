-- ===== src/Grammar/Groups.antt =====
-- parser.go, `parseAllTokens`: a comment's tokens fall into one group for each annotation.
pub mod Chunks
pub mod Counts
use codescan.Prelude.{
  Text, codes, ℕ, suc, ◌+◌, ◌-◌, List, [], ◌∷◌, ◌++◌, map, foldl, take, drop, length, Option, none,
  some, Bool, true, false, ◌&&◌, ◌||◌, not, text_eq, has_code, join, contains, leb, ◌==◌,
  if◌then◌else◌,
}
use codescan.Grammar.Token.{
  Position, no_position, TokenKind, eof, blank, title, desc, annotation, keyword, ident_name,
  json_value, type_ref, http_method, url_path, wildcard, comma_list_value, raw_block_body,
  raw_value_body, opaque_yaml, Arg, Token, is_annotation,
}
use codescan.Grammar.Bodies.{clip}
use codescan.Grammar.Blocks.{newline}
use codescan.Grammar.Block.{Diagnostic, errorf, EnumForm, ParametersTarget, malformed_operation}

-- `parseAllTokens`: the indices of the annotations, and the slices between them.
unfoldable pub ann_indices : ℕ → List Token → List ℕ
ann_indices i [] = []
ann_indices i (t ∷ ts) =
    let rest = ann_indices (i + 1) ts in if is_annotation t.kind then i ∷ rest else rest

unfoldable pub slices : List Token → ℕ → List ℕ → List (List Token)
slices ts start [] = []
slices ts start (i ∷ []) = drop start ts ∷ []
slices ts start (i ∷ j ∷ indices) = take (j - start) (drop start ts) ∷ slices ts j (j ∷ indices)

unfoldable pub token_groups : List Token → List (List Token)
token_groups ts =
    let indices = ann_indices 0 ts in
    if leb (length indices) 1 then ts ∷ [] else slices ts 0 indices
