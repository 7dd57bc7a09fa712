-- ===== src/Lib.antt =====
-- codescan: the core of the scanner that turns Go source into a Swagger 2.0 document.
--
-- Three parts of the program are modelled: the late stages of the spec builder, which name and prune
-- the definitions of the document; the grammar of comments, from the comment to the blocks that all
-- the other builders read; and the readers of the bodies of keywords.
--
-- Spec, for internal/builders/spec:
--   Spec/Document  the document, collectDefRefs (prune.go), rewriteSchemaRefs and operationsOf
--                  (reduce.go), isDiscriminated (subtypes.go). Fields of the document that these
--                  stages do not touch are left out.
--   Spec/Prune     pruneUnusedModels and what it calls (prune.go), subtypeKeysOf (subtypes.go) and
--                  sharedRefName (spec.go). `Builder` is the part of the builder and of the scan
--                  context that they read or write: `built` are the definitions with a source
--                  declaration, `subtype_index` the reverse allOf index, `listening` whether there
--                  is a callback for diagnostics. The worklist runs on fuel, as many rounds as
--                  there are definitions: a key enters the queue at most once.
--   Spec/Reduce    computeNameReductions (reduce.go): the grouping by leaf, the names that are
--                  lifted, and the resolution of each colliding group, flat or hierarchical. The
--                  depth runs from one to the largest depth of the group, and the numbered
--                  fallback tries one more name than there are names in use. Scores are whole
--                  numbers of 240ths, and an option is a budget in that unit.
--   Spec/Rewrite   repointer, rewriteAllRefs, rekeyDefinitions, placeHierarchical, diagnoseRenames
--                  and reduceDefinitionNames (reduce.go).
-- The builder prunes before it reduces names, so that the keys in Spec/Reduce are those that
-- Spec/Prune leaves. A Go map is an association list, and a loop over a map runs in its order.
--
-- Grammar, for internal/parsers/grammar:
--   Grammar/Strings   what the lexer uses of package strings; package unicode and the JSON decoder
--                     are the fields of `Platform`.
--   Grammar/Token     token.go, annotations.go, and Line of preprocess.go.
--   Grammar/Keywords  keywords.go, and isSiblingTerminatorFor of lexer.go.
--   Grammar/Args      the arguments of an annotation (lexer.go, disambiguate.go).
--   Grammar/Lines     stage 1 of the lexer: classifyLines, lexLine, lexAnnotation, lexKeyword.
--   Grammar/Blocks    stage 2: collectRawBlock and collectRawValue.
--   Grammar/Bodies    stage 2: accumulateBodies and its other collectors. The index into the tokens is
--                     the list of the tokens that are left; the loop has a round for each token.
--   Grammar/Prose     stage 3: classifyProse, with a round for each token.
--   Grammar/Lexer     Lex, the three stages in a row.
--   Grammar/Comments  preprocess.go: the comment markers are taken off, and each line has a position.
--   Grammar/Block     ast.go and diagnostic.go: blocks, properties, and the getters of a block.
--   Grammar/Typing    parser.go: typeInlineValue, and the contexts of a keyword.
--   Grammar/Extract   parser.go: title and description, the arguments of an annotation.
--   Grammar/Groups    parser.go: the slices of parseAllTokens, one for each annotation.
--   Grammar/Emit      parser.go: consumeBodyToken and what it calls.
--   Grammar/Parser    parser.go: parseTokens and the parsers of the families of annotations. The
--                     diagnostics of a block are its own from the start, not copied at the end.
--   Grammar/Pipeline  parser.go: Parse, ParseAll and ParseText.
--   Grammar/Walker    walker.go: the calls of the callbacks, as a list.
--   Grammar/MetaInfo  meta_info.go: contact and license of a meta block.
-- A comment goes through Comments, Lexer, Groups and Parser in this order. A text is a list of code
-- points, and `len` counts its bytes. A diagnostic is kept without its message.
--
-- Bodies of keywords:
--   Yaml/Dedent     internal/parsers/yaml/dedent.go, normaliseExtensionBody of yaml.go.
--   Yaml/Dedupe     internal/parsers/yaml/dedupe.go, on the nodes of Yaml/Node.
--   Yaml/Security   internal/parsers/security/security.go. The parser calls it for `Security:`.
--   Route           internal/parsers/routebody: the bodies of `Responses:` and `Parameters:`.
--   Validate        internal/builders/validations: coerced values, and the keywords and formats that
--                   go with a type.
--
-- Code outside the repository is a parameter: `to_go_name` is the mangler's ToGoName, `new_ref` is
-- NewRef with String, `Platform` as above, `Services` strconv and the YAML decoder, `Decoders`
-- strconv and encoding/json. A node of YAML is yaml.Node as its package documents it. A theorem that
-- needs it assumes that the mangler gives no slash, or that the new references parse to themselves.
--
-- Prelude holds the shared names and the lemmas on lists, texts, maps, sets and decimals, Tests
-- the runs on small documents and comments and each theorem at work on one of them.
--
-- Not modelled: CoerceConstant, which computes with floating-point numbers; the schema, parameter,
-- response, operation and route builders and the scanner, which walk go/types and go/ast; package
-- loading; the command line tools and the terminal interface.

pub mod Prelude
pub mod Grammar
pub mod Yaml
pub mod Route
pub mod Validate
pub mod Spec
pub mod Tests
