-- ===== src/Yaml/Node.antt =====
-- yaml.Node as the documentation of go.yaml.in/yaml/v3 has it. A mapping's content alternates
-- between keys and values; here it is a list of pairs.
use codescan.Prelude.{Text, ℕ, []}

mutual
  pub data Node : Type 0 where
    document : Nodes → Node
    sequence : Nodes → Node
    mapping : Pairs → Node
    scalar : Text → Node
    alias : Text → Node

  pub data Nodes : Type 0 where
    nil : Nodes
    cons : Node → Nodes → Nodes

  pub data Pairs : Type 0 where
    end : Pairs
    pair : Node → Node → Pairs → Pairs

-- `Value`, which only scalars and aliases have.
abbrev pub value_of : Node → Text
value_of (scalar v) = v
value_of (alias v) = v
value_of _ = []

-- A number for each `Kind`.
abbrev pub kind_of : Node → ℕ
kind_of (document _) = 1
kind_of (sequence _) = 2
kind_of (mapping _) = 4
kind_of (scalar _) = 8
kind_of (alias _) = 16
