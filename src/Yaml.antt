-- ===== src/Yaml.antt =====
-- internal/parsers/yaml and internal/parsers/security: the bodies that are YAML. The decoder itself
-- is go.yaml.in/yaml/v3; its nodes are the data type `Node`.
pub mod Node
pub mod Dedent
pub mod Dedupe
pub mod Security
