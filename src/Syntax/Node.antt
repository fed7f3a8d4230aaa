-- ===== src/Syntax/Node.antt =====
-- The node tree of the YAML library, as far as parse.go reads it: `yaml.Node` with its kind, tag,
-- value, position and content.
use forgelet.Prelude.{ℕ, Text}

pub data Kind : Type 0 where
  document sequence mapping scalar alias : Kind

mutual
  pub data Node : Type 0 where
    node : Kind → Text → Text → ℕ → ℕ → Nodes → Node

  pub data Nodes : Type 0 where
    end : Nodes
    more : Node → Nodes → Nodes

abbrev pub kind_of : Node → Kind
kind_of (node k tag value line column content) = k

abbrev pub tag_of : Node → Text
tag_of (node k tag value line column content) = tag

abbrev pub value_of : Node → Text
value_of (node k tag value line column content) = value

abbrev pub line_of : Node → ℕ
line_of (node k tag value line column content) = line

abbrev pub column_of : Node → ℕ
column_of (node k tag value line column content) = column

abbrev pub content_of : Node → Nodes
content_of (node k tag value line column content) = content
