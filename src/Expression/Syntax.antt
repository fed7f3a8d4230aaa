-- ===== src/Expression/Syntax.antt =====
-- internal/workflow/expression/parser.go: the nodes of an expression. `unaryNode` has one operator.
use forgelet.Prelude.{Text}
use forgelet.Expression.Value.{Value}

pub data Op : Type 0 where
  or_op and_op eq_op ne_op lt_op le_op gt_op ge_op : Op

mutual
  pub data Node (N : Type 0) : Type 0 where
    literal : Value N → Node N
    ident : Text → Node N
    member : Node N → Node N → Node N
    negate : Node N → Node N
    binary : Op → Node N → Node N → Node N
    call : Text → Args N → Node N

  pub data Args (N : Type 0) : Type 0 where
    no_args : Args N
    arg : Node N → Args N → Args N
