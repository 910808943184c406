-- ===== src/Template/Node.antt =====
-- template/ast/TemplateNode.h: the nodes of a template.
use prebyte.Base.{Bool, Option, List, Bytes}
use prebyte.Result.{SourceSpan}
use prebyte.Template.Expression.{Expression}

pub data FunctionMode : Type 0 where
  template lua : FunctionMode

-- The fields of `TemplateNode` that every node has.
pub record NodeBase : Type 0 where
  pub span : SourceSpan
  pub trim_left : Bool
  pub trim_right : Bool

mutual
  pub data Node (D : Type 0) : Type 0 where
    text_node : Bytes → NodeBase → Node D
    interpolation_node : Expression D → NodeBase → Node D
    include_node : Bytes → NodeBase → Node D
    if_node : Branches D → NodeBase → Node D
    for_node : Bytes → Option Bytes → Expression D → Nodes D → Nodes D → NodeBase → Node D
    set_node : Bytes → Expression D → NodeBase → Node D
    function_def_node : Bytes → List Bytes → FunctionMode → Nodes D → Bytes → NodeBase → Node D
    lua_expr_node : Bytes → NodeBase → Node D
    lua_block_node : Bytes → NodeBase → Node D

  pub data Nodes (D : Type 0) : Type 0 where
    no_nodes : Nodes D
    more_nodes : Node D → Nodes D → Nodes D

  -- `IfBranch`: the branch of `else` has no condition.
  pub data Branches (D : Type 0) : Type 0 where
    no_branches : Branches D
    more_branches : Option (Expression D) → Nodes D → Branches D → Branches D
