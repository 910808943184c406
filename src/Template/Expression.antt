-- ===== src/Template/Expression.antt =====
-- template/ast/Expression.h: expressions. `D` is the type `double`; each node has its span last.
use prebyte.Base.{Bool, Bytes}
use prebyte.Result.{SourceSpan}

mutual
  pub data Expression (D : Type 0) : Type 0 where
    identifier_expr : Bytes → SourceSpan → Expression D
    string_expr : Bytes → SourceSpan → Expression D
    number_expr : D → Bytes → SourceSpan → Expression D
    bool_expr : Bool → SourceSpan → Expression D
    unary_expr : Bytes → Expression D → SourceSpan → Expression D
    binary_expr : Expression D → Bytes → Expression D → SourceSpan → Expression D
    grouped_expr : Expression D → SourceSpan → Expression D
    member_access_expr : Expression D → Bytes → SourceSpan → Expression D
    index_access_expr : Expression D → Expression D → SourceSpan → Expression D
    len_call_expr : Expression D → SourceSpan → Expression D
    lua_call_expr : Bytes → SourceSpan → Expression D
    filter_call_expr : Expression D → Bytes → Expressions D → SourceSpan → Expression D
    function_call_expr : Bytes → Expressions D → SourceSpan → Expression D

  -- The arguments of a call.
  pub data Expressions (D : Type 0) : Type 0 where
    no_expressions : Expressions D
    more_expressions : Expression D → Expressions D → Expressions D

module _ {D : Type 0} where
  -- The span of a node.
  abbrev pub span_of : Expression D → SourceSpan
  span_of (identifier_expr name span) = span
  span_of (string_expr value span) = span
  span_of (number_expr value lexeme span) = span
  span_of (bool_expr value span) = span
  span_of (unary_expr op operand span) = span
  span_of (binary_expr left op right span) = span
  span_of (grouped_expr expression span) = span
  span_of (member_access_expr base member span) = span
  span_of (index_access_expr base index span) = span
  span_of (len_call_expr operand span) = span
  span_of (lua_call_expr source span) = span
  span_of (filter_call_expr input name arguments span) = span
  span_of (function_call_expr name arguments span) = span
