-- ===== src/Runtime/Lone.antt =====
-- runtime/compiled/CompiledTemplateCompiler.cpp: expressions whose code is one instruction only.
use prebyte.Base.{
  if◌then◌else◌, ℕ, suc, ◌+◌, ◌≤◌, Bool, true, false, Option, none, some, List, [], ◌∷◌, ◌++◌, ◌≡◌,
  refl, sym, ap, ◌∙◌, arith, Bytes, length, length-append,
}
use mathlib.Core.Path.{subst}
use prebyte.Result.{SourceSpan, Yields, Yields-bind, Yields-map}
use prebyte.Compiled.Program.{ExpressionOpcode, ExpressionInstruction}
use prebyte.Compiled.Compiler.State
use prebyte.Compiled.Compiler.State.{
  DataSlice, Builder, Compiler, ◌>>=◌, ◌>>◌, fail, store_data, emit_expression, push_expression,
  set_expression_target, expression_size, word,
}
use prebyte.Template.Expression.{
  Expression, Expressions, identifier_expr, string_expr, number_expr, bool_expr, unary_expr,
  binary_expr, grouped_expr, member_access_expr, index_access_expr, len_call_expr, lua_call_expr,
  filter_call_expr, function_call_expr, no_expressions, more_expressions,
}
use prebyte.Runtime.Patched.{length-twice}
use prebyte.Compiled.Compiler.Expressions.{
  DoubleOps, is_builtin_name, line_of, column_of, load_name, comparison_opcode, compile_logical,
  compile_comparison, compile_binary, compile_member, compile_index, count_of,
  compile_expression_node, compile_expression_nodes, plain, with_slice, emit, emit_data,
  compile_short_circuit,
}
use prebyte.Runtime.Compiles.{Stores, store_data-Stores, code_of}

-- At least so many instructions are new.
abbrev pub Lengthens : ℕ → Compiler Unit → Type 0
Lengthens n c =
    (s : Builder)
    → Yields (λ (r : Unit × Builder). length (code_of s) + n ≤ length (code_of r.1)) (c s)

-- If one instruction is new and calls a function, the call has no arguments.
abbrev pub LoneCall : ExpressionInstruction → Type 0
LoneCall i = i.opcode ≡ ExpressionOpcode.call_function → i.arg0 ≡ 0

abbrev pub IsLone : Builder → Builder → Type 0
IsLone s t = (i : ExpressionInstruction) → code_of t ≡ code_of s ++ (i ∷ []) → LoneCall i

abbrev pub Lone : Compiler Unit → Type 0
Lone c = (s : Builder) → Yields (λ (r : Unit × Builder). IsLone s r.1) (c s)

-- What is known of an expression.
pub record IsCode (c : Compiler Unit) : Type 0 where
  pub long : Lengthens 1 c
  pub lone : Lone c

pub Lengthens-then :
    (m n : ℕ) (c d : Compiler Unit) → Lengthens m c → Lengthens n d → Lengthens (m + n) (c >> d)
unfolding ◌>>=◌
Lengthens-then m n c d h k s =
    Yields-bind (λ (r : Unit × Builder). length (code_of s) + m ≤ length (code_of r.1)) _ (c s) _
      (h s) λ (done, t) first. Yields-map _ _ (d t) (λ r second. omega (arith, first, second)) (k t)

weaken : (m n : ℕ) (c : Compiler Unit) → m ≤ n → Lengthens n c → Lengthens m c
weaken m n c le h s = Yields-map _ _ (c s) (λ r long. omega (arith, le, long)) (h s)

IsLone-long : (s t : Builder) → length (code_of s) + 2 ≤ length (code_of t) → IsLone s t
IsLone-long s t h i e is =
    absurd (omega (arith, h, ap length e, length-append (code_of s) (i ∷ [])))

pub long-IsCode : (c : Compiler Unit) → Lengthens 2 c → IsCode c
long-IsCode c h = record {
  long = λ s. Yields-map _ _ (c s) (λ r le. omega arith) (h s);
  lone = λ s. Yields-map _ _ (c s) (λ r le. IsLone-long s r.1 le) (h s);
}

cancel : {A : Type 0} (xs : List A) (x y : A) → xs ++ (x ∷ []) ≡ xs ++ (y ∷ []) → x ≡ y
cancel [] x y e = cc e
cancel (z ∷ xs) x y e = cancel xs x y (cc e)

pub emit-Lengthens : (i : ExpressionInstruction) → Lengthens 1 (emit i)
unfolding emit emit_expression ◌>>=◌ State.pure push_expression
emit-Lengthens i s = omega (arith, length-append (code_of s) (i ∷ []))

pub emit-IsCode : (i : ExpressionInstruction) → LoneCall i → IsCode (emit i)
unfolding emit emit_expression ◌>>=◌ State.pure push_expression
emit-IsCode i h = record {
  long = λ s. omega (arith, length-append (code_of s) (i ∷ []));
  lone = λ s j e. subst LoneCall (cancel (code_of s) i j e) h;
}

with_data :
    (op : ExpressionOpcode) (value : Bytes) (a b : ℕ) (P : Builder → Builder → Type 0) (s : Builder)
    → ((slice : DataSlice) (mid t : Builder)
        → code_of mid ≡ code_of s
        → code_of t ≡ code_of mid ++ (with_slice op slice a b ∷ [])
        → P s t)
    → Yields (λ (r : Unit × Builder). P s r.1) (emit_data op value a b s)
unfolding emit_data emit emit_expression ◌>>=◌ State.pure push_expression
with_data op value a b P s f =
    Yields-bind (λ (r : DataSlice × Builder). Stores s r.1 value r.0) _ (store_data value s) _
      (store_data-Stores value s) λ (slice, mid) stores. f slice mid _ stores.code refl

pub emit_data-Lengthens :
    (op : ExpressionOpcode) (value : Bytes) (a b : ℕ) → Lengthens 1 (emit_data op value a b)
emit_data-Lengthens op value a b s =
    with_data op value a b (λ s t. length (code_of s) + 1 ≤ length (code_of t)) s
      λ slice mid t e f. omega (
        arith,
        ap length e,
        ap length f,
        length-append (code_of mid) (with_slice op slice a b ∷ []),
      )

pub emit_data-IsCode :
    (op : ExpressionOpcode) (value : Bytes) (a b : ℕ)
    → (op ≡ ExpressionOpcode.call_function → a ≡ 0)
    → IsCode (emit_data op value a b)
emit_data-IsCode op value a b h = record {
  long = emit_data-Lengthens op value a b;
  lone = λ s. with_data op value a b IsLone s λ slice mid t e f i g.
      subst LoneCall
        (cancel (code_of s) (with_slice op slice a b) i
          (ap (λ c. c ++ (with_slice op slice a b ∷ [])) (sym e) ∙ sym f ∙ g))
        h;
}

pub fail-IsCode : (code message : Bytes) (span : SourceSpan) → IsCode (fail code message span)
unfolding fail
fail-IsCode code message span = record { long = λ s. tt; lone = λ s. tt }

-- An expression with something behind it.
pub then-IsCode : (c d : Compiler Unit) → IsCode c → Lengthens 1 d → IsCode (c >> d)
then-IsCode c d h k = long-IsCode (c >> d) (Lengthens-then 1 1 c d h.long k)

short_circuit-Lengthens :
    (cut : ExpressionOpcode) (value : ℕ) (c d : Compiler Unit)
    → Lengthens 1 c
    → Lengthens 1 d
    → Lengthens 2 (compile_short_circuit cut value c d)
unfolding compile_short_circuit ◌>>=◌ emit_expression push_expression set_expression_target
    expression_size
short_circuit-Lengthens cut value c d h k s =
    Yields-bind (λ (r : Unit × Builder). length (code_of s) + 1 ≤ length (code_of r.1)) _ (c s) _
      (h s)
      λ (done, t) first.
        Yields-bind
          (λ (r : Unit × Builder).
            length (code_of t ++ (plain cut 0 0 ∷ [])) + 1 ≤ length (code_of r.1))
          _ (d (push_expression (plain cut 0 0) t)) _ (k (push_expression (plain cut 0 0) t))
          λ (again, u) second. omega (
            arith,
            first,
            second,
            length-append (code_of t) (plain cut 0 0 ∷ []),
            length-twice cut value (length (code_of t)) (code_of u),
          )

two-IsCode :
    (c d : Compiler Unit) (i : ExpressionInstruction)
    → IsCode c
    → IsCode d
    → IsCode (c >> (d >> emit i))
two-IsCode c d i h k = long-IsCode (c >> (d >> emit i)) (
    weaken 2 3 (c >> (d >> emit i)) (omega arith) (
      Lengthens-then 1 2 c (d >> emit i) h.long
        (Lengthens-then 1 1 d (emit i) k.long (emit-Lengthens i))))

if-IsCode : (b : Bool) (c d : Compiler Unit) → IsCode c → IsCode d → IsCode (if b then c else d)
if-IsCode true c d h k = h
if-IsCode false c d h k = k

logical-IsCode :
    (op : Bytes) (c d : Compiler Unit) (span : SourceSpan)
    → IsCode c
    → IsCode d
    → IsCode (compile_logical op c d span)
unfolding compile_logical
logical-IsCode op c d span h k =
    if-IsCode _ _ _
      (long-IsCode _ (short_circuit-Lengthens ExpressionOpcode.jump_if_false 0 c d h.long k.long))
      (if-IsCode _ _ _
        (long-IsCode _ (short_circuit-Lengthens ExpressionOpcode.jump_if_true 1 c d h.long k.long))
        (fail-IsCode _ _ span))

comparison-IsCode :
    (o : Option ExpressionOpcode) (c d e : Compiler Unit) (span : SourceSpan)
    → IsCode c
    → IsCode d
    → IsCode e
    → IsCode (compile_comparison o c d span e)
comparison-IsCode none c d e span h k l = l
comparison-IsCode (some op) c d e span h k l = two-IsCode c d _ h k

load_name-IsCode : (name : Bytes) (span : SourceSpan) → IsCode (load_name name span)
unfolding load_name
load_name-IsCode name span = named (is_builtin_name name)
  where
    named :
        (b : Bool)
        → IsCode (
            emit_data
              (if b then ExpressionOpcode.load_builtin else ExpressionOpcode.load_var)
              name
              (line_of span)
              (column_of span))
    named true = emit_data-IsCode _ name _ _ λ e. absurd (cc e)
    named false = emit_data-IsCode _ name _ _ λ e. absurd (cc e)

member-IsCode :
    (o : Option Bytes) (c : Compiler Unit) (member : Bytes) (span : SourceSpan)
    → IsCode c
    → IsCode (compile_member o c member span)
unfolding compile_member
member-IsCode (some path) c member span h = load_name-IsCode path span
member-IsCode none c member span h = then-IsCode c _ h (emit_data-Lengthens _ member _ _)

index-IsCode :
    (args : Bool) (o : Option ℕ) (c d : Compiler Unit) (span : SourceSpan)
    → IsCode c
    → IsCode d
    → IsCode (compile_index args o c d span)
unfolding compile_index
index-IsCode args (some index) c d span h k = emit-IsCode _ λ e. absurd (cc e)
index-IsCode true none c d span h k = fail-IsCode _ _ span
index-IsCode false none c d span h k = two-IsCode c d _ h k

nothing-Lengthens : Lengthens 0 (State.pure tt)
unfolding State.pure
nothing-Lengthens s = omega arith

module _ {D : Type 0} (double : DoubleOps D) where
  call-IsCode :
      (name : Bytes) (es : Expressions D) (line : ℕ)
      → Lengthens (count_of es) (compile_expression_nodes double es)
      → IsCode (
          compile_expression_nodes double es
          >> emit_data ExpressionOpcode.call_function name (word (count_of es)) line)
  unfolding compile_expression_nodes ◌>>=◌ State.pure count_of word
  call-IsCode name no_expressions line h =
      emit_data-IsCode ExpressionOpcode.call_function name 0 line λ e. refl
  call-IsCode name (more_expressions e es) line h = long-IsCode _ (
      weaken 2 (count_of (more_expressions e es) + 1) _ (omega arith)
        (Lengthens-then _ 1 _ _ h (emit_data-Lengthens _ name _ _)))

  mutual
    unfolding compile_expression_node compile_binary count_of

    node-IsCode : (e : Expression D) → IsCode (compile_expression_node double e)
    node-IsCode (identifier_expr name span) = load_name-IsCode name span
    node-IsCode (string_expr value span) = emit_data-IsCode _ value _ _ λ e. absurd (cc e)
    node-IsCode (number_expr value lexeme span) = emit-IsCode _ λ e. absurd (cc e)
    node-IsCode (bool_expr value span) = emit-IsCode _ λ e. absurd (cc e)
    node-IsCode (unary_expr op operand span) =
        then-IsCode _ _ (node-IsCode operand) (emit-Lengthens _)
    node-IsCode (binary_expr left op right span) =
        comparison-IsCode (comparison_opcode op) _ _ _ span (node-IsCode left) (node-IsCode right)
          (logical-IsCode op _ _ span (node-IsCode left) (node-IsCode right))
    node-IsCode (grouped_expr expression span) = node-IsCode expression
    node-IsCode (member_access_expr base member span) =
        member-IsCode _ _ member span (node-IsCode base)
    node-IsCode (index_access_expr base index span) =
        index-IsCode _ _ _ _ span (node-IsCode base) (node-IsCode index)
    node-IsCode (len_call_expr operand span) =
        then-IsCode _ _ (node-IsCode operand) (emit-Lengthens _)
    node-IsCode (lua_call_expr source span) = emit_data-IsCode _ source _ _ λ e. absurd (cc e)
    node-IsCode (filter_call_expr input name arguments span) = then-IsCode _ _ (node-IsCode input) (
        weaken 1 (count_of arguments + 1) _ (omega arith)
          (Lengthens-then _ 1 _ _ (nodes-Lengthens arguments) (emit_data-Lengthens _ name _ _)))
    node-IsCode (function_call_expr name arguments span) =
        call-IsCode name arguments _ (nodes-Lengthens arguments)

    nodes-Lengthens :
        (es : Expressions D) → Lengthens (count_of es) (compile_expression_nodes double es)
    nodes-Lengthens no_expressions = nothing-Lengthens
    nodes-Lengthens (more_expressions e es) =
        weaken (suc (count_of es)) (1 + count_of es) _ (omega arith)
          (Lengthens-then 1 _ _ _ (node-IsCode e).long (nodes-Lengthens es))

  pub compile_expression_node-IsCode :
      (e : Expression D) → IsCode (compile_expression_node double e)
  compile_expression_node-IsCode e = node-IsCode e
