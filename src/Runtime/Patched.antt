-- ===== src/Runtime/Patched.antt =====
-- runtime/compiled/CompiledTemplateCompiler.cpp: the jumps of `&&` and `||`, which get their targets
-- behind the right part.
use mathlib.Core.Path.{subst}
use prebyte.Base.{
  ℕ, zero, suc, ◌+◌, ◌<◌, Bool, List, [], ◌∷◌, ◌++◌, append_assoc, ◌≡◌, refl, sym, ap, ◌∙◌, arith,
  length, length-append,
}
use prebyte.Result.{Yields-bind}
use prebyte.Compiled.Program.{ExpressionOpcode, ExpressionInstruction, CompiledProgram}
use prebyte.Compiled.Compiler.State.{
  word, Builder, Compiler, ◌>>=◌, ◌>>◌, emit_expression, push_expression, update_at, with_arg0,
  set_expression_target, expression_size,
}
use prebyte.Compiled.Compiler.Expressions.{plain, compile_short_circuit}
use prebyte.Runtime.Value.{Value}
use prebyte.Runtime.Machine.{Services}
use prebyte.Runtime.Runs.{in_turn}
use prebyte.Runtime.Performs.{Performs}
use prebyte.Runtime.Effects.{Act, push}
use prebyte.Runtime.Jumps.{IsCut, cut_code, cut_short, cut-Performs}
use prebyte.Runtime.Compiles.{code_of}
use prebyte.Runtime.Emitted.{Compiles, Emits, Compiles-then}

update_at-append :
    {A : Type 0} (f : A → A) (xs : List A) (x : A) (ys : List A)
    → update_at f (length xs) (xs ++ (x ∷ ys)) ≡ xs ++ (f x ∷ ys)
unfolding update_at
update_at-append f [] x ys = refl
update_at-append f (z ∷ xs) x ys = ap (◌∷◌ z) (update_at-append f xs x ys)

length-update_at :
    {A : Type 0} (f : A → A) (i : ℕ) (xs : List A) → length (update_at f i xs) ≡ length xs
unfolding update_at
length-update_at f i [] = refl
length-update_at f zero (x ∷ xs) = refl
length-update_at f (suc i) (x ∷ xs) = ap suc (length-update_at f i xs)

word-same : (n : ℕ) → n < 4294967296 → word n ≡ n
unfolding word
word-same n h = omega arith

-- At an index that is a word.
update_at-word :
    {A : Type 0} (f : A → A) (xs : List A) (x : A) (ys : List A)
    → length xs < 4294967296
    → update_at f (word (length xs)) (xs ++ (x ∷ ys)) ≡ xs ++ (f x ∷ ys)
update_at-word f xs x ys h =
    ap (λ n. update_at f n (xs ++ (x ∷ ys))) (word-same (length xs) h) ∙ update_at-append f xs x ys

module _ (cut : ExpressionOpcode) (value : ℕ) where
  abbrev as_boolean : ExpressionInstruction
  as_boolean = plain ExpressionOpcode.to_bool 0 0

  abbrev pushed : ExpressionInstruction
  pushed = plain ExpressionOpcode.push_bool value 0

  abbrev jump : ℕ → ExpressionInstruction
  jump target = plain ExpressionOpcode.jump target 0

  -- The instructions before their jumps have targets, from `xs` and what is behind the first jump.
  abbrev up_to_bool : List ExpressionInstruction → List ExpressionInstruction
  up_to_bool ys = ys ++ (as_boolean ∷ [])

  abbrev unpatched : List ExpressionInstruction → List ExpressionInstruction
  unpatched ys = (up_to_bool ys ++ (jump 0 ∷ [])) ++ (pushed ∷ [])

  abbrev target_of : List ExpressionInstruction → ℕ
  target_of ys = word (length (up_to_bool ys ++ (jump 0 ∷ [])))

  abbrev once : ℕ → List ExpressionInstruction → List ExpressionInstruction
  once n ys = update_at (with_arg0 (target_of ys)) (word n) (unpatched ys)

  abbrev twice : ℕ → List ExpressionInstruction → List ExpressionInstruction
  twice n ys =
      update_at (with_arg0 (word (length (once n ys)))) (word (length (up_to_bool ys))) (once n ys)

  module _ (xs code : List ExpressionInstruction) where
    abbrev ys : List ExpressionInstruction
    ys = (xs ++ (plain cut 0 0 ∷ [])) ++ code

    abbrev inner : List ExpressionInstruction
    inner = code ++ (as_boolean ∷ [])

    laid_out : unpatched ys ≡ xs ++ (plain cut 0 0 ∷ (inner ++ (jump 0 ∷ pushed ∷ [])))
    laid_out =
        append_assoc (up_to_bool ys) (jump 0 ∷ []) (pushed ∷ [])
        ∙ ap (λ l. l ++ (jump 0 ∷ pushed ∷ []))
            (append_assoc (xs ++ (plain cut 0 0 ∷ [])) code (as_boolean ∷ [])
              ∙ append_assoc xs (plain cut 0 0 ∷ []) inner)
        ∙ append_assoc xs (plain cut 0 0 ∷ inner) (jump 0 ∷ pushed ∷ [])

    twice_lem :
        length xs + length code + 4 < 4294967296
        → twice (length xs) ys ≡ xs ++ cut_code cut value (length xs) code
    twice_lem h =
        let to_up = length-append ys (as_boolean ∷ []) in
        let to_ys = length-append (xs ++ (plain cut 0 0 ∷ [])) code in
        let to_xs = length-append xs (plain cut 0 0 ∷ []) in
        let to_jump = length-append (up_to_bool ys) (jump 0 ∷ []) in
        let to_end = length-append (up_to_bool ys ++ (jump 0 ∷ [])) (pushed ∷ []) in
        let over : ℕ = suc (length xs) + length code + 2 in
        let target : target_of ys ≡ over =
          word-same (length (up_to_bool ys ++ (jump 0 ∷ [])))
            (omega (arith, to_up, to_ys, to_xs, to_jump))
          ∙ omega (arith, to_up, to_ys, to_xs, to_jump) in
        let whole : length (once (length xs) ys) ≡ suc over =
          length-update_at (with_arg0 (target_of ys)) (word (length xs)) (unpatched ys)
          ∙ omega (arith, to_up, to_ys, to_xs, to_jump, to_end) in
        let first : once (length xs) ys
            ≡ xs ++ (plain cut over 0 ∷ (inner ++ (jump 0 ∷ pushed ∷ []))) =
          ap (λ t. update_at (with_arg0 t) (word (length xs)) (unpatched ys)) target
          ∙ ap (update_at (with_arg0 over) (word (length xs))) laid_out
          ∙ update_at-word (with_arg0 over) xs (plain cut 0 0) (inner ++ (jump 0 ∷ pushed ∷ []))
              (omega arith) in
        let front : List ExpressionInstruction = xs ++ (plain cut over 0 ∷ inner) in
        let to_inner = length-append code (as_boolean ∷ []) in
        let to_front = length-append xs (plain cut over 0 ∷ inner) in
        let second : length (up_to_bool ys) ≡ length front =
          omega (arith, to_up, to_ys, to_xs, to_front, to_inner) in
        let end : word (length (once (length xs) ys)) ≡ suc over =
          ap word whole ∙ word-same (suc over) (omega arith) in
        ap (λ e. update_at (with_arg0 e) (word (length (up_to_bool ys))) (once (length xs) ys)) end
        ∙ ap (λ n. update_at (with_arg0 (suc over)) (word n) (once (length xs) ys)) second
        ∙ ap (update_at (with_arg0 (suc over)) (word (length front)))
            (first ∙ sym (append_assoc xs (plain cut over 0 ∷ inner) (jump 0 ∷ pushed ∷ [])))
        ∙ update_at-word (with_arg0 (suc over)) front (jump 0) (pushed ∷ [])
            (omega (arith, to_front, to_inner))
        ∙ append_assoc xs (plain cut over 0 ∷ inner) (jump (suc over) ∷ pushed ∷ [])

  pub length-twice : (n : ℕ) (ys : List ExpressionInstruction) → length (twice n ys) ≡ length ys + 3
  length-twice n ys =
      length-update_at _ _ (once n ys)
      ∙ length-update_at _ _ (unpatched ys)
      ∙ omega (
        arith,
        length-append ys (as_boolean ∷ []),
        length-append (up_to_bool ys) (jump 0 ∷ []),
        length-append (up_to_bool ys ++ (jump 0 ∷ [])) (pushed ∷ []),
      )

  -- The state behind the right part, with all that is left to do done.
  abbrev patched : ℕ → Builder → Builder
  patched n s = record s {
    program = record s.program { expression_instructions = twice n (code_of s) };
  }

  module _ {D S : Type 0} (services : Services D S) where
    patched-Emits :
        (goes_on : Value D → Bool) (m : Act services (Value D))
        → ((p : CompiledProgram) → IsCut services p cut goes_on)
        → (s t : Builder)
        → Emits services (push_expression (plain cut 0 0) s) (push services m) (tt {0}, t)
        → Emits services s
            (cut_short services goes_on value m)
            (tt {0}, patched (length (code_of s)) t)
    unfolding push_expression
    patched-Emits goes_on m is_cut s t (grows, compiled) =
        let first = length-append (code_of s) (plain cut 0 0 ∷ []) in
        let size = length-twice (length (code_of s)) (code_of t) in
        (
          record { code = omega (arith, grows.code, first, size); bytes = grows.bytes },
          λ stored small.
              let k = compiled stored (omega (arith, small.0, size), small.1) in
              let long =
                ap length k.codes ∙ length-append (code_of s ++ (plain cut 0 0 ∷ [])) k.code in
              record {
                code = cut_code cut value (length (code_of s)) k.code;
                codes =
                    ap (twice (length (code_of s))) k.codes
                    ∙ twice_lem (code_of s) k.code (omega (arith, small.0, size, long, first));
                more = k.more;
                bytes = k.bytes;
                stored = k.stored;
                performs = λ p tail has.
                    cut-Performs services p cut goes_on (is_cut p) value (length (code_of s)) k.code
                      m
                      (subst (λ n. Performs services p n k.code (push services m))
                        (first ∙ omega arith) (k.performs p tail has));
              },
        )

    -- The right part, from its jump on.
    behind_left : Compiler Unit → Compiler Unit
    behind_left right = do
      short_jump ← emit_expression (plain cut 0 0)
      right
      emit_expression as_boolean
      end_jump ← emit_expression (plain ExpressionOpcode.jump 0 0)
      index ← emit_expression pushed
      set_expression_target short_jump index
      end_index ← expression_size
      set_expression_target end_jump end_index

    Compiles-behind_left :
        (goes_on : Value D → Bool) (m : Act services (Value D)) (right : Compiler Unit)
        → ((p : CompiledProgram) → IsCut services p cut goes_on)
        → Compiles services right (push services m)
        → Compiles services (behind_left right) (cut_short services goes_on value m)
    unfolding behind_left emit_expression ◌>>=◌ push_expression set_expression_target
        expression_size
    Compiles-behind_left goes_on m right is_cut h s =
        Yields-bind (Emits services (push_expression (plain cut 0 0) s) (push services m))
          (Emits services s (cut_short services goes_on value m))
          (right (push_expression (plain cut 0 0) s)) _ (h (push_expression (plain cut 0 0) s))
          (λ (done, t) emits. patched-Emits goes_on m is_cut s t emits)

    pub Compiles-short_circuit :
        (goes_on : Value D → Bool) (l m : Act services (Value D)) (left right : Compiler Unit)
        → ((p : CompiledProgram) → IsCut services p cut goes_on)
        → Compiles services left (push services l)
        → Compiles services right (push services m)
        → Compiles services
            (compile_short_circuit cut value left right)
            (in_turn services (push services l) (cut_short services goes_on value m))
    unfolding compile_short_circuit behind_left
    Compiles-short_circuit goes_on l m left right is_cut f g =
        Compiles-then services left (behind_left right) _ _ f
          (Compiles-behind_left goes_on m right is_cut g)
