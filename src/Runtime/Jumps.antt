-- ===== src/Runtime/Jumps.antt =====
-- runtime/compiled/CompiledTemplateExecutor.cpp: the code of `&&` and `||`, with its jumps.
use mathlib.Core.Path.{subst}
use prebyte.Base.{
  ℕ, suc, ◌+◌, ◌≤◌, Bool, true, false, not, List, [], ◌∷◌, ◌++◌, ◌≡◌, refl, ◌∙◌, inl, inr,
  Bool-cases, arith, length, length-append, ◌==◌, if◌then◌else◌,
}
use prebyte.Result.{Result, ok, err, out_of_range, ◌>>=◌}
use prebyte.Compiled.Program.{ExpressionOpcode, ExpressionInstruction, CompiledProgram}
use prebyte.Compiled.Compiler.Expressions.{plain}
use prebyte.Runtime.Value.{Value, bool, to_bool}
use prebyte.Runtime.Machine.{
  Services, Stack, State, execute, operate, leaf, with_top, underflow, jump_unless, unary,
  instruction_at,
}
use prebyte.Runtime.Runs.{CodeAt, CodeAt-append, Effect, Runs, Runs-goto, Runs-throw}
use prebyte.Runtime.Performs.{Performs, Performs-one, Performs-append, Performs-same}
use prebyte.Runtime.Effects.{Act, push, apply1-push, unary-IsStraight}

-- The code behind the left part, from the index of its jump on.
abbrev pub cut_code :
    ExpressionOpcode → ℕ → ℕ → List ExpressionInstruction → List ExpressionInstruction
cut_code cut value n right =
    let over = suc n + length right + 2 in
    plain cut over 0
    ∷ ((right ++ (plain ExpressionOpcode.to_bool 0 0 ∷ []))
        ++ (plain ExpressionOpcode.jump (suc over) 0
            ∷ plain ExpressionOpcode.push_bool value 0
            ∷ []))

module _ {D S : Type 0} (services : Services D S) where
  -- The right part, as a Boolean.
  abbrev pub as_bool : Act services (Value D) → Act services (Value D)
  as_bool right session =
      right session >>= λ (w, later). ok (bool (to_bool services.numbers w), later)

  -- What happens behind the left part.
  abbrev pub cut_short : (Value D → Bool) → ℕ → Act services (Value D) → Effect services
  cut_short goes_on value right [] session = err out_of_range
  cut_short goes_on value right (v ∷ stack) session =
      if goes_on v
      then push services (as_bool right) stack session
      else ok (bool (not (value == 0)) ∷ stack, session)

module _ {D S : Type 0} (services : Services D S) (p : CompiledProgram) where
  -- A jump over the right part, where the value on top says so.
  pub record IsCut (cut : ExpressionOpcode) (goes_on : Value D → Bool) : Type 0 where
    pub empty :
        (target pc : ℕ) (session : S)
        → execute services p (plain cut target 0) (pc, [], session) ≡ err out_of_range
    pub top :
        (target pc : ℕ) (v : Value D) (stack : Stack services) (session : S)
        → execute services p (plain cut target 0) (pc, v ∷ stack, session)
          ≡ jump_unless services (goes_on v) target pc stack session

  pub false-IsCut : IsCut ExpressionOpcode.jump_if_false (to_bool services.numbers)
  unfolding execute operate leaf with_top underflow
  false-IsCut = record {
    empty = λ target pc session. refl;
    top = λ target pc v stack session. refl;
  }

  pub true-IsCut : IsCut ExpressionOpcode.jump_if_true (λ v. not (to_bool services.numbers v))
  unfolding execute operate leaf with_top underflow
  true-IsCut = record { empty = λ target pc session. refl; top = λ target pc v stack session. refl }

  bool-Performs :
      (n : ℕ) (code : List ExpressionInstruction) (right : Act services (Value D))
      → Performs services p n code (push services right)
      → Performs services p n
          (code ++ (plain ExpressionOpcode.to_bool 0 0 ∷ []))
          (push services (as_bool services right))
  unfolding unary
  bool-Performs n code right h =
      Performs-same services p n _ _ _
        (apply1-push services right
          (λ v session. ok (unary services ExpressionOpcode.to_bool v, session)))
        (Performs-append services p n code _ _ _ h (
          Performs-one services p (n + length code) _ _
            (unary-IsStraight services p ExpressionOpcode.to_bool 0 0 tt)))

  push_bool-step :
      (value pc : ℕ) (stack : Stack services) (session : S)
      → execute services p (plain ExpressionOpcode.push_bool value 0) (pc, stack, session)
        ≡ ok (suc pc, bool (not (value == 0)) ∷ stack, session)
  unfolding execute leaf
  push_bool-step value pc stack session = refl

  jump-step :
      (target pc : ℕ) (stack : Stack services) (session : S)
      → execute services p (plain ExpressionOpcode.jump target 0) (pc, stack, session)
        ≡ ok (target, stack, session)
  unfolding execute leaf operate
  jump-step target pc stack session = refl

  went :
      (b : Bool) (target pc : ℕ) (stack : Stack services) (session : S)
      (m : Result (State services))
      → b ≡ true
      → m ≡ jump_unless services b target pc stack session
      → m ≡ ok (suc pc, stack, session)
  unfolding jump_unless
  went b target pc stack session m e f = f ∙ rw e refl

  cut_off :
      (b : Bool) (target pc : ℕ) (stack : Stack services) (session : S)
      (m : Result (State services))
      → b ≡ false
      → m ≡ jump_unless services b target pc stack session
      → m ≡ ok (target, stack, session)
  unfolding jump_unless
  cut_off b target pc stack session m e f = f ∙ rw e refl

  module _ (cut : ExpressionOpcode) (goes_on : Value D → Bool) (is_cut : IsCut cut goes_on)
      (value n : ℕ) (code : List ExpressionInstruction) (right : Act services (Value D))
      (h : Performs services p (suc n) code (push services right)) (end : ℕ) where
    over : ℕ
    over = suc n + length code + 2

    whole : List ExpressionInstruction
    whole = code ++ (plain ExpressionOpcode.to_bool 0 0 ∷ [])

    length-whole : length whole ≡ length code + 1
    unfolding whole
    length-whole = length-append code (plain ExpressionOpcode.to_bool 0 0 ∷ [])

    length-cut_code : length (cut_code cut value n code) ≡ length code + 4
    length-cut_code =
        let inner = length-append code (plain ExpressionOpcode.to_bool 0 0 ∷ []) in
        let outer = length-append (code ++ (plain ExpressionOpcode.to_bool 0 0 ∷ [])) (
          plain ExpressionOpcode.jump (suc (suc n + length code + 2)) 0
          ∷ plain ExpressionOpcode.push_bool value 0
          ∷ []) in
        omega (arith, inner, outer)

    -- The code, taken to pieces.
    pieces :
        CodeAt p.expression_instructions n (cut_code cut value n code)
        → (instruction_at p.expression_instructions n ≡ ok (plain cut over 0))
          × CodeAt p.expression_instructions (suc n) whole
          × (instruction_at p.expression_instructions (suc n + length code + 1)
              ≡ ok (plain ExpressionOpcode.jump (suc over) 0))
          × (instruction_at p.expression_instructions over
              ≡ ok (plain ExpressionOpcode.push_bool value 0))
    unfolding over whole
    pieces at =
        let inner = length-append code (plain ExpressionOpcode.to_bool 0 0 ∷ []) in
        let (body, last) =
          CodeAt-append p.expression_instructions (suc n)
            (code ++ (plain ExpressionOpcode.to_bool 0 0 ∷ [])) _ at.1 in
        (
          at.0,
          body,
          subst
              (λ m.
                instruction_at p.expression_instructions m
                ≡ ok (plain ExpressionOpcode.jump (suc (suc n + length code + 2)) 0))
              (omega (arith, inner)) last.0,
          subst
              (λ m.
                instruction_at p.expression_instructions m
                ≡ ok (plain ExpressionOpcode.push_bool value 0))
              (omega (arith, inner)) last.1.0,
        )

    module _ (fits : n + length (cut_code cut value n code) ≤ end)
        (at : CodeAt p.expression_instructions n (cut_code cut value n code))
        (k : Stack services → S → Result (Value D × S))
        (runs : (after : Stack services) (later : S)
          → Runs services p end
              (n + length (cut_code cut value n code))
              after
              later
              (k after later)) where
      behind :
          (after : Stack services) (later : S)
          → Runs services p end (suc over) after later (k after later)
      unfolding over
      behind after later =
          let size = length-cut_code in
          subst (λ m. Runs services p end m after later (k after later)) (omega (arith, size))
            (runs after later)

      -- The right part is left out.
      skipped :
          (stack : Stack services) (session : S)
          → Runs services p end over stack session (k (bool (not (value == 0)) ∷ stack) session)
      unfolding over
      skipped stack session =
          let size = length-cut_code in
          Runs-goto services p end over stack session (plain ExpressionOpcode.push_bool value 0)
            (suc over) (bool (not (value == 0)) ∷ stack) session _ (omega (arith, size))
            (pieces at).3 (push_bool-step value over stack session) (omega arith)
            (behind (bool (not (value == 0)) ∷ stack) session)

      jumped :
          (after : Stack services) (later : S)
          → Runs services p end (suc n + length code + 1) after later (k after later)
      unfolding over
      jumped after later =
          let size = length-cut_code in
          Runs-goto services p end (suc n + length code + 1) after later
            (plain ExpressionOpcode.jump (suc over) 0) (suc over) after later _
            (omega (arith, size)) (pieces at).2
            (jump-step (suc over) (suc n + length code + 1) after later) (omega arith)
            (behind after later)

      -- The right part is run.
      evaluated :
          (stack : Stack services) (session : S)
          → Runs services p end (suc n) stack session (
              push services (as_bool services right) stack session >>= λ (after, later).
              k after later)
      unfolding whole
      evaluated stack session =
          let size = length-cut_code in
          let long = length-whole in
          (bool-Performs (suc n) code right h).performs end (omega (arith, size, long))
            (pieces at).1 k stack session
            (λ after later.
              subst (λ m. Runs services p end m after later (k after later)) (omega (arith, long))
                (jumped after later))

      cut-runs :
          (stack : Stack services) (session : S)
          → Runs services p end n stack session (
              cut_short services goes_on value right stack session >>= λ (after, later).
              k after later)
      unfolding over
      cut-runs [] session =
          let size = length-cut_code in
          Runs-throw services p end n [] session (plain cut over 0) out_of_range
            (omega (arith, size)) (pieces at).0 (is_cut.empty over n session)
      cut-runs (v ∷ stack) session =
          let size = length-cut_code in
          let top = is_cut.top over n v stack session in
          elim (Bool-cases (goes_on v)) [
            | inl holds ↦ rw holds (
                Runs-goto services p end n (v ∷ stack) session (plain cut over 0) (suc n) stack
                  session _ (omega (arith, size)) (pieces at).0 (went _ _ _ _ _ _ holds top)
                  (omega arith) (evaluated stack session))
            | inr fails ↦ rw fails (
                Runs-goto services p end n (v ∷ stack) session (plain cut over 0) over stack session
                  _ (omega (arith, size)) (pieces at).0 (cut_off _ _ _ _ _ _ fails top)
                  (omega arith) (skipped stack session))
          ]

  pub cut-Performs :
      (cut : ExpressionOpcode) (goes_on : Value D → Bool)
      → IsCut cut goes_on
      → (value n : ℕ) (code : List ExpressionInstruction) (right : Act services (Value D))
      → Performs services p (suc n) code (push services right)
      → Performs services p n (cut_code cut value n code) (cut_short services goes_on value right)
  cut-Performs cut goes_on is_cut value n code right h = record {
    performs = λ end fits at k stack session runs.
        cut-runs cut goes_on is_cut value n code right h end fits at k runs stack session;
  }
