-- ===== src/Runtime/Runs.antt =====
-- runtime/compiled/CompiledTemplateExecutor.cpp: the loop of `evaluate_expression` over a part of
-- the instructions.
use prebyte.Base.{
  ℕ, zero, suc, ◌+◌, ◌≤◌, ◌<◌, true, false, List, [], ◌∷◌, ◌++◌, ◌≡◌, refl, ◌∙◌, arith, length,
  length-append, append_assoc, ltb,
}
use mathlib.Core.Path.{subst}
use prebyte.Result.{Exception, Result, ok, err, out_of_fuel, ◌>>=◌}
use prebyte.Compiled.Program.{ExpressionInstruction, CompiledProgram}
use prebyte.Runtime.Value.{Value}
use prebyte.Runtime.Machine.{Services, Stack, State, execute, instruction_at, result_of, run_loop}

pub bind_assoc {ℓ κ μ} :
    {A : Type ℓ} {B : Type κ} {C : Type μ} (m : Result A) (f : A → Result B) (g : B → Result C)
    → ((m >>= f) >>= g) ≡ (m >>= λ a. f a >>= g)
bind_assoc (ok a) f g = refl
bind_assoc (err e) f g = refl
bind_assoc out_of_fuel f g = refl

-- The instructions stand in the list from an index on.
abbrev pub CodeAt : List ExpressionInstruction → ℕ → List ExpressionInstruction → Type 0
CodeAt all n [] = Unit
CodeAt all n (i ∷ is) = (instruction_at all n ≡ ok i) × CodeAt all (suc n) is

pub CodeAt-append :
    (all : List ExpressionInstruction) (n : ℕ) (xs ys : List ExpressionInstruction)
    → CodeAt all n (xs ++ ys)
    → CodeAt all n xs × CodeAt all (n + length xs) ys
CodeAt-append all n [] ys h = (tt, subst (λ m. CodeAt all m ys) (omega arith) h)
CodeAt-append all n (x ∷ xs) ys h =
    let (first, later) = CodeAt-append all (suc n) xs ys h.1 in
    ((h.0, first), subst (λ m. CodeAt all m ys) (omega arith) later)

instruction_at-append :
    (xs : List ExpressionInstruction) (i : ExpressionInstruction) (ys : List ExpressionInstruction)
    → instruction_at (xs ++ (i ∷ ys)) (length xs) ≡ ok i
unfolding instruction_at
instruction_at-append [] i ys = refl
instruction_at-append (x ∷ xs) i ys = instruction_at-append xs i ys

pub CodeAt-prefix :
    (xs code more : List ExpressionInstruction) → CodeAt (xs ++ (code ++ more)) (length xs) code
CodeAt-prefix xs [] more = tt
CodeAt-prefix xs (i ∷ code) more =
    let later = CodeAt-prefix (xs ++ (i ∷ [])) code more in
    (
      instruction_at-append xs i (code ++ more),
      subst (λ m. CodeAt (xs ++ (i ∷ (code ++ more))) m code)
          (length-append xs (i ∷ []) ∙ omega arith)
          (subst (λ all. CodeAt all (length (xs ++ (i ∷ []))) code)
            (append_assoc xs (i ∷ []) (code ++ more)) later),
    )

module _ {D S : Type 0} (services : Services D S) where
  -- What a piece of code does to the stack and to the session.
  abbrev pub Effect : Type 0
  Effect = Stack services → S → Result (Stack services × S)

  abbrev pub nothing : Effect
  nothing stack session = ok (stack, session)

  abbrev pub in_turn : Effect → Effect → Effect
  in_turn t u stack session = t stack session >>= λ (after, later). u after later

  module _ (p : CompiledProgram) (end : ℕ) where
    -- With fuel for the way to the end, the machine gives the result.
    abbrev pub Runs : ℕ → Stack services → S → Result (Value D × S) → Type 0
    Runs pc stack session r =
        (fuel : ℕ) → end ≤ pc + fuel → run_loop services p end fuel (pc, stack, session) ≡ r

    pub Runs-end :
        (pc : ℕ) (stack : Stack services) (session : S)
        → end ≤ pc
        → Runs pc stack session (result_of services stack session)
    unfolding run_loop
    Runs-end pc stack session h zero k =
        let over : ltb pc end ≡ false = ground arith in rw over refl
    Runs-end pc stack session h (suc fuel) k =
        let over : ltb pc end ≡ false = ground arith in rw over refl

    after_step :
        (m : Result (State services)) (fuel : ℕ) (k : State services → Result (Value D × S))
        → ((pc : ℕ) (stack : Stack services) (session : S)
            → m ≡ ok (pc, stack, session)
            → run_loop services p end fuel (pc, stack, session) ≡ k (pc, stack, session))
        → (m >>= λ state. run_loop services p end fuel state) ≡ (m >>= k)
    after_step (ok (pc, stack, session)) fuel k h = h pc stack session refl
    after_step (err e) fuel k h = refl
    after_step out_of_fuel fuel k h = refl

    -- One instruction, behind which the machine is further on.
    pub Runs-step :
        (pc : ℕ) (stack : Stack services) (session : S) (i : ExpressionInstruction)
        (k : State services → Result (Value D × S))
        → pc < end
        → instruction_at p.expression_instructions pc ≡ ok i
        → ((next : ℕ) (after : Stack services) (later : S)
            → execute services p i (pc, stack, session) ≡ ok (next, after, later)
            → (pc < next) × Runs next after later (k (next, after, later)))
        → Runs pc stack session (execute services p i (pc, stack, session) >>= k)
    unfolding run_loop
    Runs-step pc stack session i k h e f zero le = absurd (omega arith)
    Runs-step pc stack session i k h e f (suc fuel) le =
        let inside : ltb pc end ≡ true = ground arith in
        rw (inside, e)
          (after_step (execute services p i (pc, stack, session)) fuel k (λ next after later eq.
            let (further, runs) = f next after later eq in runs fuel (omega arith)))

    pub Runs-goto :
        (pc : ℕ) (stack : Stack services) (session : S) (i : ExpressionInstruction) (next : ℕ)
        (after : Stack services) (later : S) (r : Result (Value D × S))
        → pc < end
        → instruction_at p.expression_instructions pc ≡ ok i
        → execute services p i (pc, stack, session) ≡ ok (next, after, later)
        → pc < next
        → Runs next after later r
        → Runs pc stack session r
    unfolding run_loop
    Runs-goto pc stack session i next after later r h e s further runs zero le =
        absurd (omega arith)
    Runs-goto pc stack session i next after later r h e s further runs (suc fuel) le =
        let inside : ltb pc end ≡ true = ground arith in rw (inside, e, s) (runs fuel (omega arith))

    pub Runs-throw :
        (pc : ℕ) (stack : Stack services) (session : S) (i : ExpressionInstruction) (x : Exception)
        → pc < end
        → instruction_at p.expression_instructions pc ≡ ok i
        → execute services p i (pc, stack, session) ≡ err x
        → Runs pc stack session (err x)
    unfolding run_loop
    Runs-throw pc stack session i x h e s zero le = absurd (omega arith)
    Runs-throw pc stack session i x h e s (suc fuel) le =
        let inside : ltb pc end ≡ true = ground arith in rw (inside, e, s) refl
