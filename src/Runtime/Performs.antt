-- ===== src/Runtime/Performs.antt =====
-- runtime/compiled/CompiledTemplateExecutor.cpp: what pieces of code do, put together.
use mathlib.Core.Path.{subst}
use prebyte.Base.{
  ℕ, suc, ◌+◌, ◌≤◌, List, [], ◌∷◌, ◌++◌, ◌≡◌, sym, ap, ◌∙◌, arith, length, length-append,
}
use prebyte.Result.{Result, ok, err, out_of_fuel, ◌>>=◌}
use prebyte.Compiled.Program.{ExpressionInstruction, CompiledProgram}
use prebyte.Runtime.Value.{Value}
use prebyte.Runtime.Machine.{Services, Stack, State, execute}
use prebyte.Runtime.Runs.{
  bind_assoc, CodeAt, CodeAt-append, Effect, nothing, in_turn, Runs, Runs-step,
}

module _ {D S : Type 0} (services : Services D S) (p : CompiledProgram) where
  -- The code, wherever it stands: the machine goes on behind it with what its effect leaves.
  pub record Performs (n : ℕ) (code : List ExpressionInstruction) (t : Effect services)
      : Type 0 where
    pub performs :
        (end : ℕ)
        → n + length code ≤ end
        → CodeAt p.expression_instructions n code
        → (k : Stack services → S → Result (Value D × S)) (stack : Stack services) (session : S)
        → ((after : Stack services) (later : S)
            → Runs services p end (n + length code) after later (k after later))
        → Runs services p end n stack session (t stack session >>= λ (after, later). k after later)

  pub Performs-same :
      (n : ℕ) (code : List ExpressionInstruction) (t u : Effect services)
      → ((stack : Stack services) (session : S) → t stack session ≡ u stack session)
      → Performs n code t
      → Performs n code u
  Performs-same n code t u e h = record {
    performs = λ end le at k stack session runs.
        rw (sym (e stack session)) (h.performs end le at k stack session runs);
  }

  pub Performs-nil : (n : ℕ) → Performs n [] (nothing services)
  Performs-nil n = record {
    performs = λ end le at k stack session runs.
        subst (λ m. Runs services p end m stack session (k stack session)) (omega arith)
          (runs stack session);
  }

  pub Performs-append :
      (n : ℕ) (xs ys : List ExpressionInstruction) (t u : Effect services)
      → Performs n xs t
      → Performs (n + length xs) ys u
      → Performs n (xs ++ ys) (in_turn services t u)
  Performs-append n xs ys t u f g = record {
    performs = λ end le at k stack session runs.
        let long = length-append xs ys in
        let (first, second) = CodeAt-append p.expression_instructions n xs ys at in
        let reached : n + length (xs ++ ys) ≡ n + length xs + length ys = omega (arith, long) in
        subst (Runs services p end n stack session)
          (sym (
            bind_assoc (t stack session) (λ (after, later). u after later)
              (λ (after, later). k after later)))
          (f.performs end (omega (arith, long)) first
            (λ after later. u after later >>= λ (last, final). k last final) stack session
            (λ after later. g.performs end (omega (arith, long)) second k after later (λ last final.
              subst (λ m. Runs services p end m last final (k last final)) reached
                (runs last final))));
  }

  -- On to the next instruction.
  abbrev pub forward : ℕ → Result (Stack services × S) → Result (State services)
  forward pc m = m >>= λ (after, later). ok (suc pc, after, later)

  -- An instruction behind which the machine goes to the next one.
  abbrev pub IsStraight : ExpressionInstruction → Effect services → Type 0
  IsStraight i t =
      (pc : ℕ) (stack : Stack services) (session : S)
      → execute services p i (pc, stack, session) ≡ forward pc (t stack session)

  moved :
      (m : Result (Stack services × S)) (pc next : ℕ) (after : Stack services) (later : S)
      → forward pc m ≡ ok (next, after, later)
      → (suc pc ≡ next)
  moved (ok (stack, session)) pc next after later e = cc e
  moved (err x) pc next after later e = absurd (cc e)
  moved out_of_fuel pc next after later e = absurd (cc e)

  pub Performs-one :
      (n : ℕ) (i : ExpressionInstruction) (t : Effect services)
      → IsStraight i t
      → Performs n (i ∷ []) t
  Performs-one n i t straight = record {
    performs = λ end le at k stack session runs.
        let whole =
          Runs-step services p end n stack session i (λ (next, after, later). k after later)
            (omega arith) at.0
            (λ next after later e.
              let next_is =
                moved (t stack session) n next after later (sym (straight n stack session) ∙ e) in
              (
                omega (arith, next_is),
                subst (λ m. Runs services p end m after later (k after later))
                    (omega (arith, next_is)) (runs after later),
              )) in
        subst (Runs services p end n stack session)
          (ap (λ m. m >>= λ (next, after, later). k after later) (straight n stack session)
            ∙ bind_assoc (t stack session) _ _)
          whole;
  }
