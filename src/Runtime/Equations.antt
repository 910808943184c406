-- ===== src/Runtime/Equations.antt =====
-- runtime/compiled/CompiledTemplateExecutor.cpp: effects in turn, as the pushing of one value.
use prebyte.Base.{
  ℕ, Bool, true, false, not, List, [], ◌∷◌, append-nil, ◌≡◌, refl, sym, ap, ◌∙◌, arith, length,
  if◌then◌else◌,
}
use prebyte.Result.{Result, ok, err, out_of_fuel, ◌>>=◌, Yields}
use prebyte.Runtime.Value.{Value, bool, to_bool}
use prebyte.Runtime.Machine.{Services, Stack, pop_arguments}
use prebyte.Runtime.Meaning.{short_circuit}
use prebyte.Runtime.Runs.{Effect, in_turn}
use prebyte.Runtime.Effects.{Act, push, push_all, apply_all, stacked, pop_arguments-stacked}
use prebyte.Runtime.Jumps.{cut_short, as_bool}
use prebyte.Compiled.Compiler.Expressions.{DoubleOps}

module _ {D S : Type 0} (services : Services D S) where
  -- A tail of the left part's result.
  after_push :
      (r : Result (Value D × S)) (stack : Stack services) (u : Effect services)
      (f : Value D → Act services (Value D))
      → ((v : Value D) (session : S) → u (v ∷ stack) session ≡ push services (f v) stack session)
      → ((r >>= λ (v, later). ok (v ∷ stack, later)) >>= λ (after, later). u after later)
        ≡ ((r >>= λ (v, later). f v later) >>= λ (v, later). ok (v ∷ stack, later))
  after_push (ok (v, later)) stack u f e = e v later
  after_push (err x) stack u f e = refl
  after_push out_of_fuel stack u f e = refl

  pub push-then :
      (m : Act services (Value D)) (u : Effect services) (f : Value D → Act services (Value D))
      (stack : Stack services) (session : S)
      → ((v : Value D) (later : S) → u (v ∷ stack) later ≡ push services (f v) stack later)
      → in_turn services (push services m) u stack session
        ≡ push services (λ now. m now >>= λ (v, later). f v later) stack session
  push-then m u f stack session e = after_push (m session) stack u f e

  module _ (double : DoubleOps D) where
    pub true-circuit :
        (l r : Act services (Value D)) (stack : Stack services) (session : S)
        → in_turn services
            (push services l)
            (cut_short services (to_bool services.numbers) 0 r)
            stack
            session
          ≡ push services (short_circuit double services true l r) stack session
    unfolding short_circuit
    true-circuit l r stack session =
        push-then l _
          (λ v.
            if to_bool services.numbers v
            then as_bool services r
            else (λ later. ok (bool false, later)))
          stack session (λ v later. branch (to_bool services.numbers v) later)
      where
        branch :
            (b : Bool) (later : S)
            → (if b
                then push services (as_bool services r) stack later
                else ok (bool false ∷ stack, later))
              ≡ push services
                  (if b then as_bool services r else (λ last. ok (bool false, last)))
                  stack
                  later
        branch true later = refl
        branch false later = refl

    pub false-circuit :
        (l r : Act services (Value D)) (stack : Stack services) (session : S)
        → in_turn services
            (push services l)
            (cut_short services (λ v. not (to_bool services.numbers v)) 1 r)
            stack
            session
          ≡ push services (short_circuit double services false l r) stack session
    unfolding short_circuit
    false-circuit l r stack session =
        push-then l _
          (λ v.
            if to_bool services.numbers v
            then (λ later. ok (bool true, later))
            else as_bool services r)
          stack session (λ v later. branch (to_bool services.numbers v) later)
      where
        branch :
            (b : Bool) (later : S)
            → (if not b
                then push services (as_bool services r) stack later
                else ok (bool true ∷ stack, later))
              ≡ push services
                  (if b then (λ last. ok (bool true, last)) else as_bool services r)
                  stack
                  later
        branch true later = refl
        branch false later = refl

  popped_all :
      (r : Result (List (Value D) × S)) (n : ℕ) (g : Stack services → Effect services)
      (stack : Stack services)
      → Yields (λ (x : List (Value D) × S). length x.0 ≡ n) r
      → ((r >>= λ (vs, later). ok (stacked services vs stack, later)) >>= λ (after, later).
          apply_all services n g after later)
        ≡ (r >>= λ (vs, later). g vs stack later)
  unfolding pop_arguments
  popped_all (ok (vs, later)) n g stack h =
      ap (λ m. pop_arguments services m [] (stacked services vs stack) λ ws rest. g ws rest later)
        (sym h ∙ omega arith)
      ∙ pop_arguments-stacked services vs 0 [] stack (λ ws rest. g ws rest later)
      ∙ ap (λ ws. g ws stack later) (append-nil vs)
  popped_all (err x) n g stack h = refl
  popped_all out_of_fuel n g stack h = refl

  pub apply_all-push_all :
      (ms : Act services (List (Value D))) (n : ℕ) (g : Stack services → Effect services)
      (stack : Stack services) (session : S)
      → Yields (λ (x : List (Value D) × S). length x.0 ≡ n) (ms session)
      → in_turn services (push_all services ms) (apply_all services n g) stack session
        ≡ (ms session >>= λ (vs, later). g vs stack later)
  apply_all-push_all ms n g stack session h = popped_all (ms session) n g stack h

  -- A value in front of the values of the rest.
  abbrev pub in_front : Value D → Result (List (Value D) × S) → Result (List (Value D) × S)
  in_front v r = r >>= λ (vs, last). ok (v ∷ vs, last)

  abbrev laid : Stack services → Result (List (Value D) × S) → Result (Stack services × S)
  laid stack r = r >>= λ (vs, last). ok (stacked services vs stack, last)

  laid-in_front :
      (v : Value D) (stack : Stack services) (r : Result (List (Value D) × S))
      → laid (v ∷ stack) r ≡ laid stack (in_front v r)
  laid-in_front v stack (ok (vs, last)) = refl
  laid-in_front v stack (err x) = refl
  laid-in_front v stack out_of_fuel = refl

  pub push_all-push :
      (m : Act services (Value D)) (ms : Act services (List (Value D))) (stack : Stack services)
      (session : S)
      → in_turn services (push services m) (push_all services ms) stack session
        ≡ push_all services (λ now. m now >>= λ (v, later). in_front v (ms later)) stack session
  push_all-push m ms stack session = at (m session)
    where
      at :
          (r : Result (Value D × S))
          → ((r >>= λ (v, later). ok (v ∷ stack, later)) >>= λ (after, later).
              laid after (ms later))
            ≡ laid stack (r >>= λ (v, later). in_front v (ms later))
      at (ok (v, later)) = laid-in_front v stack (ms later)
      at (err x) = refl
      at out_of_fuel = refl
