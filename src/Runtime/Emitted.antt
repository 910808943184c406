-- ===== src/Runtime/Emitted.antt =====
-- runtime/compiled/CompiledTemplateCompiler.cpp: what the parts of `compile_expression_node` emit,
-- put together.
use mathlib.Core.Path.{subst}
use prebyte.Base.{
  ℕ, List, [], ◌∷◌, ◌++◌, append_assoc, append-nil, ◌≡◌, refl, sym, ap, ◌∙◌, arith, Bytes, length,
  length-append,
}
use prebyte.Result.{SourceSpan, Result, ok, err, out_of_fuel, Yields, Yields-bind}
use prebyte.Compiled.Program.{ExpressionOpcode, ExpressionInstruction, CompiledProgram}
use prebyte.Compiled.Compiler.State.{
  DataSlice, Builder, Compiler, ◌>>=◌, ◌>>◌, pure, fail, store_data, emit_expression,
  push_expression,
}
use prebyte.Compiled.Compiler.Expressions.{emit, emit_data, with_slice}
use prebyte.Runtime.Machine.{Services, Stack, data_view}
use prebyte.Runtime.Runs.{Effect, nothing, in_turn}
use prebyte.Runtime.Performs.{
  IsStraight, Performs, Performs-nil, Performs-append, Performs-one, Performs-same,
}
use prebyte.Runtime.Compiles.{
  Held, Stored, IsSmall, Grows, IsSmall-Grows, Stores, store_data-Stores, data_view-Held,
  Held-append, bytes_of, code_of,
}

pub Grows-trans : (s t u : Builder) → Grows s t → Grows t u → Grows s u
Grows-trans s t u g h = record {
  code = omega (arith, g.code, h.code);
  bytes = omega (arith, g.bytes, h.bytes);
}

module _ {D S : Type 0} (services : Services D S) where
  -- The code that was added, and what it does in every program that holds the data.
  pub record Compiled (s t : Builder) (u : Effect services) : Type 0 where
    pub code : List ExpressionInstruction
    pub codes : code_of t ≡ code_of s ++ code
    pub more : Bytes
    pub bytes : bytes_of t ≡ bytes_of s ++ more
    pub stored : Stored t
    pub performs :
        (p : CompiledProgram) (tail : Bytes)
        → p.data_blob ≡ bytes_of t ++ tail
        → Performs services p (length (code_of s)) code u

  abbrev pub Emits : {A : Type 0} → Builder → Effect services → A × Builder → Type 0
  Emits s u r = Grows s r.1 × (Stored s → IsSmall r.1 → Compiled s r.1 u)

  -- The compiler emits code with this effect, if it emits any.
  abbrev pub Compiles : Compiler Unit → Effect services → Type 0
  Compiles c u = (s : Builder) → Yields (Emits s u) (c s)

  pub Compiles-same :
      (c : Compiler Unit) (t u : Effect services)
      → ((stack : Stack services) (session : S) → t stack session ≡ u stack session)
      → Compiles c t
      → Compiles c u
  Compiles-same c t u e h s = weaken (c s) (h s)
    where
      weaken : (m : Result (Unit × Builder)) → Yields (Emits s t) m → Yields (Emits s u) m
      weaken (ok r) (grows, compiled) = (
        grows,
        λ stored small.
            let k = compiled stored small in
            record {
              code = k.code;
              codes = k.codes;
              more = k.more;
              bytes = k.bytes;
              stored = k.stored;
              performs = λ p tail has.
                  Performs-same services p (length (code_of s)) k.code t u e
                    (k.performs p tail has);
            },
      )
      weaken (err x) h = tt
      weaken out_of_fuel h = tt

  pub Compiles-pure : Compiles (pure tt) (nothing services)
  unfolding pure
  Compiles-pure s = (
    record { code = omega arith; bytes = omega arith },
    λ stored small. record {
      code = [];
      codes = sym (append-nil (code_of s));
      more = [];
      bytes = sym (append-nil (bytes_of s));
      stored = stored;
      performs = λ p tail has. Performs-nil services p (length (code_of s));
    },
  )

  pub Compiles-fail :
      (u : Effect services) (code message : Bytes) (span : SourceSpan)
      → Compiles (fail code message span) u
  unfolding fail
  Compiles-fail u code message span s = tt

  Compiled-then :
      (s t u : Builder) (a b : Effect services)
      → Compiled s t a
      → Compiled t u b
      → Compiled s u (in_turn services a b)
  Compiled-then s t u a b h k = record {
    code = h.code ++ k.code;
    codes = k.codes ∙ ap (λ c. c ++ k.code) h.codes ∙ append_assoc (code_of s) h.code k.code;
    more = h.more ++ k.more;
    bytes = k.bytes ∙ ap (λ c. c ++ k.more) h.bytes ∙ append_assoc (bytes_of s) h.more k.more;
    stored = k.stored;
    performs = λ p tail has.
        let size = ap length h.codes ∙ length-append (code_of s) h.code in
        Performs-append services p (length (code_of s)) h.code k.code a b
          (h.performs p (k.more ++ tail)
            (has ∙ ap (λ c. c ++ tail) k.bytes ∙ append_assoc (bytes_of t) k.more tail))
          (subst (λ n. Performs services p n k.code b) size (k.performs p tail has));
  }

  pub Compiles-then :
      (c d : Compiler Unit) (t u : Effect services)
      → Compiles c t
      → Compiles d u
      → Compiles (c >> d) (in_turn services t u)
  unfolding ◌>>=◌
  Compiles-then c d t u h k s =
      Yields-bind (Emits s t) (Emits s (in_turn services t u)) (c s) _ (h s)
        λ (done, mid) first. second mid first (d mid) (k mid)
    where
      second :
          (mid : Builder)
          → Emits s t (tt {0}, mid)
          → (m : Result (Unit × Builder)) → Yields (Emits mid u) m
          → Yields (Emits s (in_turn services t u)) m
      second mid (grows, compiled) (ok (done, last)) (further, behind) = (
        Grows-trans s mid last grows further,
        λ stored small.
            let before = compiled stored (IsSmall-Grows mid last further small) in
            Compiled-then s mid last t u before (behind before.stored small),
      )
      second mid first (err x) h = tt
      second mid first out_of_fuel h = tt

  push_expression-Grows : (i : ExpressionInstruction) (s : Builder) → Grows s (push_expression i s)
  unfolding push_expression
  push_expression-Grows i s = record {
    code = omega (arith, length-append (code_of s) (i ∷ []));
    bytes = omega arith;
  }

  pub Compiles-emit :
      (i : ExpressionInstruction) (u : Effect services)
      → ((p : CompiledProgram) → IsStraight services p i u)
      → Compiles (emit i) u
  unfolding emit emit_expression ◌>>=◌ pure push_expression
  Compiles-emit i u straight s = (
    record { code = omega (arith, length-append (code_of s) (i ∷ [])); bytes = omega arith },
    λ stored small. record {
      code = i ∷ [];
      codes = refl;
      more = [];
      bytes = sym (append-nil (bytes_of s));
      stored = stored;
      performs = λ p tail has. Performs-one services p (length (code_of s)) i u (straight p);
    },
  )

  emit-push_expression :
      (i : ExpressionInstruction) (s : Builder) → emit i s ≡ ok (tt, push_expression i s)
  unfolding emit emit_expression ◌>>=◌ pure
  emit-push_expression i s = refl

  with_data-Emits :
      (op : ExpressionOpcode) (value : Bytes) (a b : ℕ) (u : Effect services)
      → ((p : CompiledProgram) (slice : DataSlice)
          → data_view p slice.offset slice.length ≡ ok value
          → IsStraight services p (with_slice op slice a b) u)
      → (slice : DataSlice) (s mid : Builder) → Stores s mid value slice
      → Emits s u (tt {0}, push_expression (with_slice op slice a b) mid)
  unfolding push_expression
  with_data-Emits op value a b u straight slice s mid stores =
      let i = with_slice op slice a b in
      let size = ap length stores.code in
      let whole = ap length stores.bytes ∙ length-append (bytes_of s) stores.more in
      (
        record {
          code = omega (arith, length-append (code_of mid) (i ∷ []), size);
          bytes = omega (arith, whole);
        },
        λ stored small.
            let small_mid : IsSmall mid =
              (omega (arith, length-append (code_of mid) (i ∷ []), small.0), small.1) in
            let (held, kept) = stores.held stored small_mid in
            record {
              code = i ∷ [];
              codes = ap (λ c. c ++ (i ∷ [])) stores.code;
              more = stores.more;
              bytes = stores.bytes;
              stored = kept;
              performs = λ p tail has. Performs-one services p (length (code_of s)) i u (
                  straight p slice (
                    data_view-Held p value slice (
                      subst (λ b. Held b value slice) (sym has)
                        (Held-append (bytes_of mid) tail value slice held))));
            },
      )

  -- An instruction with a text.
  pub Compiles-emit_data :
      (op : ExpressionOpcode) (value : Bytes) (a b : ℕ) (u : Effect services)
      → ((p : CompiledProgram) (slice : DataSlice)
          → data_view p slice.offset slice.length ≡ ok value
          → IsStraight services p (with_slice op slice a b) u)
      → Compiles (emit_data op value a b) u
  unfolding emit_data ◌>>=◌
  Compiles-emit_data op value a b u straight s =
      Yields-bind (λ (r : DataSlice × Builder). Stores s r.1 value r.0) (Emits s u)
        (store_data value s) _ (store_data-Stores value s)
        λ (slice, mid) stores. emitted slice mid stores
    where
      emitted :
          (slice : DataSlice) (mid : Builder)
          → Stores s mid value slice
          → Yields (Emits s u) (emit (with_slice op slice a b) mid)
      emitted slice mid stores =
          rw (emit-push_expression (with_slice op slice a b) mid)
            (with_data-Emits op value a b u straight slice s mid stores)
