-- ===== src/Template/Parser/Bindings.antt =====
-- The names that the tags of template/parser/TemplateParserDirectives.cpp bind.
use prebyte.Base.{
  ℕ, zero, suc, false, Option, none, some, List, [], ◌∷◌, ◌≡◌, refl, inl, inr, Bool-cases, Bytes,
  equal,
}
use prebyte.Result.{ok, Yields, Yields-bind, Yields-any}
use prebyte.Template.Token.{TemplateTokenType, TemplateToken, comma, identifier}
use prebyte.Template.Parser.Stream.{
  Stream, Parser, pure, exhausted, ◌>>=◌, fail_at, consume, on_match, check, peek, popped,
}
use prebyte.Template.Parser.Names.{contains_name, is_reserved_name}
use prebyte.Template.Parser.Directives.{unreserved}
use prebyte.Template.Parser.Blocks.{unseen, distinct_names, parse_loop_bindings, parse_parameters}

-- Whatever tokens there are, `P` holds of what the parser returns.
pub record Returns {A : Type 0} (P : A → Type 0) (p : Parser A) : Type 0 where
  pub on : (s : Stream) → Yields (λ (r : A × Stream). P r.0) (p s)

Returns-pure : {A : Type 0} (P : A → Type 0) (a : A) → P a → Returns P (pure a)
unfolding pure
Returns-pure P a h = record { on = λ s. h }

Returns-fail_at :
    {A : Type 0} (P : A → Type 0) (t : TemplateToken) (message : Bytes)
    → Returns P (fail_at t message)
unfolding fail_at
Returns-fail_at P t message = record { on = λ s. tt }

Returns-exhausted : {A : Type 0} (P : A → Type 0) → Returns P exhausted
unfolding exhausted
Returns-exhausted P = record { on = λ s. tt }

Returns-any : {A : Type 0} (p : Parser A) → Returns (λ _. Unit) p
Returns-any p = record { on = λ s. Yields-any (p s) }

Returns-bind :
    {A B : Type 0} (P : A → Type 0) (Q : B → Type 0) (p : Parser A) (f : A → Parser B)
    → Returns P p
    → ((a : A) → P a → Returns Q (f a))
    → Returns Q (p >>= f)
unfolding ◌>>=◌
Returns-bind P Q p f h k = record {
  on = λ s. Yields-bind _ _ (p s) _ (h.on s) (λ r w. (k r.0 w).on r.1);
}

Returns-on_match :
    {A : Type 0} (P : A → Type 0) (type : TemplateTokenType) (found : TemplateToken → Parser A)
    (other : Parser A)
    → ((t : TemplateToken) → Returns P (found t))
    → Returns P other
    → Returns P (on_match type found other)
unfolding on_match
Returns-on_match P type found other h k = record {
  on = λ s. elim (Bool-cases (check type 0 s)) [
    | inl here ↦ rw here ((h (peek s 0)).on (popped s))
    | inr there ↦ rw there (k.on s)
  ];
}

IsFree : Bytes → Type 0
IsFree name = is_reserved_name name ≡ false

unreserved-IsFree : (message : Bytes) (t : TemplateToken) → Returns IsFree (unreserved message t)
unfolding IsFree
unreserved-IsFree message t = elim (Bool-cases (is_reserved_name t.lexeme)) [
  | inl reserved ↦ rw reserved (Returns-fail_at IsFree t _)
  | inr free ↦ rw free (Returns-pure IsFree t.lexeme free)
]

unseen-Returns :
    (seen : List Bytes) (name : Bytes) (t : TemplateToken)
    → Returns (λ _. contains_name seen name ≡ false) (unseen seen name t)
unseen-Returns seen name t = elim (Bool-cases (contains_name seen name)) [
  | inl again ↦ rw again (Returns-fail_at _ t _)
  | inr new ↦ rw new (Returns-pure _ name refl)
]

-- Each name is not reserved, and neither among those seen nor among those in front of it.
abbrev pub IsFresh : List Bytes → List Bytes → Type 0
IsFresh seen [] = Unit
IsFresh seen (name ∷ names) =
    (is_reserved_name name ≡ false)
    × (contains_name seen name ≡ false)
    × IsFresh (name ∷ seen) names

later-IsFresh :
    (fuel : ℕ) (seen : List Bytes)
    → Returns (IsFresh seen) (parse_parameters fuel seen)
    → Returns (IsFresh seen) (on_match comma (λ _. parse_parameters fuel seen) (pure []))
later-IsFresh fuel seen h =
    Returns-on_match (IsFresh seen) comma _ _ (λ _. h) (Returns-pure (IsFresh seen) [] tt)

parameters-Returns :
    (fuel : ℕ) (seen : List Bytes) → Returns (IsFresh seen) (parse_parameters fuel seen)
unfolding parse_parameters IsFree
parameters-Returns zero seen = Returns-exhausted (IsFresh seen)
parameters-Returns (suc fuel) seen =
    Returns-bind (λ _. Unit) (IsFresh seen) (consume identifier _) _ (Returns-any _)
      λ t _.
        Returns-bind IsFree (IsFresh seen) (unreserved _ t) _ (unreserved-IsFree _ t) λ name free.
          Returns-bind (λ _. contains_name seen name ≡ false) (IsFresh seen) (unseen seen name t) _
            (unseen-Returns seen name t)
            λ _ new.
              Returns-bind (IsFresh (name ∷ seen)) (IsFresh seen) _ _
                (later-IsFresh fuel (name ∷ seen) (parameters-Returns fuel (name ∷ seen)))
                λ names fresh. Returns-pure (IsFresh seen) (name ∷ names) (free, new, fresh)

-- The parameters that the parser reads for a function are not reserved names, and no two of them
-- are the same, whatever the tokens are.
pub parse_parameters-IsFresh :
    (fuel : ℕ) (s rest : Stream) (names : List Bytes)
    → parse_parameters fuel [] s ≡ ok (names, rest)
    → IsFresh [] names
parse_parameters-IsFresh fuel s rest names e = rw e at ((parameters-Returns fuel []).on s)

-- The names that a loop binds: the value, and the key in front of it, if there is one.
abbrev pub IsBinding : Option Bytes × Bytes → Type 0
IsBinding (none, value) = is_reserved_name value ≡ false
IsBinding (some key, value) =
    (is_reserved_name key ≡ false) × (is_reserved_name value ≡ false) × (equal key value ≡ false)

distinct-IsBinding :
    (key value : Bytes) (t : TemplateToken)
    → is_reserved_name key ≡ false
    → is_reserved_name value ≡ false
    → Returns IsBinding (distinct_names key value t)
distinct-IsBinding key value t hk hv = elim (Bool-cases (equal key value)) [
  | inl same ↦ rw same (Returns-fail_at IsBinding t _)
  | inr differs ↦ rw differs (Returns-pure IsBinding (some key, value) (hk, hv, differs))
]

bindings-Returns : Returns IsBinding parse_loop_bindings
unfolding parse_loop_bindings IsFree
bindings-Returns =
    Returns-bind (λ _. Unit) IsBinding (consume identifier _) _ (Returns-any _)
      λ t _. Returns-bind IsFree IsBinding (unreserved _ t) _ (unreserved-IsFree _ t) λ name free.
        Returns-on_match IsBinding comma _ _
          (λ _.
            Returns-bind (λ _. Unit) IsBinding (consume identifier _) _ (Returns-any _)
              λ u _.
                Returns-bind IsFree IsBinding (unreserved _ u) _ (unreserved-IsFree _ u)
                  λ value hv. distinct-IsBinding name value u free hv)
          (Returns-pure IsBinding (none, name) free)

-- The names that a loop binds are not reserved, and its key and its value have different names,
-- whatever the tokens are.
pub parse_loop_bindings-IsBinding :
    (s rest : Stream) (names : Option Bytes × Bytes)
    → parse_loop_bindings s ≡ ok (names, rest)
    → IsBinding names
parse_loop_bindings-IsBinding s rest names e = rw e at (bindings-Returns.on s)
