-- ===== src/Command/Rounds.antt =====
-- A round of the argument loop of cli/CommandParser.cpp, and the invariant of the loop.
use prebyte.Base.{
  Bool, true, false, not, Option, none, some, List, [], ◌∷◌, ◌≡◌, refl, sym, ◌∙◌, inl, inr,
  Bool-cases, Bytes, if◌then◌else◌,
}
use mathlib.Core.Bool.{false≢true}
use prebyte.Result.{Result, ok, Ensures, Ensures-if}
use prebyte.Command.{
  Command, CommandMode, no_command, fail, is_render, Progress, next_argument, skip_value,
  collect_rest, with_value, batch_file, batch_stdin, batch, take_input, positional, terminator,
  inline_define, parse_argument,
}

-- The batch comes from a file or from stdin, never from both; only a render has an input and
-- arguments; nothing is read as an inline input.
pub record IsConsistent (c : Command) : Type 0 where
  pub one_batch : c.batch_from_stdin ≡ true → c.batch_path ≡ none
  pub no_render : is_render c.mode ≡ false → (c.input_path ≡ none) × (c.render_args ≡ [])
  pub no_inline : c.inline_input ≡ none

-- The same of a round.
abbrev pub IsSound : Progress → Type 0
IsSound (next_argument c) = IsConsistent c
IsSound (skip_value c) = IsConsistent c
IsSound (collect_rest c) = IsConsistent c × (is_render c.mode ≡ true)

either_way :
    (b : Bool) (m n : Result Progress)
    → Ensures IsSound m
    → Ensures IsSound n
    → Ensures IsSound (if b then m else n)
either_way b m n h k = Ensures-if IsSound b m n (λ _. h) (λ _. k)

with_value-IsSound :
    (rest : List Bytes) (message : Bytes) (set : Bytes → Command)
    → ((value : Bytes) → IsConsistent (set value))
    → Ensures IsSound (with_value rest message set)
with_value-IsSound [] message set h = tt
with_value-IsSound (value ∷ rest) message set h = h value

pub no_command-IsConsistent : (mode : CommandMode) → IsConsistent (no_command mode)
no_command-IsConsistent mode = record {
  one_batch = λ _. refl;
  no_render = λ _. (refl, refl);
  no_inline = refl;
}

module _ (c : Command) (h : IsConsistent c) where
  batch_stdin-IsSound :
      (path : Option Bytes) → c.batch_path ≡ path → Ensures IsSound (batch_stdin path c)
  batch_stdin-IsSound (some path) e = tt
  batch_stdin-IsSound none e = record {
    one_batch = λ _. e;
    no_render = h.no_render;
    no_inline = h.no_inline;
  }

  batch_file-IsSound : (value : Bytes) → Ensures IsSound (batch_file value c)
  batch_file-IsSound value =
      Ensures-if IsSound c.batch_from_stdin _ _ (λ _. tt)
        λ off. record {
          one_batch = λ on. absurd (false≢true (sym off ∙ on));
          no_render = h.no_render;
          no_inline = h.no_inline;
        }

  batch-IsSound : (rest : List Bytes) → Ensures IsSound (batch rest c)
  unfolding batch
  batch-IsSound [] = batch_stdin-IsSound c.batch_path refl
  batch-IsSound (value ∷ rest) =
      either_way _ _ _ (batch_stdin-IsSound c.batch_path refl) (batch_file-IsSound value)

  take_input-IsConsistent :
      (path : Option Bytes) (arg : Bytes)
      → is_render c.mode ≡ true
      → IsConsistent (take_input path arg c)
  take_input-IsConsistent none arg e = record {
    one_batch = h.one_batch;
    no_render = λ other. absurd (false≢true (sym other ∙ e));
    no_inline = h.no_inline;
  }
  take_input-IsConsistent (some path) arg e = record {
    one_batch = h.one_batch;
    no_render = λ other. absurd (false≢true (sym other ∙ e));
    no_inline = h.no_inline;
  }

  render_only :
      (p : Progress) (m : Result Progress)
      → Ensures IsSound m
      → (is_render c.mode ≡ true → IsSound p)
      → Ensures IsSound (if not (is_render c.mode) then m else ok p)
  render_only p m k f = elim (Bool-cases (is_render c.mode)) [
    | inl here ↦ rw here (f here)
    | inr other ↦ rw other k
  ]

  -- A field that the invariant does not read has changed.
  still :
      (c' : Command)
      → c'.mode ≡ c.mode
      → c'.input_path ≡ c.input_path
      → c'.inline_input ≡ c.inline_input
      → c'.render_args ≡ c.render_args
      → c'.batch_path ≡ c.batch_path
      → c'.batch_from_stdin ≡ c.batch_from_stdin
      → IsConsistent c'
  still c' m i l r b s = record {
    one_batch = rw (b, s) h.one_batch;
    no_render = rw (m, i, r) h.no_render;
    no_inline = l ∙ h.no_inline;
  }

  same : (c' : Command) → IsConsistent c' → Ensures IsSound (ok (next_argument c'))
  same c' k = k

  fail-IsSound : (message : Bytes) → Ensures IsSound (fail message)
  fail-IsSound message = tt

  inline_define-IsSound : (arg : Bytes) → Ensures IsSound (inline_define arg c)
  inline_define-IsSound arg = search (either_way, same, still, fail-IsSound) depth 12

  positional-IsSound : (arg : Bytes) → Ensures IsSound (positional arg c)
  unfolding positional
  positional-IsSound arg = render_only _ _ tt (take_input-IsConsistent c.input_path arg)

  terminator-IsSound : Ensures IsSound (terminator c)
  unfolding terminator
  terminator-IsSound = render_only _ _ tt (λ e. (h, e))

  pub parse_argument-IsSound :
      (arg : Bytes) (rest : List Bytes) → Ensures IsSound (parse_argument c arg rest)
  unfolding parse_argument
  parse_argument-IsSound arg rest =
      search
        (
          either_way, with_value-IsSound, still, same, inline_define-IsSound, positional-IsSound,
          terminator-IsSound, batch-IsSound, fail-IsSound,
        )
        depth 24
