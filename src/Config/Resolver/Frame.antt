-- ===== src/Config/Resolver/Frame.antt =====
-- `apply_rule` of config/RuleResolver.cpp and the parts of the settings it leaves alone.
use prebyte.Base.{ℕ, Bool, true, false, Option, ◌≡◌, ◌∙◌, Bytes, str, equal, if◌then◌else◌}
use prebyte.Result.{Result, ok, err, out_of_fuel, ◌>>=◌, Yields}
use prebyte.Config.Settings.{EffectiveSettings}
use prebyte.Config.Rules.{fail, apply_rule}

module _ {X : Type 0} (part : EffectiveSettings → X) (s : EffectiveSettings) where
  -- The part is still what it was.
  unfoldable pub Keeps : EffectiveSettings → Type 0
  Keeps s' = part s' ≡ part s

  pub if-Keeps :
      (b : Bool) (m n : Result EffectiveSettings)
      → Yields Keeps m
      → Yields Keeps n
      → Yields Keeps (if b then m else n)
  if-Keeps true m n h k = h
  if-Keeps false m n h k = k

  pub then-Keeps :
      {A : Type 0} (m : Result A) (set : A → EffectiveSettings)
      → ((a : A) → part (set a) ≡ part s)
      → Yields Keeps (m >>= λ a. ok (set a))
  unfolding Keeps
  then-Keeps (ok a) set h = h a
  then-Keeps (err e) set h = tt
  then-Keeps out_of_fuel set h = tt

  pub ok-Keeps : (s' : EffectiveSettings) → part s' ≡ part s → Yields Keeps (ok s')
  unfolding Keeps
  ok-Keeps s' h = h

  pub Keeps-from :
      (s' : EffectiveSettings) (m : Result EffectiveSettings)
      → part s ≡ part s'
      → Yields Keeps m
      → Yields (λ s''. part s'' ≡ part s') m
  unfolding Keeps
  Keeps-from s' (ok a) e h = h ∙ e
  Keeps-from s' (err x) e h = tt
  Keeps-from s' out_of_fuel e h = tt

  pub fail-Keeps : (message : Bytes) → Yields Keeps (fail message)
  fail-Keeps message = tt

module _ (stoull : Bytes → Option ℕ) (s : EffectiveSettings) (name value : Bytes) where
  pub apply_rule-include_paths :
      Yields (Keeps (λ s. s.include_paths) s) (apply_rule stoull s name value)
  unfolding apply_rule
  apply_rule-include_paths = search (if-Keeps, then-Keeps, ok-Keeps, fail-Keeps) depth 34

  pub apply_rule-debug :
      equal name (str "debug") ≡ false
      → Yields (Keeps (λ s. s.debug) s) (apply_rule stoull s name value)
  unfolding apply_rule
  apply_rule-debug differs =
      rw differs (search (if-Keeps, then-Keeps, ok-Keeps, fail-Keeps) depth 34)
