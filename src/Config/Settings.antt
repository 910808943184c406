-- ===== src/Config/Settings.antt =====
-- config/ConfigTypes.h. A path is the text that it is made of; the paths of a search are in order.
use prebyte.Base.{ℕ, Bool, true, false, Option, none, List, [], Bytes, str}
use prebyte.Config.Map.{Map}

pub data RuleMatchKind : Type 0 where
  extension exact : RuleMatchKind

pub record FileRule : Type 0 where
  pub kind : RuleMatchKind
  pub pattern : Bytes
  pub name : Bytes
  pub value : Bytes

pub record ProfileConfig : Type 0 where
  pub variables : Map Bytes
  pub include_paths : List Bytes
  pub ignore_names : List Bytes
  pub rules : Map Bytes
  pub file_rules : List FileRule

pub record SettingsData : Type 0 where
  pub variables : Map Bytes
  pub include_paths : List Bytes
  pub ignore_names : List Bytes
  pub rules : Map Bytes
  pub file_rules : List FileRule
  pub profiles : Map ProfileConfig

pub record EffectiveSettings : Type 0 where
  pub strict_variables : Bool
  pub case_sensitive_variables : Bool
  pub default_variable_value : Option Bytes
  pub variable_prefix : Bytes
  pub variable_suffix : Bytes
  pub max_variable_length : ℕ
  pub has_max_variable_length : Bool
  pub replace_tabs : Bool
  pub tab_size : ℕ
  pub trim : Bool
  pub allow_includes : Bool
  pub include_paths : List Bytes
  pub include_path : Bytes
  pub output_encoding : Bytes
  pub allow_env : Bool
  pub forbidden_env_vars : List Bytes
  pub error_on_false_input : Bool
  pub lua_instruction_limit : ℕ
  pub lua_memory_limit_bytes : ℕ
  pub max_include_depth : ℕ
  pub max_render_time_ms : ℕ
  pub max_output_size_bytes : ℕ
  pub max_loop_iteration : ℕ
  pub debug : Bool

-- `std::numeric_limits<std::size_t>::max()`, of 64 bits
abbrev pub size_max : ℕ
size_max = 18446744073709551615

abbrev pub default_settings : EffectiveSettings
default_settings = record {
  strict_variables = false;
  case_sensitive_variables = true;
  default_variable_value = none;
  variable_prefix = str "{{";
  variable_suffix = str "}}";
  max_variable_length = 0;
  has_max_variable_length = false;
  replace_tabs = false;
  tab_size = 4;
  trim = false;
  allow_includes = true;
  include_paths = [];
  include_path = [];
  output_encoding = str "utf-8";
  allow_env = false;
  forbidden_env_vars = [];
  error_on_false_input = false;
  lua_instruction_limit = 100000;
  lua_memory_limit_bytes = 4194304;
  max_include_depth = size_max;
  max_render_time_ms = size_max;
  max_output_size_bytes = size_max;
  max_loop_iteration = size_max;
  debug = false;
}

pub record ResolvedConfiguration : Type 0 where
  pub variables : Map Bytes
  pub ignore_names : List Bytes
  pub global_rules : Map Bytes
  pub file_rules : List FileRule
  pub base_settings : EffectiveSettings
