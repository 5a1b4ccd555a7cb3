-- ===== src/Ingress/RuntimeConfig.antt =====
-- event_ingress/runtime_config.py. An environment is the list of its variables.
use factory_ops.Common.{
  ◌≡◌, ◌↔◌, ◌≤◌, arith, refl, String, Option, none, some, List, [], ◌∷◌, Bool, true, ◌&&◌,
  if◌then◌else◌, ◌=s◌, leb, is_version, is_code_revision, text_length,
}
use mathlib.Core.Path.{subst}
use factory_ops.Run.Model.{RunProvenance}

-- AgentRuntimeConfigurationError, with the name of the variable.
pub data ConfigurationError : Type 0 where
  missing_variable invalid_variable : String → ConfigurationError

pub data Loaded (A : Type 0) : Type 0 where
  loaded : A → Loaded A
  refused : ConfigurationError → Loaded A

pub record AgentRuntimeConfig : Type 0 where
  pub runtime_version : String
  pub workflow_version : String
  pub prompt_set_version : String
  pub model_policy_version : String
  pub tool_policy_version : String
  pub context_policy_version : String
  pub code_revision : String

-- `environment.get`
unfoldable pub get : String → List (String × String) → Option String
get name [] = none
get name ((key, value) ∷ rest) =
    let found = get name rest in if key =s name then some value else found

abbrev short_version : String → Bool
short_version value = is_version value && leb (text_length value) 128

-- `_required_value`, with the pattern and the length as one test.
unfoldable pub required_value : List (String × String) → String → (String → Bool) → Loaded String
required_value environment name test = check (get name environment)
  where
    check : Option String → Loaded String
    check none = refused (missing_variable name)
    check (some value) = if test value then loaded value else refused (invalid_variable name)

loaded_injective : (a b : AgentRuntimeConfig) → loaded a ≡ loaded b → a ≡ b
loaded_injective a b h = cc

infixl 5 ◌>>=◌
abbrev ◌>>=◌ : {A B : Type 0} → Loaded A → (A → Loaded B) → Loaded B
loaded a >>= f = f a
refused e >>= f = refused e

unfoldable pub from_environment : List (String × String) → Loaded AgentRuntimeConfig
from_environment environment = do
  runtime ← required_value environment "FACTORYOPS_AGENT_RUNTIME_VERSION" short_version
  workflow ← required_value environment "FACTORYOPS_AGENT_WORKFLOW_VERSION" short_version
  prompt_set ← required_value environment "FACTORYOPS_AGENT_PROMPT_SET_VERSION" short_version
  model_policy ← required_value environment "FACTORYOPS_AGENT_MODEL_POLICY_VERSION" short_version
  tool_policy ← required_value environment "FACTORYOPS_AGENT_TOOL_POLICY_VERSION" short_version
  context_policy ←
      required_value environment "FACTORYOPS_AGENT_CONTEXT_POLICY_VERSION" short_version
  revision ← required_value environment "FACTORYOPS_AGENT_CODE_REVISION" is_code_revision
  loaded (record {
    runtime_version = runtime;
    workflow_version = workflow;
    prompt_set_version = prompt_set;
    model_policy_version = model_policy;
    tool_policy_version = tool_policy;
    context_policy_version = context_policy;
    code_revision = revision;
  })

unfoldable pub to_provenance : AgentRuntimeConfig → String → RunProvenance
to_provenance config incident_id = record {
  incident_id = incident_id;
  runtime_version = config.runtime_version;
  workflow_version = config.workflow_version;
  prompt_set_version = config.prompt_set_version;
  model_policy_version = config.model_policy_version;
  tool_policy_version = config.tool_policy_version;
  context_policy_version = config.context_policy_version;
  code_revision = config.code_revision;
}

-- The variable is set to this version.
abbrev pub SetsVersion : List (String × String) → String → String → Type 0
SetsVersion environment name value =
    (get name environment ≡ some value) × (is_version value ≡ true) × (text_length value ≤ 128)

-- Each variable of the environment is set to the field of the configuration, in its format.
abbrev pub IsConfigured : List (String × String) → AgentRuntimeConfig → Type 0
IsConfigured environment c =
    SetsVersion environment "FACTORYOPS_AGENT_RUNTIME_VERSION" c.runtime_version
    × SetsVersion environment "FACTORYOPS_AGENT_WORKFLOW_VERSION" c.workflow_version
    × SetsVersion environment "FACTORYOPS_AGENT_PROMPT_SET_VERSION" c.prompt_set_version
    × SetsVersion environment "FACTORYOPS_AGENT_MODEL_POLICY_VERSION" c.model_policy_version
    × SetsVersion environment "FACTORYOPS_AGENT_TOOL_POLICY_VERSION" c.tool_policy_version
    × SetsVersion environment "FACTORYOPS_AGENT_CONTEXT_POLICY_VERSION" c.context_policy_version
    × (get "FACTORYOPS_AGENT_CODE_REVISION" environment ≡ some c.code_revision)
    × (is_code_revision c.code_revision ≡ true)

module _ (environment : List (String × String)) where
  required_version-ok :
      (name value : String)
      → required_value environment name short_version ≡ loaded value
      → SetsVersion environment name value
  unfolding required_value
  required_version-ok name value h = ground arith

  required_version-loads :
      (name value : String)
      → SetsVersion environment name value
      → required_value environment name short_version ≡ loaded value
  unfolding required_value
  required_version-loads name value h = ground arith

  required_revision-ok :
      (name value : String)
      → required_value environment name is_code_revision ≡ loaded value
      → (get name environment ≡ some value) × (is_code_revision value ≡ true)
  unfolding required_value
  required_revision-ok name value h = ground arith

  required_revision-loads :
      (name value : String)
      → get name environment ≡ some value
      → is_code_revision value ≡ true
      → required_value environment name is_code_revision ≡ loaded value
  unfolding required_value
  required_revision-loads name value h k = ground arith

  -- What a loaded configuration satisfies.
  abbrev Yields : Loaded AgentRuntimeConfig → Type 0
  Yields r = (c : AgentRuntimeConfig) → r ≡ loaded c → IsConfigured environment c

  Yields-bind :
      (m : Loaded String) (f : String → Loaded AgentRuntimeConfig)
      → ((value : String) → m ≡ loaded value → Yields (f value))
      → Yields (m >>= f)
  Yields-bind (loaded value) f k = k value refl
  Yields-bind (refused e) f k = λ c h. cc

  abbrev version_of : String → Loaded String
  version_of name = required_value environment name short_version

  abbrev revision_of : String → Loaded String
  revision_of name = required_value environment name is_code_revision

  from_environment-Yields : Yields (from_environment environment)
  unfolding from_environment
  from_environment-Yields =
      Yields-bind (version_of "FACTORYOPS_AGENT_RUNTIME_VERSION") _ λ runtime h1.
        Yields-bind (version_of "FACTORYOPS_AGENT_WORKFLOW_VERSION") _ λ workflow h2.
          Yields-bind (version_of "FACTORYOPS_AGENT_PROMPT_SET_VERSION") _ λ prompt h3.
            Yields-bind (version_of "FACTORYOPS_AGENT_MODEL_POLICY_VERSION") _ λ model h4.
              Yields-bind (version_of "FACTORYOPS_AGENT_TOOL_POLICY_VERSION") _ λ tool h5.
                Yields-bind (version_of "FACTORYOPS_AGENT_CONTEXT_POLICY_VERSION") _ λ context h6.
                  Yields-bind (revision_of "FACTORYOPS_AGENT_CODE_REVISION") _ λ revision h7 c e.
                    let (r1, r2) = required_revision-ok _ revision h7 in
                    subst (IsConfigured environment) (loaded_injective _ c e) (
                      required_version-ok _ runtime h1,
                      required_version-ok _ workflow h2,
                      required_version-ok _ prompt h3,
                      required_version-ok _ model h4,
                      required_version-ok _ tool h5,
                      required_version-ok _ context h6,
                      r1,
                      r2,
                    )

  from_environment-loads :
      (c : AgentRuntimeConfig)
      → IsConfigured environment c
      → from_environment environment ≡ loaded c
  unfolding from_environment
  from_environment-loads c (h1, h2, h3, h4, h5, h6, h7, h8) =
      rw
        (
          required_version-loads _ c.runtime_version h1,
          required_version-loads _ c.workflow_version h2,
          required_version-loads _ c.prompt_set_version h3,
          required_version-loads _ c.model_policy_version h4,
          required_version-loads _ c.tool_policy_version h5,
          required_version-loads _ c.context_policy_version h6,
          required_revision-loads _ c.code_revision h7 h8,
        )
        refl

-- A configuration loads exactly when each of its versions is what its own variable is set to, in the
-- format of a version and of at most 128 characters, and its code revision is what its variable is
-- set to, in the format of a revision.
pub from_environment_iff :
    (environment : List (String × String)) (c : AgentRuntimeConfig)
    → (from_environment environment ≡ loaded c) ↔ IsConfigured environment c
from_environment_iff environment c =
    (from_environment-Yields environment c, from_environment-loads environment c)
