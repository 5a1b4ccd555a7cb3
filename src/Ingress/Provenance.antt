-- ===== src/Ingress/Provenance.antt =====
-- What event_ingress/runtime_config.py loads fits what contracts/agent_run/v1.0.0/schema.json asks of
-- the provenance of a Run.
use factory_ops.Common.{
  ◌≡◌, ◌≤◌, arith, String, List, Bool, true, ◌&&◌, leb, is_version, is_code_revision, text_length,
}
use Prim.Native.String.count
use factory_ops.Run.Contract.{provenance_schema}
use factory_ops.Ingress.RuntimeConfig.{
  AgentRuntimeConfig, loaded, from_environment, to_provenance, from_environment_iff,
}

-- A version has a character.
version-pos : (s : String) → is_version s ≡ true → 1 ≤ text_length s
unfolding is_version
version-pos String.[] h = cc
version-pos (String.◌∷◌ c s) h = omega (arith, count.cons c s)

-- A configuration that loads, with the identifier of an incident, gives a provenance that satisfies
-- the schema of the Run Contract, when the `pattern` keyword accepts each text that the regular
-- expressions of the configuration accept, and the identifier.
pub from_environment-provenance :
    (matches : String → String → Bool) (environment : List (String × String))
    (config : AgentRuntimeConfig) (incident_id : String)
    → ((s : String) → is_version s ≡ true → matches "^[A-Za-z0-9][A-Za-z0-9._:-]*$" s ≡ true)
    → ((s : String) → is_code_revision s ≡ true → matches "^[0-9a-f]{7,64}$" s ≡ true)
    → matches "^QI-[0-9A-F]{64}$" incident_id ≡ true
    → from_environment environment ≡ loaded config
    → provenance_schema matches (to_provenance config incident_id) ≡ true
unfolding provenance_schema to_provenance
from_environment-provenance matches environment config incident_id version revision incident e =
    let (h1, h2, h3, h4, h5, h6, h7, h8) = (from_environment_iff environment config).0 e in
    ground (
      arith,
      fits config.runtime_version h1.1 h1.2,
      fits config.workflow_version h2.1 h2.2,
      fits config.prompt_set_version h3.1 h3.2,
      fits config.model_policy_version h4.1 h4.2,
      fits config.tool_policy_version h5.1 h5.2,
      fits config.context_policy_version h6.1 h6.2,
      revision config.code_revision h8,
      incident,
    )
  where
    fits :
        (s : String)
        → is_version s ≡ true
        → text_length s ≤ 128
        → (leb 1 (text_length s)
            && leb (text_length s) 128
            && matches "^[A-Za-z0-9][A-Za-z0-9._:-]*$" s)
          ≡ true
    fits s h k = ground (arith, version-pos s h, version s h)
