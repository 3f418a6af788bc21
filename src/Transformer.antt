-- ===== src/Transformer.antt =====
-- The interface between the CWMP code and the configuration store
-- (src/transformer/transformer_api.hpp). The implementations of `TransformerApi` are an argument
-- of the code that calls it. `S` is the state behind the object: a write changes it, and the two
-- read methods are functions of it. The output parameters `invalidPaths` and `error`, which every
-- caller passes in empty, are part of the results.
use cpe_acs_connector_tr.Base.{Bool, List, Bytes}
use cpe_acs_connector_tr.Types.{ParameterValue, ParameterInfo}

pub record SetResult : Type 0 where
  pub success : Bool
  pub error : Bytes
  pub failed_parameter : Bytes

-- The Boolean argument of `get_parameter_values` is `revealSecrets`.
pub record TransformerApi (S : Type 0) : Type 0 where
  pub get_parameter_values : S → List Bytes → Bool → List ParameterValue × List Bytes
  pub set_parameter_values : S → List ParameterValue → Bytes → SetResult × S
  pub get_parameter_names : S → Bytes → List ParameterInfo × Bytes
