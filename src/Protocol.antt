-- ===== src/Protocol.antt =====
-- The messages of crates/protocol/proto/inference.proto: the fields that the code reads or sets.
use dynamo_router.Base.{ℕ, Bool, Option, List}
use dynamo_router.Float.Integer.{ℤ}
use dynamo_router.Text.{Text}

-- The `oneof` of a parameter, or none of it.
pub data InferParameter : Type 0 where
  int64_param : ℤ → InferParameter
  bool_param : Bool → InferParameter
  string_param : Text → InferParameter
  unset : InferParameter

-- `map<string, InferParameter>`
abbrev pub Parameters : Type 0
Parameters = List (Text × InferParameter)

pub record InferTensorContents : Type 0 where
  pub bytes_contents : List Text

pub record InferTensor : Type 0 where
  pub name : Text
  pub datatype : Text
  pub shape : List ℕ
  pub contents : Option InferTensorContents

pub record ModelInferRequest : Type 0 where
  pub model_name : Text
  pub model_version : Text
  pub id : Text
  pub inputs : List InferTensor

pub record ModelInferResponse : Type 0 where
  pub model_name : Text
  pub model_version : Text
  pub id : Text
  pub parameters : Parameters
  pub outputs : List InferTensor

pub record ModelStreamInferResponse : Type 0 where
  pub error_message : Text
  pub infer_response : Option ModelInferResponse

pub record ModelMetadataRequest : Type 0 where
  pub name : Text
  pub version : Text

pub record ModelMetadataResponse : Type 0 where
  pub name : Text
  pub versions : List Text
  pub platform : Text
