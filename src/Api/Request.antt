-- ===== src/Api/Request.antt =====
-- sdk/include/api/Request.hpp, sdk/src/api/Request.cpp: requests, read from JSON by the constructors of
-- their classes. A constructor that fails notes the error in the request and goes on; `from_json` then
-- refuses the request.
pub mod Base
pub mod Classes
pub mod FromJson
pub mod Kept
pub mod Accepted
pub mod Controls
pub mod Submission
use rstudio_launcher_plugin.Base.{
  ℕ, zero, suc, ℤ, pos, negsuc, ◌⊎◌, inl, inr, Bool, true, false, Option, none, some, List, [], ◌∷◌,
  String, concat, string_key, ◌==◌, if◌then◌else◌,
}
use rstudio_launcher_plugin.Json.{Object, object_value}
use rstudio_launcher_plugin.Json.Read.{
  JsonReadError, read, read_optional, read_optional_set, as_string, as_bool, as_int, as_uint64,
  as_object, insert_element,
}
use rstudio_launcher_plugin.Api.User.{User, new_user}
use rstudio_launcher_plugin.Api.Platform.{Platform}
use rstudio_launcher_plugin.Api.Parse.{Result, ◌>>=◌, lift, get_or}
use rstudio_launcher_plugin.Api.Job.{Job}
use rstudio_launcher_plugin.Api.Job.FromJson.{job_from_json}
use rstudio_launcher_plugin.Api.Messages.{
  Operation, suspend, resume, stop, kill, cancel, invalid_operation,
}
use rstudio_launcher_plugin.Api.Stream.Output.{OutputType, stdout, stderr, both}

pub data RequestError : Type 0 where
  success invalid_request_type invalid_request invalid_user invalid_input : RequestError

pub data RequestType : Type 0 where
  heartbeat bootstrap submit_job get_job get_job_status control_job get_job_output
        get_job_resource_util get_job_network get_cluster_info :
      RequestType

-- The members of `Request`, `UserRequest` and `JobIdRequest`.
pub record Request : Type 0 where
  pub id : ℕ
  pub type : RequestType
  pub error_type : RequestError
  pub error_message : String
  pub user : User
  pub request_username : String
  pub job_id : String
  pub encoded_job_id : String

-- The filters of a `JobStateRequest`.
pub record JobFilters : Type 0 where
  pub end_time : Option String
  pub field_set : Option (List String)
  pub start_time : Option String
  pub status_set : Option (List String)
  pub tag_set : Option (List String)

-- The members of the other classes.
pub data Body : Type 0 where
  no_body : Body
  version : ℤ → ℤ → ℤ → Body
  submitted_job : Job → Body
  filters : JobFilters → Body
  operation : Operation → Body
  output_stream : Bool → OutputType → Body
  is_cancel : Bool → Body

-- What `fromJson` refuses a message with: the error of `readObject`, or a code and its details.
pub data RequestParseError : Type 0 where
  unreadable : JsonReadError → RequestParseError
  request_error : RequestError → String → RequestParseError

-- A constructor notes its error, over an earlier one.
unfoldable pub fail : RequestError → Request → Request
fail e r = record r { error_type = e }

-- `static_cast` of a number to an enumeration, if it is that of an enumerator.
abbrev pub enumerator {ℓ} : {A : Type ℓ} → List A → ℤ → Option A
enumerator [] i = none
enumerator (a ∷ rest) (pos zero) = some a
enumerator (a ∷ rest) (pos (suc n)) = enumerator rest (pos n)
enumerator (a ∷ rest) (negsuc n) = none

abbrev pub request_types : List RequestType
request_types =
    heartbeat ∷ bootstrap ∷ submit_job ∷ get_job ∷ get_job_status ∷ control_job ∷ get_job_output
    ∷ get_job_resource_util ∷ get_job_network ∷ get_cluster_info ∷ []

abbrev pub operations : List Operation
operations = suspend ∷ resume ∷ stop ∷ kill ∷ cancel ∷ []

abbrev pub output_types : List OutputType
output_types = stdout ∷ stderr ∷ both ∷ []

-- What the three numbers of a version are read to.
abbrev pub Version : Type 0
Version = ℤ × ℤ × ℤ
