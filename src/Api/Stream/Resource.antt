-- ===== src/Api/Stream/Resource.antt =====
-- sdk/src/api/stream/AbstractResourceStream.cpp: the stream of a job's resource use. `D` is the type
-- of a measured value.
pub mod Reports
use rstudio_launcher_plugin.Base.{
  ℕ, Bool, true, false, ◌||◌, Option, none, some, List, [], ◌∷◌, if◌then◌else◌,
}
use rstudio_launcher_plugin.Api.Stream.Sequences.{
  MultiStream, on_add_request, send_response, send_response_all,
}

-- `ResourceUtilData`.
pub record UtilData (D : Type 0) : Type 0 where
  pub cpu_percent : Option D
  pub cpu_seconds : Option D
  pub resident_mem : Option D
  pub virtual_mem : Option D

abbrev pub no_data : {D : Type 0} → UtilData D
no_data = record { cpu_percent = none; cpu_seconds = none; resident_mem = none; virtual_mem = none }

abbrev pub is_some : {D : Type 0} → Option D → Bool
is_some none = false
is_some (some d) = true

-- `AbstractResourceStream`; a response has the data and whether it is the last.
pub record ResourceStream (D : Type 0) : Type 0 where
  pub is_complete : Bool
  pub last_data : UtilData D
  pub stream : MultiStream (UtilData D × Bool)

-- The constructor.
unfoldable pub new_resource_stream : {D : Type 0} → ResourceStream D
new_resource_stream = record {
  is_complete = false;
  last_data = no_data;
  stream = record { sequences = []; sent = [] };
}

-- `Impl::hasData`.
unfoldable pub has_data : {D : Type 0} → UtilData D → Bool
has_data d =
    is_some d.cpu_percent
    || is_some d.cpu_seconds
    || is_some d.resident_mem
    || is_some d.virtual_mem

-- `addRequest`.
unfoldable pub add_resource_request : {D : Type 0} → ℕ → ResourceStream D → ResourceStream D
unfolding has_data
add_resource_request id s =
    let added = on_add_request id s.stream in
    if has_data s.last_data || s.is_complete
    then record s { stream = send_response (id ∷ []) (s.last_data, s.is_complete) added }
    else record s { stream = added }

-- `setStreamComplete`.
unfoldable pub set_stream_complete : {D : Type 0} → ResourceStream D → ResourceStream D
set_stream_complete s =
    if s.is_complete
    then s
    else record s { is_complete = true; stream = send_response_all (no_data, true) s.stream }

-- `reportData`.
unfoldable pub report_data : {D : Type 0} → UtilData D → ResourceStream D → ResourceStream D
report_data d s =
    if s.is_complete then s else record s { stream = send_response_all (d, s.is_complete) s.stream }

-- `reportError`, less its log line.
unfoldable pub report_error : {D : Type 0} → ResourceStream D → ResourceStream D
report_error s =
    if s.is_complete
    then s
    else record s { is_complete = true; stream = send_response_all (no_data, true) s.stream }
