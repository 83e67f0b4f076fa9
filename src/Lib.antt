-- ===== src/Lib.antt =====
-- A model of the core of the RStudio Launcher plugin SDK: the framing of messages, the jobs that a
-- plugin knows, and the handlers of the Launcher's requests.
--
-- The Launcher talks to the plugin over a pipe. sdk/src/comms/MessageHandler.cpp cuts the bytes into
-- messages; sdk/src/api/AbstractPluginApi.cpp answers the requests that they hold. It looks jobs up
-- in the repository (sdk/src/jobs/AbstractJobRepository.cpp), calls the plugin's job source, and
-- opens streams (sdk/src/api/stream). What the job source reports of a job goes through the notifier
-- (sdk/src/jobs/JobStatusNotifier.cpp) to the streams, the repository and the pruner
-- (sdk/src/jobs/JobPruner.cpp), which removes jobs some time after they end.
--
-- Comms.MessageHandler: `formatMessage` is `format_message`, and `processBytes` is `process_bytes`,
--   whose rounds are `process_round`. A byte is a number below 256, a `size_t` wraps at 2 ^ 64. The
--   loop runs on fuel, one more than the bytes of the read, since every round but the last takes a
--   byte; a loop that needed more would end as `diverged`, and a write outside the buffer ends as
--   `overrun`. Boost's byte order functions are a parameter, on a little-endian host.
-- Json: sdk/include/json/Json.hpp and sdk/src/json/Json.cpp: JSON values as data; `readObject` is
--   `read`, `read_optional` and the like, and a chain of reads is a do block.
-- Api.User, Api.Job, Api.Parts: sdk/src/system/User.cpp and sdk/src/api/Job.cpp. A date is a number,
--   and a set the list of its elements in order. `fromJson` of a class is `…_from_json`, and `toJson`
--   is `…_to_json`, the list of its assignments, of which some are left out.
-- Api.Platform: what jobs and requests are read with, as parameters: Boost's string algorithms and
--   dates, RapidJSON's conversions and schemas, and the system's users. `IsDocumented` is what their
--   documentation says.
-- Api.Request: sdk/src/api/Request.cpp; `Request::fromJson` is `from_json`, and each constructor a
--   function `new_…` that notes its error in the request.
-- Jobs.Notifier: the signals as lists of numbered connections; `updateJob` is `update_job`.
-- Jobs.Repository, Jobs.Pruner: a `JobPtr` is a number into a heap, which is a function, and a map
--   is the list of its entries. The time at which a function runs is an argument.
-- Api.Messages, Api.Queries, Api.Plugin: the parsed requests, the filters of a request for jobs, the
--   responses, and the handlers as functions on the plugin's state. The job source is a record of
--   functions on a state of its own.
-- Api.Responses: sdk/src/api/Response.cpp and ResponseTypes.cpp: the constructors on the global
--   `NEXT_RESPONSE_ID` are `new_response`, and `toJson` is `response_to_json`. The handlers and the
--   streams log what they send in smaller data types of their own.
-- Api.Stream.Sequences, Api.Stream.JobStatus: sdk/src/api/stream/AbstractMultiStream.cpp,
--   JobStatusStream.cpp and JobStatusStreamManager.cpp. `sendResponse` is `send_response` and
--   `send_response_all`. A stream has the responses that it sent as its own log.
-- Api.Stream.Resource, Api.Stream.ResourceManager, Api.Stream.Output: AbstractResourceStream.cpp,
--   ResourceStreamManager.cpp and OutputStreamManager.cpp of
--   the same directory. The streams that a job source makes are functions of its state.
-- Api.Dispatch: `handleRequest` is `handle_request`, and `onDataReceived` is `receive` for each
--   message. The managers get the notifier and the job source that they share when they are called.
--   An error that is reported also ends the reading and then the plugin; that end is left out, so
--   the theorems speak of the messages that were read.
-- Options: sdk/src/options/AbstractUserProfiles.cpp, with the errors of sdk/src/Error.cpp as data.
--   `getValueForUser` is `get_value_for_user`, on the loop `search_levels`, `parseValue` is a parser
--   for each type, and `initialize` is `initialize_profiles`. Boost's ini reader and regular
--   expressions, and the look-up of a group, are parameters; the loop that doubles the buffer of
--   `getgrnam_r` runs on fuel, and a buffer that suffices gives enough.
-- Local: the plugin under plugins/Local. `runJob` is `run_job`, `populateProcessOptions` is
--   `populate_process_options`, and the callbacks of timers and processes are functions that are
--   called with what the host says then. The host is a record of functions on a world of its own, and
--   so are the files of jobs, from which `loadJobs`, `load_jobs`, takes the jobs of the last run. The
--   watch of a job runs on fuel, of which 101 firings are enough.
-- Examples: the theorems at concrete inputs.
--
-- Locks are left out: a handler runs as one step, as it does under its mutex. Logging, threads, the
-- text of JSON, which RapidJSON parses, and the operating system are not modelled, nor are the
-- options, the smoke test and the plugin under plugins/QuickStart, a template. Of the local plugin,
-- the resource stream and the key that passwords are written with are left out.
pub mod Base
pub mod Json
pub mod Comms
pub mod Api
pub mod Jobs
pub mod Options
pub mod Local
mod Examples
