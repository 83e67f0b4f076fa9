-- ===== src/Examples/Dispatch.antt =====
-- A plugin that gets messages: one without JSON, and one in which alice kills her job.
use rstudio_launcher_plugin.Base.{ℕ, ◌≡◌, true, Option, none, some, List, [], ◌∷◌, String}
use rstudio_launcher_plugin.Json.{Object}
use rstudio_launcher_plugin.Api.Dispatch.{Api}
use rstudio_launcher_plugin.Api.Dispatch.Messages.{receive_all, receive_all-IsTidy}
use rstudio_launcher_plugin.Api.Stream.JobStatus.Cleanup.{IsTidy}
use rstudio_launcher_plugin.Examples.Handlers.{job_source, plugin}
use rstudio_launcher_plugin.Examples.Requests.{platform, kill_request}
use rstudio_launcher_plugin.Examples.Streams.{
  manager, manager-IsTidy, output_source, outputs, resource_source, resources,
}
use rstudio_launcher_plugin.Examples.Jobs.{notifier}

-- Every text but the empty one is read as the request to kill.
abbrev parse : List ℕ → Option Object
parse [] = none
parse (c ∷ cs) = some kill_request

abbrev api : Api ℕ String ℕ ℕ
api = record {
  has_job_source = true;
  plugin = plugin;
  notifier = notifier;
  job_streams = manager;
  output_streams = outputs;
  resource_streams = resources;
  next_job = 2;
  reported = [];
}

receive_all-IsTidy_example :
    (a : Api ℕ String ℕ ℕ) × (receive_all platform job_source output_source resource_source parse
        ((0, []) ∷ (0, 123 ∷ []) ∷ [])
        api
      ≡ some a)
    × IsTidy a.job_streams
receive_all-IsTidy_example =
    receive_all-IsTidy platform job_source output_source resource_source parse
      ((0, []) ∷ (0, 123 ∷ []) ∷ []) api manager-IsTidy
