-- ===== src/Examples/Requests.antt =====
-- Jobs and requests in JSON, with a platform whose texts have no white space to trim.
use Prim.Native.String.{String}
use rstudio_launcher_plugin.Base.{
  text_less, ℕ, zero, suc, ◌<◌, ℤ, pos, negsuc, ◌≡◌, refl, ap, inr, true, false, none, some, [],
  ◌∷◌, string_key, ◌==◌, if◌then◌else◌, concat,
}
use rstudio_launcher_plugin.Json.{
  Object, empty_object, string_value, integer_value, member, find_member, set_member,
}
use rstudio_launcher_plugin.Json.Members.{assign_all, assign}
use rstudio_launcher_plugin.Json.Read.{
  read, present, as_string, as_int, as_uint64, read_optional, insert_elements, insert_element,
}
use rstudio_launcher_plugin.Api.Platform.{
  Platform, IsDocumented, same_letters, is_plain, in_int, nfs, passthrough,
}
use rstudio_launcher_plugin.Api.Parts.{int_type}
use rstudio_launcher_plugin.Api.Parts.RoundTrip.{
  container_fits, exposed_port_fits, job_config_fits, placement_constraint_fits,
  resource_limit_fits, source_fits,
}
use rstudio_launcher_plugin.Api.Job.{Job, running}
use rstudio_launcher_plugin.Api.Job.FromJson.{job_from_json}
use rstudio_launcher_plugin.Api.Job.Accepted.{job_from_json-runs_one}
use rstudio_launcher_plugin.Api.Job.ToJson.{job_to_json}
use rstudio_launcher_plugin.Api.Job.RoundTrip.Whole.{
  IsWritable, somebody, runs_one, job_from_json-job_to_json,
}
use rstudio_launcher_plugin.Api.Request.{
  success, control_job, Request, submitted_job, operation, enumerator, operations,
}
use rstudio_launcher_plugin.Api.Request.FromJson.{from_json}
use rstudio_launcher_plugin.Api.Request.Classes.{new_control_job_request}
use rstudio_launcher_plugin.Api.Request.Accepted.{Grants, from_json-Grants}
use rstudio_launcher_plugin.Api.Request.Controls.{from_json-operation}
use rstudio_launcher_plugin.Api.Request.Submission.{
  submission, submit_request, from_json-submission,
}
use rstudio_launcher_plugin.Api.Messages.{kill}
use rstudio_launcher_plugin.Examples.Jobs.{alice}

-- A date as so many strokes.
pub strokes : ℕ → String
strokes zero = String.[]
strokes (suc n) = String.◌∷◌ "1" (strokes n)

pub count : String → ℕ
count String.[] = 0
count (String.◌∷◌ c s) = suc (count s)

count-strokes : (n : ℕ) → count (strokes n) ≡ n
unfolding count strokes
count-strokes zero = refl
count-strokes (suc n) = ap suc (count-strokes n)

abbrev uint64 : ℤ → ℕ
uint64 (pos n) = n
uint64 (negsuc n) = 0

abbrev pub platform : Platform
platform = record {
  texts = record {
    trim_copy = λ s. s;
    iequals = same_letters;
    join = λ ss s. concat ss;
    to_string = λ i. "";
    parse_time = λ s. some (count s);
  };
  rapid = record {
    write = λ v. "";
    write_formatted = λ v. "";
    get_int = λ i. i;
    get_uint64 = uint64;
  };
  time_to_string = strokes;
  is_valid = λ t o. true;
  get_user = λ s. if s == "alice" then some alice else none;
}

pub platform-IsDocumented : IsDocumented platform
platform-IsDocumented = record {
  trim_plain = λ s h. refl;
  iequals_ascii = λ s t a b. refl;
  parse_time_to_string = λ n. ap some (count-strokes n);
  get_int_in_range = λ i h. refl;
  get_uint64_in_range = λ n h. refl;
}

abbrev pub job : Job
job = record {
  arguments = "-x" ∷ [];
  cluster = "";
  command = "";
  config = record { name = "cores"; value_type = some int_type; value = "4" } ∷ [];
  container_details = some (record {
    image = "r-base";
    run_as_user_id = some (pos 1001);
    run_as_group_id = none;
    supplemental_group_ids = pos 7 ∷ [];
  });
  environment = ("LANG", "C") ∷ [];
  exe = "/bin/R";
  exit_code = some (negsuc 0);
  exposed_ports = record { published_port = none; protocol = "UDP"; target_port = pos 8787 } ∷ [];
  host = "node";
  id = "job-1";
  last_update_time = some 3;
  mounts =
      record {
        destination = "/data";
        is_read_only = true;
        source = record {
          custom_type = "";
          source_object = member "path" (string_value "/srv") empty_object;
          source_type = nfs;
        };
      }
      ∷ record {
        destination = "/scratch";
        is_read_only = false;
        source = record {
          custom_type = "beegfs";
          source_object = empty_object;
          source_type = passthrough;
        };
      }
      ∷ [];
  name = "job";
  pid = some (pos 42);
  placement_constraints = record { name = "zone"; value = "eu" } ∷ [];
  queues = "fast" ∷ "slow" ∷ [];
  resource_limits =
      record { resource_type = "memory"; value = "10"; max_value = ""; default_value = "" } ∷ [];
  standard_in = "";
  standard_err_file = "/tmp/err";
  standard_out_file = "/tmp/out";
  status = running;
  status_message = "";
  submission_time = 2;
  tags = "batch" ∷ "r" ∷ [];
  user = alice;
  working_directory = "/home/alice";
}

pub job-IsWritable : IsWritable platform job
unfolding container_fits exposed_port_fits job_config_fits placement_constraint_fits
    resource_limit_fits source_fits runs_one insert_elements insert_element text_less in_int
job-IsWritable = record {
  runs = refl;
  named = somebody refl refl refl;
  queues_set = refl;
  tags_set = refl;
  exit_code_fits = refl;
  pid_fits = refl;
  container = refl;
  config = refl;
  ports = refl;
  mounts = refl;
  constraints = refl;
  limits = refl;
}

job_from_json-job_to_json_example : job_from_json platform 0 (job_to_json platform job) ≡ inr job
job_from_json-job_to_json_example =
    job_from_json-job_to_json platform platform-IsDocumented 0 job job-IsWritable

from_json-submission_example :
    from_json platform 0 (submission platform 9 "alice" job)
    ≡ inr (submit_request 9 alice, submitted_job job)
unfolding is_plain
from_json-submission_example =
    from_json-submission platform platform-IsDocumented 9 "alice" alice job refl refl refl refl 0
      job-IsWritable

-- alice kills job a.
abbrev pub kill_request : Object
kill_request =
    assign_all
      (("messageType", some (integer_value (pos 5)))
        ∷ ("requestId", some (integer_value (pos 8)))
        ∷ ("username", some (string_value "alice"))
        ∷ ("jobId", some (string_value "a"))
        ∷ ("operation", some (integer_value (pos 3)))
        ∷ [])
      empty_object

abbrev pub kill_of_alice : Request
kill_of_alice = record {
  id = 8;
  type = control_job;
  error_type = success;
  error_message = "";
  user = alice;
  request_username = "";
  job_id = "a";
  encoded_job_id = "";
}

pub kill_accepted : from_json platform 0 kill_request ≡ inr (kill_of_alice, operation kill)
unfolding from_json read present find_member assign_all assign set_member as_int
    new_control_job_request as_string read_optional as_uint64
kill_accepted = refl

from_json-Grants_example : Grants platform kill_request alice
from_json-Grants_example = from_json-Grants platform 0 kill_request kill_accepted refl

from_json-operation_example :
    (n : ℕ) × (read (as_int platform.rapid) "operation" kill_request ≡ inr (pos n))
    × (n < 5)
    × (enumerator operations (pos n) ≡ some kill)
    × (read as_string "jobId" kill_request ≡ inr "a")
    × ((◌==◌ {A = String} "a" "*") ≡ false)
from_json-operation_example = from_json-operation platform 0 kill_request kill_accepted

job_accepted : job_from_json platform 0 (job_to_json platform job) ≡ inr job
job_accepted = job_from_json-job_to_json platform platform-IsDocumented 0 job job-IsWritable

job_from_json-runs_one_example : runs_one job ≡ true
job_from_json-runs_one_example =
    job_from_json-runs_one platform 0 (job_to_json platform job) job_accepted
