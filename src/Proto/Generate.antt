-- ===== src/Proto/Generate.antt =====
-- `generate` of windrpc/proto/generator.py: what it does to the disk. Printing is not modelled.
mod Examples
pub mod Apart
pub mod Covered
pub mod Files
pub mod Opened
pub mod Paths
use windrpc.Base.{Bool, true, false, Option, none, some, List, [], ◌∷◌, ◌++◌, ℕ}
use windrpc.Base.Text.{Str, codes}
use windrpc.Base.Result.{Result, ok, raise, Error, ◌>>=◌}
use windrpc.Spec.{Field, Oneof, Message, Service, Spec, merge_specs}
use windrpc.Spec.Required.{required}
use windrpc.Validator.Fault.{Faults}
use windrpc.Validator.Whole.{validate}
use windrpc.Proto.RpcIds.{generate_windrpc_proto}
use windrpc.Proto.Options.{Config, OptionLine, generate_options_files}
use windrpc.Proto.Files.{
  ProtoField, ProtoOneof, ProtoMessage, ProtoFile, generate_types_proto, generate_service_proto,
}

-- what the two YAML files hold, or the exception that reading them raises
pub data Loaded : Type 0 where
  loaded : (core user : Spec) → Loaded
  missing_file : Loaded
  bad_yaml : Loaded

-- the parts of a path, as `os.path.join` gets them
abbrev pub FilePath : Type 0
FilePath = List Str

-- what a .proto file holds
pub data Content : Type 0 where
  types_content : ProtoFile → Content
  service_content : ProtoFile → List (Str × ℕ) → Content
  windrpc_content : List (Str × ℕ) → Content

-- `open(path, 'w')` leaves an empty file, which `f.write` fills
pub data Event : Type 0 where
  make_dirs : FilePath → Event
  open_file : FilePath → Event
  write_file : FilePath → Content → Event
  write_options : List (Str × List OptionLine) → Event

pub data Outcome : Type 0 where
  finished : Outcome
  exited : Outcome
  raised : Error → Outcome

pub record Run : Type 0 where
  pub events : List Event
  pub outcome : Outcome

unfoldable pub run_events : List Event → Run
run_events es = record { events = es; outcome = finished }

-- what follows runs if what goes before does not raise
unfoldable pub after_events : List Event → Outcome → Run → Run
after_events es finished rest = record { events = es ++ rest.events; outcome = rest.outcome }
after_events es exited rest = record { events = es; outcome = exited }
after_events es (raised e) rest = record { events = es; outcome = raised e }

unfoldable pub and_run : Run → Run → Run
unfolding after_events
and_run first rest = after_events first.events first.outcome rest

unfoldable pub run_all : List Run → Run
unfolding and_run run_events
run_all [] = run_events []
run_all (r ∷ rs) = and_run r (run_all rs)

-- `with open(path, 'w') as f: f.write(call)`
unfoldable pub write_call : FilePath → Result Content → Run
write_call path (ok content) = record {
  events = open_file path ∷ write_file path content ∷ [];
  outcome = finished;
}
write_call path (raise e) = record { events = open_file path ∷ []; outcome = raised e }

-- `field['type'] = …`, for the fields that a file was written from
unfoldable pub set_types : List Field → List ProtoField → List Field
set_types (f ∷ fs) (p ∷ ps) = record f { type_name = some p.type_name } ∷ set_types fs ps
set_types fs [] = fs
set_types [] (p ∷ ps) = []

unfoldable pub set_oneof_types : List Oneof → List ProtoOneof → List Oneof
unfolding set_types
set_oneof_types (o ∷ os) (p ∷ ps) =
    record o { fields = set_types o.fields p.fields } ∷ set_oneof_types os ps
set_oneof_types os [] = os
set_oneof_types [] (p ∷ ps) = []

unfoldable pub set_message_types : List Message → List ProtoMessage → List Message
unfolding set_types set_oneof_types
set_message_types (m ∷ ms) (p ∷ ps) =
    record m { fields = set_types m.fields p.fields; oneofs = set_oneof_types m.oneofs p.oneofs }
    ∷ set_message_types ms ps
set_message_types ms [] = ms
set_message_types [] (p ∷ ps) = []

types_written : Spec → Result ProtoFile → Spec
unfolding set_message_types
types_written spec_data (raise e) = spec_data
types_written spec_data (ok file) = record spec_data {
  messages = set_message_types spec_data.messages file.messages;
}

service_written : Service → Result (ProtoFile × List (Str × ℕ)) → Service
unfolding set_message_types
service_written s (raise e) = s
service_written s (ok (file, docs)) = record s {
  messages = set_message_types s.messages file.messages;
}

services_written : Spec → Str → List Service → List Service
unfolding service_written
services_written spec_data package_name [] = []
services_written spec_data package_name (s ∷ services) =
    service_written s (generate_service_proto s spec_data package_name)
    ∷ services_written spec_data package_name services

-- the specification as the calls before that of the options leave it
unfoldable pub resolved_spec : Spec → Str → Spec
unfolding types_written services_written
resolved_spec spec_data package_name =
    let written : Spec = types_written spec_data (generate_types_proto spec_data package_name) in
    record written { services = services_written spec_data package_name spec_data.services }

-- `{package_name}`, which is `None` without a package
unfoldable pub shown_package : Option Str → Str
shown_package none = codes "None"
shown_package (some name) = name

unfoldable pub types_result : Result ProtoFile → Result Content
types_result r = r >>= λ file. ok (types_content file)

unfoldable pub service_result : Result (ProtoFile × List (Str × ℕ)) → Result Content
service_result r = r >>= λ file. ok (service_content file.0 file.1)

unfoldable pub windrpc_result : Result (List (Str × ℕ)) → Result Content
windrpc_result r = r >>= λ entries. ok (windrpc_content entries)

unfoldable pub options_run : Result (List (Str × List OptionLine)) → Run
options_run (ok lines) = record { events = write_options lines ∷ []; outcome = finished }
options_run (raise e) = record { events = []; outcome = raised e }

module _ (output_path : FilePath) (spec_data : Spec) (package_name : Str) where
  abbrev pub types_path : FilePath
  types_path = output_path ++ codes "types" ∷ codes "types.proto" ∷ []

  abbrev pub service_path : Str → FilePath
  service_path name = output_path ++ codes "service" ∷ (name ++ codes ".proto") ∷ []

  abbrev pub core_path : FilePath
  core_path = output_path ++ codes "core" ∷ codes "windrpc.proto" ∷ []

  -- the file of a service, under its name
  unfoldable pub service_run : Service → Result Str → Run
  unfolding service_result write_call
  service_run s (raise e) = record { events = []; outcome = raised e }
  service_run s (ok name) =
      write_call (service_path name)
        (service_result (generate_service_proto s spec_data package_name))

  unfoldable pub services_run : List Service → Run
  unfolding service_run and_run run_events
  services_run [] = run_events []
  services_run (s ∷ services) = and_run (service_run s (required s.name)) (services_run services)

  unfoldable pub types_run : Run
  unfolding write_call types_result
  types_run = write_call types_path (types_result (generate_types_proto spec_data package_name))

  unfoldable pub core_run : Run
  unfolding write_call windrpc_result
  core_run = write_call core_path (windrpc_result (generate_windrpc_proto spec_data))

  -- the calls in their order, without that of the options
  abbrev pub file_runs : List Run
  file_runs =
      run_events (make_dirs output_path ∷ make_dirs (output_path ++ codes "types" ∷ []) ∷ [])
      ∷ types_run
      ∷ run_events (make_dirs (output_path ++ codes "service" ∷ []) ∷ [])
      ∷ services_run spec_data.services
      ∷ run_events (make_dirs (output_path ++ codes "core" ∷ []) ∷ [])
      ∷ core_run
      ∷ []

  unfoldable pub files_run : Run
  unfolding run_all run_events types_run services_run core_run
  files_run = run_all file_runs

-- `{output_dir}/{package_name}/windrpc`
abbrev pub output_path_of : Str → Spec → FilePath
output_path_of output_dir spec_data =
    output_dir ∷ shown_package spec_data.package_name ∷ codes "windrpc" ∷ []

-- behind `validate`, which exits if there are errors
unfoldable pub generate_checked : Config → Str → Spec → Faults → Run
unfolding files_run options_run and_run shown_package resolved_spec
generate_checked config output_dir spec_data (fault ∷ faults) = record {
  events = [];
  outcome = exited;
}
generate_checked config output_dir spec_data [] =
    let package_name : Str = shown_package spec_data.package_name in
    and_run (files_run (output_path_of output_dir spec_data) spec_data package_name) (
      options_run
        (generate_options_files config package_name (resolved_spec spec_data package_name)))

unfoldable pub generate : Bool → Config → Str → Loaded → Run
unfolding generate_checked
generate strict config output_dir missing_file = record { events = []; outcome = exited }
generate strict config output_dir bad_yaml = record { events = []; outcome = exited }
generate strict config output_dir (loaded core user) =
    let spec_data : Spec = merge_specs core user in
    generate_checked config output_dir spec_data (validate strict spec_data).errors
