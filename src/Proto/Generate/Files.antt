-- ===== src/Proto/Generate/Files.antt =====
-- Which .proto files a run of the generator writes, with their contents, and how it ends.
use windrpc.Base.{◌≡◌, refl, ap, List, [], ◌∷◌, ◌++◌, append-nil, map, map-append}
use windrpc.Base.Text.{Str, codes}
use windrpc.Base.Result.{Result, ok, raise, Error, ◌>>=◌}
use windrpc.Spec.{Service, Spec}
use windrpc.Spec.Required.{required}
use windrpc.Proto.RpcIds.{generate_windrpc_proto}
use windrpc.Proto.Options.{Config, OptionLine, generate_options_files}
use windrpc.Proto.Files.{generate_types_proto, generate_service_proto}
use windrpc.Proto.Generate.{
  FilePath, Content, types_content, service_content, windrpc_content, Event, make_dirs, open_file,
  write_file, write_options, Outcome, finished, exited, raised, Run, run_events, after_events,
  and_run, run_all, write_call, options_run, types_result, service_result, windrpc_result,
  service_run, services_run, types_run, core_run, files_run, shown_package, resolved_spec,
  output_path_of, generate_checked,
}
use windrpc.Proto.Generate.Opened.{opened, opened-append}

abbrev pub Files : Type 0
Files = List (FilePath × Content)

-- one call behind the other
unfoldable pub both : Result Files → Result Files → Result Files
both first more = first >>= λ x. more >>= λ y. ok (x ++ y)

module _ (output_path : FilePath) (spec_data : Spec) (package_name : Str) where
  unfoldable pub service_file : Service → Result Str → Result Files
  service_file s name = name >>= λ n. generate_service_proto s spec_data package_name >>= λ f.
      ok (
        (output_path ++ codes "service" ∷ (n ++ codes ".proto") ∷ [], service_content f.0 f.1) ∷ [])

  unfoldable pub service_files : List Service → Result Files
  unfolding both service_file
  service_files [] = ok []
  service_files (s ∷ services) = both (service_file s (required s.name)) (service_files services)

  -- the .proto files of a specification, or the first exception on the way to them
  unfoldable pub proto_files : Result Files
  unfolding both service_files
  proto_files =
      both
        (generate_types_proto spec_data package_name >>= λ f.
          ok ((output_path ++ codes "types" ∷ codes "types.proto" ∷ [], types_content f) ∷ []))
        (both (service_files spec_data.services) (
          generate_windrpc_proto spec_data >>= λ entries. ok (
            (output_path ++ codes "core" ∷ codes "windrpc.proto" ∷ [], windrpc_content entries)
            ∷ [])))

-- the files that are written, with what they hold
unfoldable pub filled : List Event → Files
filled [] = []
filled (make_dirs path ∷ es) = filled es
filled (open_file path ∷ es) = filled es
filled (write_file path content ∷ es) = (path, content) ∷ filled es
filled (write_options lines ∷ es) = filled es

filled-append : (es fs : List Event) → filled (es ++ fs) ≡ filled es ++ filled fs
unfolding filled
filled-append [] fs = refl
filled-append (make_dirs path ∷ es) fs = filled-append es fs
filled-append (open_file path ∷ es) fs = filled-append es fs
filled-append (write_file path content ∷ es) fs =
    ap (λ l. (path, content) ∷ l) (filled-append es fs)
filled-append (write_options lines ∷ es) fs = filled-append es fs

abbrev pub paths : Files → List FilePath
paths = map (λ (f : FilePath × Content). f.0)

-- the run finishes and has opened and written the files, or it raises the exception
pub data Writes (r : Run) : Result Files → Type 0 where
  writes_all :
      (files : Files)
      → r.outcome ≡ finished
      → filled r.events ≡ files
      → opened r.events ≡ paths files
      → Writes r (ok files)
  raises : (e : Error) → r.outcome ≡ raised e → Writes r (raise e)

after_events-Writes :
    (es : List Event) (o : Outcome) (b : Run) (more : Result Files) (files : Files)
    → o ≡ finished
    → filled es ≡ files
    → opened es ≡ paths files
    → Writes b more
    → Writes (after_events es o b) (more >>= λ y. ok (files ++ y))
unfolding after_events
after_events-Writes es finished b _ files o f p (writes_all ys ends g q) =
    writes_all (files ++ ys) ends (rw (filled-append es b.events, f, g) refl) (
      rw (opened-append es b.events, p, q, map-append (λ (x : FilePath × Content). x.0) files ys)
        refl)
after_events-Writes es finished b _ files o f p (raises e ends) = raises e ends
after_events-Writes es exited b more files o f p h = absurd (cc o)
after_events-Writes es (raised x) b more files o f p h = absurd (cc o)

after_events-raises :
    (es : List Event) (o : Outcome) (b : Run) (e : Error)
    → o ≡ raised e
    → (after_events es o b).outcome ≡ raised e
unfolding after_events
after_events-raises es finished b e o = absurd (cc o)
after_events-raises es exited b e o = absurd (cc o)
after_events-raises es (raised x) b e o = o

and_run-Writes :
    (a b : Run) (first more : Result Files)
    → Writes a first
    → Writes b more
    → Writes (and_run a b) (both first more)
unfolding and_run both
and_run-Writes a b _ more (writes_all files o f p) h =
    after_events-Writes a.events a.outcome b more files o f p h
and_run-Writes a b _ more (raises e o) h = raises e (after_events-raises a.events a.outcome b e o)

write_call-Writes :
    {A : Type 0} (path : FilePath) (k : A → Content) (r : Result A)
    → Writes (write_call path (r >>= λ a. ok (k a))) (r >>= λ a. ok ((path, k a) ∷ []))
unfolding write_call filled opened
write_call-Writes path k (ok a) = writes_all ((path, k a) ∷ []) refl refl refl
write_call-Writes path k (raise e) = raises e refl

-- a run that makes directories and goes on
dirs-Writes :
    (es : List Event) (b : Run) (more : Result Files)
    → filled es ≡ []
    → opened es ≡ []
    → Writes b more
    → Writes (and_run (run_events es) b) more
unfolding and_run run_events after_events
dirs-Writes es b _ f p (writes_all files o g q) =
    writes_all files o (rw (filled-append es b.events, f) g) (rw (opened-append es b.events, p) q)
dirs-Writes es b _ f p (raises e o) = raises e o

-- nothing follows
last-Writes :
    (a : Run) (only : Result Files) → Writes a only → Writes (and_run a (run_events [])) only
unfolding and_run run_events after_events
last-Writes a _ (writes_all files o f p) = done a.events a.outcome o f p
  where
    done :
        (es : List Event) (out : Outcome)
        → out ≡ finished
        → filled es ≡ files
        → opened es ≡ paths files
        → Writes (after_events es out (run_events [])) (ok files)
    done es finished o f p = writes_all files refl (rw (append-nil es) f) (rw (append-nil es) p)
    done es exited o f p = absurd (cc o)
    done es (raised x) o f p = absurd (cc o)
last-Writes a _ (raises e o) = raises e (after_events-raises a.events a.outcome (run_events []) e o)

module _ (output_path : FilePath) (spec_data : Spec) (package_name : Str) where
  service_run-Writes :
      (s : Service) (name : Result Str)
      → Writes
          (service_run output_path spec_data package_name s name)
          (service_file output_path spec_data package_name s name)
  unfolding service_run service_file service_result
  service_run-Writes s (raise e) = raises e refl
  service_run-Writes s (ok n) =
      write_call-Writes (output_path ++ codes "service" ∷ (n ++ codes ".proto") ∷ [])
        (λ f. service_content f.0 f.1) (generate_service_proto s spec_data package_name)

  services_run-Writes :
      (services : List Service)
      → Writes
          (services_run output_path spec_data package_name services)
          (service_files output_path spec_data package_name services)
  unfolding services_run service_files run_events filled opened
  services_run-Writes [] = writes_all [] refl refl refl
  services_run-Writes (s ∷ services) =
      and_run-Writes (service_run output_path spec_data package_name s (required s.name))
        (services_run output_path spec_data package_name services)
        (service_file output_path spec_data package_name s (required s.name))
        (service_files output_path spec_data package_name services)
        (service_run-Writes s (required s.name)) (services_run-Writes services)

  types_run-Writes : Writes (types_run output_path spec_data package_name) (
      generate_types_proto spec_data package_name >>= λ f.
      ok ((output_path ++ codes "types" ∷ codes "types.proto" ∷ [], types_content f) ∷ []))
  unfolding types_run types_result
  types_run-Writes = write_call-Writes _ types_content (generate_types_proto spec_data package_name)

  core_run-Writes : Writes (core_run output_path spec_data package_name) (
      generate_windrpc_proto spec_data >>= λ entries.
      ok ((output_path ++ codes "core" ∷ codes "windrpc.proto" ∷ [], windrpc_content entries) ∷ []))
  unfolding core_run windrpc_result
  core_run-Writes = write_call-Writes _ windrpc_content (generate_windrpc_proto spec_data)

  files_run-Writes :
      Writes
        (files_run output_path spec_data package_name)
        (proto_files output_path spec_data package_name)
  unfolding files_run run_all filled opened proto_files
  files_run-Writes =
      dirs-Writes (make_dirs output_path ∷ make_dirs (output_path ++ codes "types" ∷ []) ∷ []) _ _
        refl refl
        (and_run-Writes (types_run output_path spec_data package_name) _ _ _ types_run-Writes (
          dirs-Writes (make_dirs (output_path ++ codes "service" ∷ []) ∷ []) _ _ refl refl (
            and_run-Writes (services_run output_path spec_data package_name spec_data.services) _ _
              _ (services_run-Writes spec_data.services)
              (dirs-Writes (make_dirs (output_path ++ codes "core" ∷ []) ∷ []) _ _ refl refl
                (last-Writes (core_run output_path spec_data package_name) _ core_run-Writes)))))

-- the options files come last
options_run-Writes :
    (a : Run) (wanted : Result Files) (options : Result (List (Str × List OptionLine)))
    → Writes a wanted
    → Writes (and_run a (options_run options)) (wanted >>= λ files. options >>= λ lines. ok files)
unfolding and_run options_run after_events filled opened
options_run-Writes a _ options (writes_all files o f p) = done a.events a.outcome options o f p
  where
    done :
        (es : List Event) (out : Outcome) (r : Result (List (Str × List OptionLine)))
        → out ≡ finished
        → filled es ≡ files
        → opened es ≡ paths files
        → Writes (after_events es out (options_run r)) (r >>= λ lines. ok files)
    done es finished (ok lines) o f p =
        writes_all files refl
          (rw (filled-append es (write_options lines ∷ []), append-nil (filled es)) f)
          (rw (opened-append es (write_options lines ∷ []), append-nil (opened es)) p)
    done es finished (raise e) o f p = raises e refl
    done es exited r o f p = absurd (cc o)
    done es (raised x) r o f p = absurd (cc o)
options_run-Writes a _ options (raises e o) =
    raises e (after_events-raises a.events a.outcome (options_run options) e o)

pub generate_checked-Writes :
    (config : Config) (output_dir : Str) (spec_data : Spec)
    → Writes (generate_checked config output_dir spec_data []) (
        proto_files
          (output_path_of output_dir spec_data)
          spec_data
          (shown_package spec_data.package_name)
        >>= λ files.
            generate_options_files config
              (shown_package spec_data.package_name)
              (resolved_spec spec_data (shown_package spec_data.package_name))
            >>= λ lines. ok files)
unfolding generate_checked
generate_checked-Writes config output_dir spec_data =
    let package_name : Str = shown_package spec_data.package_name in
    options_run-Writes (files_run (output_path_of output_dir spec_data) spec_data package_name)
      (proto_files (output_path_of output_dir spec_data) spec_data package_name)
      (generate_options_files config package_name (resolved_spec spec_data package_name))
      (files_run-Writes (output_path_of output_dir spec_data) spec_data package_name)
