-- ===== src/Proto/Generate/Paths.antt =====
-- No .proto file is written over another one.
use windrpc.Base.{
  Apart, ◌≡◌, ◌≢◌, refl, sym, ap, false, none, List, [], ◌∷◌, ◌++◌, append-nil, All, Bool, map,
}
use windrpc.Base.Text.{Str, codes, str_eq, str_eq_refl}
use windrpc.Spec.{Service, Spec, merge_specs}
use windrpc.Validator.Fault.{fault_if, no_service}
use windrpc.Validator.Unique.{check_ids, check_names}
use windrpc.Validator.Unique.Distinct.{append-eq-nil}
use windrpc.Validator.Whole.{
  validate, package_faults, name_faults, definition_faults, none_given, service_names,
}
use windrpc.Proto.Options.{Config, generate_options_files}
use windrpc.Proto.Generate.{
  loaded, FilePath, Run, types_path, service_path, core_path, files_run, shown_package,
  resolved_spec, output_path_of, generate_checked, generate,
}
use windrpc.Proto.Generate.Opened.{opened}
use windrpc.Proto.Generate.Files.{Writes, proto_files, generate_checked-Writes}
use windrpc.Base.Result.{ok, ◌>>=◌}
use windrpc.Proto.Generate.Apart.{
  Apart-left, Apart-last, names_of, check_names-Apart, append_cancel,
}
use windrpc.Proto.Generate.Covered.{
  Covers, whole, cut, and_run-Covers, options_run-Covers, files_run-Covers, proto_paths,
  service_paths,
}

folder : FilePath → Str
folder (a ∷ b ∷ c ∷ d ∷ rest) = d
folder path = []

file_name : FilePath → Str
file_name (a ∷ b ∷ c ∷ d ∷ e ∷ rest) = e
file_name path = []

module _ (output_dir : Str) (spec_data : Spec) where
  abbrev package_of : Str
  package_of = shown_package spec_data.package_name

  abbrev to : FilePath
  to = output_path_of output_dir spec_data

  folder-ne : (p q : FilePath) → str_eq (folder p) (folder q) ≡ false → p ≢ q
  folder-ne p q h e = cc (rw (e, str_eq_refl (folder q)) at h)

  service_path-ne :
      (n m : Str)
      → n ≢ m
      → service_path to spec_data package_of n ≢ service_path to spec_data package_of m
  unfolding file_name
  service_path-ne n m ne e = ne (append_cancel n m (codes ".proto") (ap file_name e))

  services-Apart :
      (names : List Str) → Apart names → Apart (map (service_path to spec_data package_of) names)
  services-Apart [] h = tt
  services-Apart (n ∷ names) h = (apart names h.0, services-Apart names h.1)
    where
      apart :
          (ms : List Str)
          → All (λ m. n ≢ m) ms
          → All
              (λ q. service_path to spec_data package_of n ≢ q)
              (map (service_path to spec_data package_of) ms)
      apart [] h = tt
      apart (m ∷ ms) h = (service_path-ne n m h.0, apart ms h.1)

  services-ne-core :
      (names : List Str)
      → All
          (λ p. p ≢ core_path to spec_data package_of)
          (map (service_path to spec_data package_of) names)
  services-ne-core [] = tt
  services-ne-core (n ∷ names) = (
    folder-ne (service_path to spec_data package_of n) (core_path to spec_data package_of)
        (unfold folder str_eq in refl),
    services-ne-core names,
  )

  types-ne-services :
      (names : List Str)
      → All
          (λ p. types_path to spec_data package_of ≢ p)
          (map (service_path to spec_data package_of) names
            ++ core_path to spec_data package_of ∷ [])
  types-ne-services [] = (
    folder-ne (types_path to spec_data package_of) (core_path to spec_data package_of)
        (unfold folder str_eq in refl),
    tt,
  )
  types-ne-services (n ∷ names) = (
    folder-ne (types_path to spec_data package_of) (service_path to spec_data package_of n)
        (unfold folder str_eq in refl),
    types-ne-services names,
  )

  proto_paths-Apart :
      check_names (service_names spec_data) ≡ [] → Apart (proto_paths to spec_data package_of)
  unfolding service_paths
  proto_paths-Apart h =
      let names : List Str = names_of (service_names spec_data) in
      (
        types-ne-services names,
        Apart-last (map (service_path to spec_data package_of) names)
            (core_path to spec_data package_of)
            (services-Apart names (check_names-Apart (service_names spec_data) h))
            (services-ne-core names),
      )

  generate_checked-Covers :
      (config : Config)
      → Covers
          (proto_paths to spec_data package_of ++ [])
          (generate_checked config output_dir spec_data [])
  unfolding generate_checked
  generate_checked-Covers config =
      and_run-Covers (files_run to spec_data package_of) _ (proto_paths to spec_data package_of) []
        (files_run-Covers to spec_data package_of)
        (options_run-Covers
          (generate_options_files config package_of (resolved_spec spec_data package_of)))

  names_checked :
      (strict : Bool)
      → (validate strict spec_data).errors ≡ []
      → check_names (service_names spec_data) ≡ []
  unfolding validate
  names_checked strict h =
      let ids = check_ids (map (λ (s : Service). s.id) spec_data.services) in
      let given = fault_if (none_given spec_data.services) no_service in
      let definitions =
        definition_faults strict spec_data none spec_data.messages spec_data.enums in
      let from_names = (append-eq-nil (package_faults spec_data.package_name) _ h).1 in
      let from_definitions = (append-eq-nil (name_faults spec_data) _ from_names).1 in
      let from_given = (append-eq-nil definitions _ from_definitions).1 in
      let from_ids = (append-eq-nil given _ from_given).1 in
      (append-eq-nil (check_names (service_names spec_data)) _ (append-eq-nil ids _ from_ids).1).0

Covers-Apart : (ps : List FilePath) (r : Run) → Covers ps r → Apart ps → Apart (opened r.events)
Covers-Apart ps r (whole h) a = rw h a
Covers-Apart ps r (cut rest h s) a = Apart-left (opened r.events) rest (rw h a)

-- For a merged specification without errors, a run of the generator finishes if the contents of every
-- .proto file and the options can be computed, and it has then opened and written the file of the
-- common types, the files of the services in their order and windrpc.proto, each with its contents and
-- no others. Otherwise it raises the first exception on the way. No file is opened twice.
pub generate-Writes :
    (strict : Bool) (config : Config) (output_dir : Str) (core user : Spec)
    → (validate strict (merge_specs core user)).errors ≡ []
    → Writes (generate strict config output_dir (loaded core user)) (
        proto_files
          (output_path_of output_dir (merge_specs core user))
          (merge_specs core user)
          (shown_package (merge_specs core user).package_name)
        >>= λ files.
            generate_options_files config (shown_package (merge_specs core user).package_name) (
              resolved_spec
                (merge_specs core user)
                (shown_package (merge_specs core user).package_name))
            >>= λ lines. ok files)
      × Apart (opened (generate strict config output_dir (loaded core user)).events)
unfolding generate
generate-Writes strict config output_dir core user h =
    let spec_data : Spec = merge_specs core user in
    let paths : List FilePath =
      proto_paths (output_path_of output_dir spec_data) spec_data
        (shown_package spec_data.package_name) in
    let covers : Covers paths (generate_checked config output_dir spec_data []) =
      rw (sym (append-nil paths)) (generate_checked-Covers output_dir spec_data config) in
    rw h (
      generate_checked-Writes config output_dir spec_data,
      Covers-Apart paths (generate_checked config output_dir spec_data []) covers
          (proto_paths-Apart output_dir spec_data (names_checked output_dir spec_data strict h)),
    )
