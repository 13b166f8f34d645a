-- ===== src/Proto/Generate/Covered.antt =====
-- The .proto files that the parts of a run open, in their order.
use windrpc.Base.{
  ◌≡◌, refl, sym, inl, inr, true, false, List, [], ◌∷◌, ◌++◌, append_assoc, Bool, Option,
  Option-cases, map,
}
use windrpc.Base.Text.{Str}
use windrpc.Base.Result.{Result, ok, raise}
use windrpc.Spec.{Service, Spec}
use windrpc.Spec.Required.{required}
use windrpc.Validator.Whole.{service_names}
use windrpc.Proto.Options.{OptionLine}
use windrpc.Proto.Generate.{
  FilePath, Content, Event, Outcome, finished, exited, raised, Run, run_events, after_events,
  and_run, run_all, write_call, options_run, types_path, service_path, core_path, service_run,
  services_run, types_run, core_run, file_runs, files_run,
}
use windrpc.Proto.Generate.Opened.{opened, opened-append}
use windrpc.Proto.Generate.Apart.{names_of}

unfoldable pub stopped : Outcome → Bool
stopped finished = false
stopped exited = true
stopped (raised e) = true

-- the run opens the given files in their order, all of them unless it stops
pub data Covers (ps : List FilePath) (r : Run) : Type 0 where
  whole : opened r.events ≡ ps → Covers ps r
  cut :
      (rest : List FilePath) → opened r.events ++ rest ≡ ps → stopped r.outcome ≡ true → Covers ps r

after_events-Covers :
    (es : List Event) (o : Outcome) (rest : Run) (ps qs : List FilePath)
    → Covers ps (record { events = es; outcome = o })
    → Covers qs rest
    → Covers (ps ++ qs) (after_events es o rest)
unfolding after_events stopped
after_events-Covers es finished rest ps qs (whole h) (whole g) =
    whole (rw (opened-append es rest.events, h, g) refl)
after_events-Covers es finished rest ps qs (whole h) (cut more g s) =
    cut more
      (rw (opened-append es rest.events, h, append_assoc ps (opened rest.events) more, g) refl) s
after_events-Covers es finished rest ps qs (cut more h s) g = absurd (cc s)
after_events-Covers es exited rest ps qs (whole h) g = cut qs (rw h refl) refl
after_events-Covers es exited rest ps qs (cut more h s) g =
    cut (more ++ qs) (rw (sym (append_assoc (opened es) more qs), h) refl) refl
after_events-Covers es (raised e) rest ps qs (whole h) g = cut qs (rw h refl) refl
after_events-Covers es (raised e) rest ps qs (cut more h s) g =
    cut (more ++ qs) (rw (sym (append_assoc (opened es) more qs), h) refl) refl

pub and_run-Covers :
    (a b : Run) (ps qs : List FilePath)
    → Covers ps a
    → Covers qs b
    → Covers (ps ++ qs) (and_run a b)
unfolding and_run
and_run-Covers a b ps qs h g = after_events-Covers a.events a.outcome b ps qs h g

write_call-Covers : (path : FilePath) (r : Result Content) → Covers (path ∷ []) (write_call path r)
unfolding write_call opened
write_call-Covers path (ok content) = whole refl
write_call-Covers path (raise e) = whole refl

pub options_run-Covers : (r : Result (List (Str × List OptionLine))) → Covers [] (options_run r)
unfolding options_run opened
options_run-Covers (ok lines) = whole refl
options_run-Covers (raise e) = whole refl

-- each run opens the files of its own list
AllCovers : List (List FilePath) → List Run → Type 0
AllCovers [] [] = Unit
AllCovers [] (r ∷ rs) = Covers [] r × AllCovers [] rs
AllCovers (ps ∷ pss) [] = (ps ≡ []) × AllCovers pss []
AllCovers (ps ∷ pss) (r ∷ rs) = Covers ps r × AllCovers pss rs

joined : List (List FilePath) → List FilePath
joined [] = []
joined (ps ∷ pss) = ps ++ joined pss

run_all-Covers :
    (pss : List (List FilePath)) (rs : List Run)
    → AllCovers pss rs
    → Covers (joined pss) (run_all rs)
unfolding run_all run_events opened joined AllCovers
run_all-Covers [] [] h = whole refl
run_all-Covers [] (r ∷ rs) h = and_run-Covers r (run_all rs) [] [] h.0 (run_all-Covers [] rs h.1)
run_all-Covers (ps ∷ pss) [] h = rw h.0 (run_all-Covers pss [] h.1)
run_all-Covers (ps ∷ pss) (r ∷ rs) h =
    and_run-Covers r (run_all rs) ps (joined pss) h.0 (run_all-Covers pss rs h.1)

module _ (output_path : FilePath) (spec_data : Spec) (package_name : Str) where
  unfoldable pub service_paths : List (Option Str) → List FilePath
  service_paths names = map (service_path output_path spec_data package_name) (names_of names)

  services_run-Covers :
      (services : List Service)
      → Covers
          (service_paths (map (λ (s : Service). s.name) services))
          (services_run output_path spec_data package_name services)
  unfolding services_run service_run service_paths names_of run_events opened required and_run
      after_events
  services_run-Covers [] = whole refl
  services_run-Covers (s ∷ services) = elim (Option-cases s.name) [
    | inl missing ↦ rw missing (whole refl)
    | inr (name, given) ↦ rw given (
        and_run-Covers _ (services_run output_path spec_data package_name services)
          (service_path output_path spec_data package_name name ∷ [])
          (service_paths (map (λ (q : Service). q.name) services)) (write_call-Covers _ _)
          (services_run-Covers services))
  ]

  -- the files of the common types, of the services and of the identifiers
  abbrev pub proto_paths : List FilePath
  proto_paths =
      types_path output_path spec_data package_name ∷ service_paths (service_names spec_data)
      ++ core_path output_path spec_data package_name ∷ []

  pub files_run-Covers : Covers proto_paths (files_run output_path spec_data package_name)
  unfolding files_run run_events types_run core_run opened service_names joined AllCovers
  files_run-Covers =
      run_all-Covers
        ([]
          ∷ (types_path output_path spec_data package_name ∷ [])
          ∷ []
          ∷ service_paths (service_names spec_data)
          ∷ []
          ∷ (core_path output_path spec_data package_name ∷ [])
          ∷ [])
        (file_runs output_path spec_data package_name)
        (
          whole refl,
          (
            write_call-Covers _ _,
            (
              whole refl,
              (services_run-Covers spec_data.services, (whole refl, (write_call-Covers _ _, tt))),
            ),
          ),
        )
