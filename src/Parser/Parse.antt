-- ===== src/Parser/Parse.antt =====
-- Parse of internal/parser/parser.go. The document's reading by yaml.Unmarshal and the two loads by
-- compose-go are parameters; a failed load gives its message.
pub mod Valid
use text.Mathlib.Text.{◌==◌ as str_eq}
use Prim.Native.String.{◌++◌ as cat}
use navarch.Prelude.{
  ℕ, ◌==◌, ltb, ◌&&◌, not, String, Bool, true, false, Option, none, some, List, [], ◌∷◌, ◌++◌, map,
  if◌then◌else◌, sort_by, str_leb,
}
use navarch.Spec.{GoMap, Service, Volume, DeploymentSpec}
use navarch.Parser.Compose.{Fields, ServiceConfig, VolumeConfig, Project}
use navarch.Parser.Errors.{ValidationError, Check, check, collect, is_set, is_filled}
use navarch.Parser.Preflight.{preflight}
use navarch.Parser.Mounts.{volume_owner, is_misparsed}
use navarch.Parser.Convert.{Library, service_errors, convert_service}
use navarch.Parser.Graph.{validate_graph}

pub data Load (A : Type 0) : Type 0 where
  loaded : A → Load A
  failed : String → Load A

-- What Parse returns: the specification, the violations, or the error of a load.
pub data Parsed : Type 0 where
  accepted : DeploymentSpec → Parsed
  rejected : List ValidationError → Parsed
  load_failed : String → Parsed

abbrev pub spec_version : ℕ
spec_version = 1

abbrev pub volume_field : String → String
volume_field vol = cat "volumes." vol

module _ (lib : Library) where
  open lib use {D, C, quote, sort_by_field}

  -- The checks on one declared volume, and on the number of services that mount it.
  unfoldable pub volume_checks : GoMap (ServiceConfig D C) → String → VolumeConfig → List Check
  unfolding volume_owner is_misparsed
  volume_checks services vol v =
      check (is_filled v.driver_opts) (volume_field vol) "volume driver_opts are not supported"
      ∷ check (is_set v.driver && not (str_eq v.driver "local")) (volume_field vol)
          "custom volume drivers are not supported"
      ∷ check v.is_external (volume_field vol) "external volumes are not supported"
      ∷ check ((volume_owner services vol).1 == 0 && not (is_misparsed services vol))
          (volume_field vol) "volume is declared but not mounted by any service"
      ∷ check (ltb 1 (volume_owner services vol).1) (volume_field vol)
          "volume is mounted by multiple services; shared writable volumes are not supported"
      ∷ []

  unfoldable pub volume_errors :
      GoMap (ServiceConfig D C) → GoMap VolumeConfig → List ValidationError
  unfolding volume_checks collect
  volume_errors services [] = []
  volume_errors services ((vol, v) ∷ m) =
      collect (volume_checks services vol v) ++ volume_errors services m

  -- s.Volumes: the volumes that a service mounts, with their owner.
  unfoldable pub volumes_of : GoMap (ServiceConfig D C) → GoMap VolumeConfig → GoMap Volume
  unfolding volume_owner
  volumes_of services [] = []
  volumes_of services ((vol, v) ∷ m) =
      let rest = volumes_of services m in
      if (volume_owner services vol).1 == 0
      then rest
      else (vol, record { name = vol; driver = "local"; owner = (volume_owner services vol).0 })
        ∷ rest

  unfoldable pub all_service_errors : GoMap (ServiceConfig D C) → List ValidationError
  unfolding service_errors
  all_service_errors [] = []
  all_service_errors ((name, svc) ∷ m) = service_errors lib name svc ++ all_service_errors m

  unfoldable pub convert_services : GoMap (ServiceConfig D C) → GoMap Service
  unfolding convert_service
  convert_services [] = []
  convert_services ((name, svc) ∷ m) = (name, convert_service lib name svc) ∷ convert_services m

  unfoldable pub spec_of : Project D C → DeploymentSpec
  unfolding convert_services volumes_of
  spec_of p = record {
    spec_version = spec_version;
    services = convert_services p.services;
    volumes = volumes_of p.services p.volumes;
    networks = [];
  }

  -- if len(s.Services) == 0
  abbrev pub empty_errors : GoMap Service → List ValidationError
  empty_errors [] =
      record {
        on = "services";
        message = "services is empty; a stack must declare at least one service";
      }
      ∷ []
  empty_errors m = []

  unfoldable pub project_errors : Project D C → List ValidationError
  unfolding all_service_errors volume_errors validate_graph spec_of
  project_errors p =
      all_service_errors p.services
      ++ (volume_errors p.services p.volumes
          ++ (validate_graph quote (spec_of p) ++ empty_errors (spec_of p).services))

  module _ (Raw : Type 0) (unmarshal : Raw → Option Fields)
      (load : Bool → Raw → Load (Project D C)) where
    -- The second load, with the check for consistency that the first one leaves out.
    abbrev pub confirm : DeploymentSpec → Load (Project D C) → Parsed
    confirm s (loaded p) = accepted s
    confirm s (failed m) = load_failed (cat "load compose: " m)

    abbrev pub judge : Raw → Project D C → List ValidationError → Parsed
    judge raw p [] = confirm (spec_of p) (load false raw)
    judge raw p (e ∷ es) = rejected (sort_by_field (e ∷ es))

    abbrev pub inspect : Raw → Load (Project D C) → Parsed
    inspect raw (loaded p) = judge raw p (project_errors p)
    inspect raw (failed m) = load_failed (cat "load compose: " m)

    abbrev pub examine : Raw → List ValidationError → Parsed
    examine raw [] = inspect raw (load true raw)
    examine raw (e ∷ es) = rejected (sort_by_field (e ∷ es))

    unfoldable pub parse : Raw → Parsed
    unfolding preflight spec_of project_errors
    parse raw = examine raw (preflight (unmarshal raw))
