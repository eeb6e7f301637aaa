-- ===== src/Updater/Manifest.antt =====
-- crates/trace-updater/src/manifest.rs and the errors of crates/trace-updater/src/error.rs it raises: the
-- signed release manifest and the rules for accepting one. `semver` is a parameter. A text that the
-- code formats stands as its template with the values put into it.
pub mod Acceptance
pub mod Decision
use traceability.Base.{
  ℕ, ◌≡◌, ◌↔◌, ◌⊎◌, String, Bool, true, false, not, ◌&&◌, ◌||◌, List, [], ◌∷◌, Option, none, some,
  Result, ok, err, ◌>>=◌, ltb, leb, ◌==◌, str_eq, if◌then◌else◌, any, all, find?, length, is_empty,
}
use traceability.Core.Chain.{Bytes}
use traceability.Sign

-- The texts of `Malformed`.
pub data ManifestProblem : Type 0 where
  newer_schema : (schema supported : ℕ) → ManifestProblem
  no_artifacts : ManifestProblem
  malformed_digest : (artifact : String) → ManifestProblem

-- The paths under the install root that a failed call may name.
pub data UpdatePath : Type 0 where
  releases_dir staging_dir current_link current_tmp previous_link previous_tmp : UpdatePath
  release_dir staged_dir : (version : String) → UpdatePath
  staged_file staged_parent : (version name : String) → UpdatePath

-- What is shown of an artifact that does not match: a size or a digest.
pub data ShownDigest : Type 0 where
  size_in_bytes : (size : ℕ) → ShownDigest
  sha256_text : (digest : Bytes) → ShownDigest

pub data UpdateError : Type 0 where
  signature : Sign.SignError → UpdateError
  digest_mismatch : (name : String) → (expected actual : ShownDigest) → UpdateError
  downgrade_refused : (installed offered : String) → UpdateError
  upgrade_path_required : (installed min_installed target : String) → UpdateError
  malformed_version : (value detail : String) → UpdateError
  rolled_back : (version reason restored : String) → UpdateError
  rollback_impossible : (version reason : String) → UpdateError
  malformed : ManifestProblem → UpdateError
  fetch : (name detail : String) → UpdateError
  io : (path : UpdatePath) → UpdateError

-- A digest is the list of the bytes of its text.
pub record Artifact : Type 0 where
  pub name : String
  pub sha256 : Bytes
  pub size : ℕ
  pub path : String
  pub delta_from : Option String

pub record Manifest : Type 0 where
  pub schema : ℕ
  pub version : String
  pub released_at : ℕ
  pub notes : String
  pub artifacts : List Artifact
  pub min_installed_version : Option String
  pub rollback : Bool
  pub cohorts : List String
  pub health_deadline_secs : ℕ

abbrev pub schema_version : ℕ
schema_version = 1

-- What the code uses of `semver::Version`: `parse`, `<`, `==` and the text of a version.
pub record Semver (Version : Type 0) : Type 0 where
  pub parse : String → Result String Version
  pub older : Version → Version → Bool
  pub same : Version → Version → Bool
  pub to_string : Version → String

pub data UpdateDecision (Version : Type 0) : Type 0 where
  install : (version : Version) → UpdateDecision Version
  up_to_date : UpdateDecision Version
  not_in_cohort : (cohorts : List String) → UpdateDecision Version

unfoldable pub is_ascii_hexdigit : ℕ → Bool
is_ascii_hexdigit c =
    leb b'0' c && leb c b'9' || (leb b'a' c && leb c b'f' || leb b'A' c && leb c b'F')

unfoldable pub malformed_sha256 : Artifact → Bool
malformed_sha256 a = not (length a.sha256 == 64) || not (all is_ascii_hexdigit a.sha256)

-- The loop over the artifacts returns at the first that is malformed.
unfoldable pub check_artifacts : List Artifact → Result UpdateError (Unit {0})
check_artifacts [] = ok tt
check_artifacts (a ∷ rest) =
    if malformed_sha256 a then err (malformed (malformed_digest a.name)) else check_artifacts rest

unfoldable pub check_schema : ℕ → Result UpdateError (Unit {0})
check_schema schema =
    if ltb schema_version schema
    then err (malformed (newer_schema schema schema_version))
    else ok tt

unfoldable pub check_not_empty : List Artifact → Result UpdateError (Unit {0})
check_not_empty artifacts = if is_empty artifacts then err (malformed no_artifacts) else ok tt

module _ {Version : Type 0} (semver : Semver Version) where
  unfoldable pub parse_version : String → Result UpdateError Version
  parse_version value = Sign.map_err (malformed_version value) (semver.parse value)

  unfoldable pub parsed_version : Manifest → Result UpdateError Version
  parsed_version m = parse_version m.version

  unfoldable pub verify :
      {Key : Type 0} → Sign.Crates Key Manifest → Sign.Envelope → Key → Result UpdateError Manifest
  verify c envelope key = Sign.map_err signature (Sign.verify c key envelope) >>= λ manifest.
      check_schema manifest.schema >>= λ _. check_not_empty manifest.artifacts >>= λ _.
      check_artifacts manifest.artifacts >>= λ _. parsed_version manifest >>= λ _. ok manifest

  unfoldable pub check_min_installed :
      Option String → Version → Version → Result UpdateError (Unit {0})
  check_min_installed none installed offered = ok tt
  check_min_installed (some value) installed offered = parse_version value >>= λ min.
      if semver.older installed min
      then err (
          upgrade_path_required (semver.to_string installed) (semver.to_string min)
            (semver.to_string offered))
      else ok tt

  unfoldable pub compare_versions :
      Bool → Version → Version → Result UpdateError (UpdateDecision Version)
  compare_versions rollback installed offered =
      if semver.same offered installed
      then ok up_to_date
      else (if semver.older offered installed
          then (if not rollback
              then err (downgrade_refused (semver.to_string installed) (semver.to_string offered))
              else ok (install offered))
          else ok (install offered))

  unfoldable pub in_cohort : List String → String → Bool
  in_cohort cohorts cohort = is_empty cohorts || any (λ c. str_eq c cohort) cohorts

  unfoldable pub decide : Manifest → Version → String → Result UpdateError (UpdateDecision Version)
  decide m installed cohort =
      if not (is_empty m.cohorts) && not (any (λ c. str_eq c cohort) m.cohorts)
      then ok (not_in_cohort m.cohorts)
      else (parsed_version m >>= λ offered.
          check_min_installed m.min_installed_version installed offered >>= λ _.
          compare_versions m.rollback installed offered)
