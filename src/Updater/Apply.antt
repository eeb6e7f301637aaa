-- ===== src/Updater/Apply.antt =====
-- crates/trace-updater/src/apply.rs: installing a release and going back from it. The install root is
-- the state; any call of the file system may fail. Where the artifacts come from, the health probe,
-- the digest, semver and the paths that names of artifacts lead to are parameters.
pub mod Calls
pub mod Steps
pub mod Staging
pub mod Swap
pub mod Fresh
pub mod Atomicity
use traceability.Base.{
  ℕ, String, Bool, true, false, not, List, [], ◌∷◌, Option, none, some, Result, ok, err, ◌==◌,
  if◌then◌else◌, length, take, is_empty, bytes_eq,
}
use traceability.Core.Chain.{Bytes}
use traceability.Sign
use traceability.Updater.Manifest.{
  UpdateError, UpdatePath, releases_dir, staging_dir, current_link, current_tmp, previous_link,
  previous_tmp, release_dir, staged_dir, staged_file, staged_parent, io, digest_mismatch,
  size_in_bytes, sha256_text, rollback_impossible, Artifact, Manifest, Semver, UpdateDecision,
  install, up_to_date, not_in_cohort, decide,
}
use traceability.Updater.Manifest
use traceability.Updater.Apply.Calls.{
  Dir, Layout, World, Io, Place, within, elsewhere, Paths, set, return, fail, ◌>>=◌, ◌>>◌, lift,
  call, try_exists,
}

pub data UpdateOutcome (Version : Type 0) : Type 0 where
  installed : (version : Version) → (replaced : Option Version) → UpdateOutcome Version
  already_up_to_date : (version : Version) → UpdateOutcome Version
  held_back : (cohorts : List String) → UpdateOutcome Version
  rolled_back : (failed restored : Version) → (reason : String) → UpdateOutcome Version

pub record HealthReport : Type 0 where
  pub healthy : Bool
  pub detail : String

-- `ArtifactSource`
pub record ArtifactSource : Type 0 where
  pub fetch_manifest : Result UpdateError Sign.Envelope
  pub fetch_artifact : Artifact → Result UpdateError Bytes

-- `HealthProbe`, by the number of seconds to wait.
abbrev pub HealthProbe : Type 0
HealthProbe = ℕ → HealthReport

abbrev pub keep : Layout → Layout
keep l = l

abbrev pub unchanged : ℕ → Layout → Layout
unchanged n l = l

abbrev pub is_there : Option Dir → Bool
is_there none = false
is_there (some files) = true

abbrev pub files_of : Option Dir → Dir
files_of none = []
files_of (some files) = files

abbrev pub partly : ℕ → Option Dir → Option Dir
partly n none = none
partly n (some files) = some (take n files)

unfoldable pub verify_digest : (Bytes → Bytes) → Artifact → Bytes → Result UpdateError (Unit {0})
verify_digest sha256_hex a bytes =
    if not (length bytes == a.size)
    then err (digest_mismatch a.name (size_in_bytes a.size) (size_in_bytes (length bytes)))
    else if not (bytes_eq (sha256_hex bytes) a.sha256)
    then err (digest_mismatch a.name (sha256_text a.sha256) (sha256_text (sha256_hex bytes)))
    else ok tt

abbrev pub put_staged : String → Dir → Layout → Layout
put_staged v files l = record l { staging = set v (some files) l.staging }

abbrev pub put_file : String → String → Bytes → Layout → Layout
put_file v name bytes l = put_staged v ((name, bytes) ∷ files_of (l.staging v)) l

-- The file that a path names gets this content.
abbrev pub put_at : Paths → String → String → Place → Bytes → Layout → Layout
put_at paths v name (within path) bytes l = put_file v path bytes l
put_at paths v name (elsewhere has_parent) bytes l = paths.written v name bytes l

-- `create_dir_all` on the parent, where there is one. A directory below the staged one is not a part of the
-- state; where a file is in its way, the call is one that fails.
abbrev pub make_parent : Paths → String → String → Place → Io (Unit {0})
make_parent paths v name (within path) = call (staged_parent v name) keep unchanged
make_parent paths v name (elsewhere true) =
    call (staged_parent v name) (paths.parents_made none v name)
      (λ n. paths.parents_made (some n) v name)
make_parent paths v name (elsewhere false) = return tt

abbrev pub write_at : Paths → String → Artifact → Bytes → Place → Io (Unit {0})
write_at paths v a bytes place = do
  make_parent paths v a.name place
  call (staged_file v a.name) (put_at paths v a.name place []) unchanged
  call (staged_file v a.name) (put_at paths v a.name place bytes)
      (λ n. put_at paths v a.name place (take n bytes))
  call (staged_file v a.name) keep unchanged

unfoldable pub write_artifact : Paths → String → Artifact → Bytes → Io (Unit {0})
write_artifact paths v a bytes = write_at paths v a bytes (paths.join a.name)

unfoldable pub write_artifacts :
    Paths → (Bytes → Bytes) → ArtifactSource → String → List Artifact → Io (Unit {0})
write_artifacts paths sha256_hex source v [] = return tt
write_artifacts paths sha256_hex source v (a ∷ rest) = lift (source.fetch_artifact a) >>= λ bytes.
    lift (verify_digest sha256_hex a bytes)
    >> write_artifact paths v a bytes
    >> write_artifacts paths sha256_hex source v rest

-- `remove_dir_all`, which may stop on the way.
abbrev pub remove_staged : String → Bool → Io (Unit {0})
remove_staged v false = return tt
remove_staged v true =
    call (staged_dir v) (λ l. record l { staging = set v none l.staging })
      (λ n l. record l { staging = set v (partly n (l.staging v)) l.staging })

unfoldable pub stage : Paths → (Bytes → Bytes) → ArtifactSource → Manifest → String → Io (Unit {0})
stage paths sha256_hex source manifest v = do
  found ← try_exists (λ l. is_there (l.staging v))
  remove_staged v found
  call (staged_dir v) (λ l. put_staged v (files_of (l.staging v)) l) unchanged
  write_artifacts paths sha256_hex source v manifest.artifacts

pub data Link : Type 0 where
  current previous : Link

abbrev pub link_path : Link → UpdatePath
link_path current = current_link
link_path previous = previous_link

abbrev pub tmp_path : Link → UpdatePath
tmp_path current = current_tmp
tmp_path previous = previous_tmp

abbrev pub tmp_taken : Link → Layout → Bool
tmp_taken current l = l.current_tmp
tmp_taken previous l = l.previous_tmp

abbrev pub set_tmp : Link → Bool → Layout → Layout
set_tmp current b l = record l { current_tmp = b }
set_tmp previous b l = record l { previous_tmp = b }

abbrev pub set_link : Link → String → Layout → Layout
set_link current v l = record l { current = some v; current_tmp = false }
set_link previous v l = record l { previous = some v; previous_tmp = false }

abbrev pub remove_tmp : Link → Bool → Io (Unit {0})
remove_tmp link false = return tt
remove_tmp link true = call (tmp_path link) (set_tmp link false) unchanged

-- `symlink` refuses a name that is taken.
abbrev pub make_tmp : Link → Io (Unit {0})
make_tmp link w =
    if tmp_taken link w.layout
    then fail (io (tmp_path link)) w
    else call (tmp_path link) (set_tmp link true) unchanged w

unfoldable pub replace_symlink : String → Link → Io (Unit {0})
replace_symlink v link = do
  found ← try_exists (tmp_taken link)
  remove_tmp link found
  make_tmp link
  call (link_path link) (set_link link v) unchanged

abbrev pub remove_release : String → Bool → Io (Unit {0})
remove_release v false = return tt
remove_release v true =
    call (release_dir v) (λ l. record l { releases = set v none l.releases })
      (λ n l. record l { releases = set v (partly n (l.releases v)) l.releases })

-- `rename` refuses a directory that holds files.
abbrev pub rename_staged : String → Io (Unit {0})
rename_staged v w =
    if is_empty (files_of (w.layout.releases v))
    then call (release_dir v)
        (λ l. record l {
          releases = set v (l.staging v) l.releases;
          staging = set v none l.staging;
        })
        unchanged w
    else fail (io (release_dir v)) w

module _ {Version : Type 0} (semver : Semver Version) where
  abbrev pub or_none : Result String Version → Option Version
  or_none (ok v) = some v
  or_none (err detail) = none

  abbrev pub link_version : Option String → Option Version
  link_version none = none
  link_version (some name) = or_none (semver.parse name)

  unfoldable pub installed_version : Io (Option Version)
  installed_version =
      call current_link keep unchanged >> λ w. (w, ok (link_version w.layout.current))

  abbrev pub retain_previous : Option Version → Version → Io (Option Version)
  retain_previous none from = return none
  retain_previous (some v) from =
      replace_symlink (semver.to_string from) previous >> return (some from)

  -- What stands between the two, once the outgoing release is known.
  abbrev pub switch_to : Version → Version → Option Version → Io (Option Version)
  switch_to target from had_previous = retain_previous had_previous from >>= λ outgoing.
      replace_symlink (semver.to_string target) current >> return outgoing

  unfoldable pub activate : Version → Version → Io (Option Version)
  activate target from = do
    found ← try_exists (λ l. is_there (l.releases (semver.to_string target)))
    remove_release (semver.to_string target) found
    rename_staged (semver.to_string target)
    had_previous ← installed_version
    switch_to target from had_previous

  abbrev pub roll_back : Version → String → Option Version → Io (UpdateOutcome Version)
  roll_back target reason none = fail (rollback_impossible (semver.to_string target) reason)
  roll_back target reason (some restore) =
      replace_symlink (semver.to_string restore) current
      >> return (rolled_back target restore reason)

  abbrev pub health_gate : Version → Option Version → HealthReport → Io (UpdateOutcome Version)
  health_gate target outgoing report =
      if report.healthy
      then return (installed target outgoing)
      else roll_back target report.detail outgoing

  abbrev pub proceed :
      Paths
      → (Bytes → Bytes)
      → ArtifactSource
      → HealthProbe
      → Manifest
      → Version
      → UpdateDecision Version
      → Io (UpdateOutcome Version)
  proceed paths sha256_hex source probe manifest from up_to_date = return (already_up_to_date from)
  proceed paths sha256_hex source probe manifest from (not_in_cohort cohorts) =
      return (held_back cohorts)
  proceed paths sha256_hex source probe manifest from (install target) =
      stage paths sha256_hex source manifest (semver.to_string target)
      >> activate target from
      >>= λ outgoing. health_gate target outgoing (probe manifest.health_deadline_secs)

  abbrev pub or_zero : Version → Option Version → Version
  or_zero zero none = zero
  or_zero zero (some v) = v

  unfoldable pub update :
      {Key : Type 0}
      → Paths
      → (Bytes → Bytes)
      → Sign.Crates Key Manifest
      → Key
      → String
      → Version
      → ArtifactSource
      → HealthProbe
      → Io (UpdateOutcome Version)
  update paths sha256_hex c key cohort zero source probe = do
    call releases_dir keep unchanged
    call staging_dir keep unchanged
    envelope ← lift source.fetch_manifest
    manifest ← lift (Manifest.verify semver c envelope key)
    found ← installed_version
    decision ← lift (decide semver manifest (or_zero zero found) cohort)
    proceed paths sha256_hex source probe manifest (or_zero zero found) decision
