-- ===== src/Samples/Stations.antt =====
-- Examples for a station's queue and for an update of a box.
use traceability.Base.{
  ℕ, ◌≤◌, String, true, false, List, [], ◌∷◌, ◌++◌, Option, none, some, ok, err, ◌≡◌, ◌⊎◌, refl,
  arith, length, str_eq, str_eq_iff, if◌then◌else◌, bytes_eq, take, ok_inj, sym, ◌∙◌, Memᴰ,
}
use traceability.Core.Chain.{Bytes, replicate}
use mathlib.Core.Path.{subst}
use traceability.Sign
use traceability.Station.Spool.{
  SpoolRecord, Codec, Disk, newline, io, spool, torn, rename_failed, extend, is_utf8, utf8_state,
  utf8_step, followers, strip_cr, lines, lines_from, append, read_lines, load,
}
use traceability.Station.Spool.Durability.{
  IsEnded, Op, enqueue, acknowledge, IsLine, Holds, queue_run, disk_run, disk_run-refines,
}
use traceability.Station.Spool.Torn.{append-torn, append-lost_after_torn}
use traceability.Updater.Manifest
use traceability.Updater.Manifest.{Artifact, Semver, UpdateError}
use traceability.Updater.Apply.{ArtifactSource, HealthProbe, write_artifact, update}
use traceability.Updater.Apply.Calls.{Layout, call, Paths, within, elsewhere, set}
use traceability.Updater.Apply.Steps.{Ends}
use traceability.Updater.Apply.Fresh.{IsSemver}
use traceability.Updater.Apply.Atomicity.{Outcome, Failed, AreTidy, update-Ends}

abbrev scan : SpoolRecord ℕ
scan = record { id = "a"; topic = "scan"; payload = 7; recorded_at = 1; attempts = 0 }

abbrev scan_line : Bytes
scan_line = b'{' ∷ b'}' ∷ []

-- There is one record.
abbrev codec : Codec ℕ
codec = record {
  to_string = λ r. ok scan_line;
  from_str = λ line. if bytes_eq line scan_line then some scan else none;
}

abbrev empty_disk : Disk
empty_disk = record { spool = none; compacting = none }

scan_utf8 : is_utf8 (scan_line ++ newline ∷ []) ≡ true
unfolding is_utf8 utf8_state utf8_step followers
scan_utf8 = refl

scan_no_return : strip_cr scan_line ≡ scan_line
unfolding strip_cr
scan_no_return = refl

scan_read_back : codec.from_str scan_line ≡ some scan
unfolding bytes_eq
scan_read_back = refl

abbrev lawful_scan : IsLine codec scan
lawful_scan = record {
  line = scan_line;
  written = refl;
  one_line = refl;
  utf8 = scan_utf8;
  not_blank = refl;
  no_return = scan_no_return;
  read_back = scan_read_back;
}

empty-Holds : Holds codec empty_disk []
unfolding is_utf8 utf8_state read_lines lines lines_from
empty-Holds = record { whole = IsEnded.nothing refl; utf8 = refl; loaded = refl; lawful = tt }

abbrev ops : List (Op ℕ)
ops =
    enqueue scan
    ∷ acknowledge (some rename_failed) ("a" ∷ [])
    ∷ acknowledge none ("a" ∷ [])
    ∷ enqueue scan
    ∷ []

disk_run-refines_example : load codec false (disk_run codec empty_disk ops) ≡ ok (queue_run [] ops)
disk_run-refines_example =
    disk_run-refines codec empty_disk [] ops empty-Holds
      (lawful_scan, (tt, (tt, (lawful_scan, tt))))

append-torn_example :
    ((append codec (some (torn 1)) empty_disk scan).1 ≡ err (io spool))
    × (((more : List (SpoolRecord ℕ)) × (load codec false
              (append codec (some (torn 1)) empty_disk scan).0
            ≡ ok ([] ++ more))
          × (length more ≤ 1))
        ⊎ ((load codec false (append codec (some (torn 1)) empty_disk scan).0 ≡ err (io spool))
            × (is_utf8 (take 1 (scan_line ++ newline ∷ [])) ≡ false)))
append-torn_example = append-torn codec empty_disk [] scan lawful_scan 1 empty-Holds (omega arith)

torn_unread : codec.from_str (strip_cr (b'{' ∷ scan_line)) ≡ none
unfolding strip_cr bytes_eq
torn_unread = refl

torn_utf8 : is_utf8 (b'{' ∷ []) ≡ true
unfolding is_utf8 utf8_state utf8_step followers
torn_utf8 = refl

append-lost_after_torn_example :
    ((append codec none (extend empty_disk (b'{' ∷ [])) scan).1 ≡ ok tt)
    × (load codec false (append codec none (extend empty_disk (b'{' ∷ [])) scan).0 ≡ ok [])
append-lost_after_torn_example =
    append-lost_after_torn codec empty_disk [] (b'{' ∷ []) scan lawful_scan empty-Holds refl
      torn_utf8 torn_unread

-- A version is its text.
abbrev semver : Semver String
semver = record { parse = ok; older = λ a b. false; same = str_eq; to_string = λ v. v }

semver-IsSemver : IsSemver semver
semver-IsSemver = record {
  parse_print = λ v. refl;
  print_parse = λ s v h. cc;
  same_refl = λ v. (str_eq_iff v v).1 refl;
}

abbrev edge : Artifact
edge = record {
  name = "trace-edge";
  sha256 = replicate 64 b'0';
  size = 1;
  path = "trace-edge";
  delta_from = none;
}

abbrev release : Manifest.Manifest
release = record {
  schema = 1;
  version = "2";
  released_at = 0;
  notes = "";
  artifacts = edge ∷ [];
  min_installed_version = none;
  rollback = false;
  cohorts = [];
  health_deadline_secs = 120;
}

abbrev crates : Sign.Crates ℕ Manifest.Manifest
crates = record {
  decode = λ s. ok (replicate 64 0);
  checks = λ key payload sig. true;
  from_slice = λ payload. ok release;
}

abbrev release_envelope : Sign.Envelope
release_envelope = record {
  alg = "ed25519";
  payload_b64 = "AA";
  signature_b64 = "AA";
  key_id = "k";
}

abbrev source : ArtifactSource
source = record { fetch_manifest = ok release_envelope; fetch_artifact = λ a. ok (0 ∷ []) }

-- The release is never healthy, and the box goes back to version 1.
abbrev probe : HealthProbe
probe seconds = record { healthy = false; detail = "no answer" }

abbrev box : Layout
box = record {
  releases = λ v. if str_eq v "1" then some [] else none;
  staging = λ v. none;
  current = some "1";
  previous = none;
  current_tmp = false;
  previous_tmp = false;
}

abbrev sha256_hex : Bytes → Bytes
sha256_hex bytes = replicate 64 b'0'

-- The first write of a link fails.
abbrev faults : List (Option ℕ)
faults = none ∷ none ∷ none ∷ none ∷ some 0 ∷ []

-- The one name that is known to stay; every other leads into the release that is current.
abbrev paths : Paths
paths = record {
  join = λ name. if str_eq name "trace-edge" then within name else elsewhere true;
  written =
      λ v name bytes l. record l { releases = set "1" (some ((name, bytes) ∷ [])) l.releases };
  parents_made = λ fault v name l. l;
}

release_verified : Manifest.verify semver crates release_envelope 1 ≡ ok release
unfolding Manifest.verify Manifest.check_schema Manifest.check_not_empty Manifest.check_artifacts
    Manifest.malformed_sha256 Manifest.parsed_version Manifest.parse_version
    Manifest.is_ascii_hexdigit Sign.verify Sign.map_err Sign.signature_bytes
release_verified = refl

release_only :
    (envelope : Sign.Envelope) (manifest : Manifest.Manifest)
    → source.fetch_manifest ≡ ok envelope
    → Manifest.verify semver crates envelope 1 ≡ ok manifest
    → manifest ≡ release
release_only envelope manifest fetched signed = ok_inj (
    sym (subst (λ e. Manifest.verify semver crates e 1 ≡ ok manifest) (sym (ok_inj fetched)) signed)
    ∙ release_verified)

paths-AreTidy : AreTidy semver sha256_hex crates 1 "pilot" "0" source box paths
paths-AreTidy envelope manifest x fetched signed listed = edge_named (
    subst (λ (m : Manifest.Manifest). Memᴰ x m.artifacts)
      (release_only envelope manifest fetched signed) listed)
  where
    edge_named : {x : Artifact} → Memᴰ x (edge ∷ []) → paths.join x.name ≡ within x.name
    edge_named (Memᴰ.head e) = rw e refl
    edge_named (Memᴰ.tail m) = elim m [ ]

update-Ends_example :
    Ends
      (Outcome semver sha256_hex crates 1 "pilot" "0" source box)
      (Failed semver sha256_hex crates 1 "pilot" "0" source box)
      (update semver paths sha256_hex crates 1 "pilot" "0" source probe
        (record { layout = box; faults = faults }))
update-Ends_example =
    update-Ends semver sha256_hex crates 1 "pilot" "0" source box semver-IsSemver paths
      paths-AreTidy probe faults

-- A name that leads elsewhere is written over the release that is current.
stray_name_overwrites :
    (write_artifact paths "2"
        (record edge { name = "../../releases/1/x" })
        (7 ∷ [])
        (record { layout = box; faults = [] })).0.layout.releases
      "1"
    ≡ some (("../../releases/1/x", 7 ∷ []) ∷ [])
unfolding write_artifact call
stray_name_overwrites = refl
