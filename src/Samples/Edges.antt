-- ===== src/Samples/Edges.antt =====
-- Examples for the signed documents, the licence, the updater and the backoff.
use traceability.Base.{
  ℕ, ◌*◌, ◌^◌, ◌≤◌, ◌<◌, ltb, ◌==◌, true, false, List, [], ◌∷◌, none, some, ok, ◌≡◌, ◌↔◌, ◌⊎◌, refl,
  arith, pos, at_most,
}
use traceability.Core.Chain.{replicate}
use traceability.Sign
use traceability.License.Clockguard.{
  nanos, Call, observing, bumping, ClockGuard, num_seconds, observe, run, latest, run-high_water,
}
use traceability.License.Entitlement.{
  Entitlement, starter, default_limits, cloud_sync, restricted, LicenseStatus, has_feature,
  grace_end, status_at, enforcement_at, summary_at, num_days, evaluate, schema_version,
  check_schema, check_node, verify, day,
}
use traceability.License.Expiry.{
  grace_ends, licence_verify-panics_iff, observe-no_revival, MayUse, licence_verify_iff,
}
use traceability.Devices.Retry.{Backoff, min, ceiling}
use traceability.Devices.Retry.Schedule.{ceiling-closed_form}
use traceability.Updater.Manifest
use traceability.Updater.Manifest.{Artifact, Semver, install, in_cohort, decide}
use traceability.Updater.Manifest.Decision.{AtLeast, decide-install_iff}

-- Every text decodes to 64 zeros, every signature is good, and the document is a fixed one.
abbrev crates : {T : Type 0} → T → Sign.Crates ℕ T
crates doc = record {
  decode = λ s. ok (replicate 64 0);
  checks = λ key payload sig. true;
  from_slice = λ payload. ok doc;
}

abbrev envelope : Sign.Envelope
envelope = record { alg = "ed25519"; payload_b64 = "AA"; signature_b64 = "AA"; key_id = "k" }

abbrev licence : Entitlement
licence = record {
  schema = 1;
  license_id = "L";
  tenant_code = "T";
  node_id = some "box";
  tier = starter;
  limits = default_limits;
  features = cloud_sync ∷ [];
  issued_at = 0;
  not_before = 0;
  expires_at = 1000 * nanos;
  grace_days = 1;
  customer_name = "C";
}

abbrev max_utc : ℕ
max_utc = 10 ^ 30

abbrev late_guard : ClockGuard
late_guard = record { high_water = 2 * day; tolerance_secs = pos 300 }

abbrev status_on : ℕ → LicenseStatus
status_on now = record {
  entitlement = some licence;
  enforcement = enforcement_at licence (grace_ends licence) now;
  summary = summary_at licence (grace_ends licence) now;
  days_to_expiry = some (num_days licence.expires_at now);
}

evaluated : (now : ℕ) → evaluate max_utc licence now ≡ some (status_on now)
unfolding evaluate grace_end status_at
evaluated now = refl

-- The grace period ends after the year 262142, the last that chrono represents.
abbrev endless : Entitlement
endless = record licence { grace_days = 4000000000 }

licence_panics : verify (10 ^ 22) (crates endless) envelope 1 "box" 5 ≡ ok none
unfolding verify Sign.verify Sign.map_err Sign.signature_bytes check_schema check_node evaluate
    grace_end status_at
licence_panics = refl

licence_verify-panics_iff_example :
    (verify (10 ^ 22) (crates endless) envelope 1 "box" 5 ≡ ok none) ↔ (
      (ent : Entitlement) × (Sign.verify (crates endless) 1 envelope ≡ ok ent)
      × (ent.schema ≤ schema_version)
      × MayUse ent.node_id "box"
      × (10 ^ 22 < grace_ends ent))
licence_verify-panics_iff_example =
    licence_verify-panics_iff (10 ^ 22) (crates endless) envelope 1 "box" 5

wound_back_used : evaluate max_utc licence (observe late_guard 0).used ≡ some (status_on (2 * day))
unfolding observe at_most num_seconds
wound_back_used = evaluated (2 * day)

observe-no_revival_example :
    ((status_on (2 * day)).enforcement ≡ restricted)
    × (has_feature (status_on (2 * day)) cloud_sync ≡ false)
observe-no_revival_example =
    observe-no_revival max_utc licence late_guard 300 0 (status_on (2 * day)) cloud_sync refl
      (omega arith) wound_back_used

licence_verify_iff_example :
    (verify max_utc (crates licence) envelope 1 "box" 5 ≡ ok (some (status_on 5))) ↔ (
      (ent : Entitlement) × (Sign.verify (crates licence) 1 envelope ≡ ok ent)
      × (ent.schema ≤ schema_version)
      × MayUse ent.node_id "box"
      × (some (status_on 5) ≡ evaluate max_utc ent 5))
licence_verify_iff_example =
    licence_verify_iff max_utc (crates licence) envelope 1 "box" 5 (some (status_on 5))

abbrev calls : List Call
calls = observing 3 ∷ bumping (3 * day) ∷ observing 7 ∷ []

run-high_water_example :
    ((run late_guard calls).high_water ≡ latest (2 * day) calls)
    × ((run late_guard calls).tolerance_secs ≡ pos 300)
run-high_water_example = run-high_water late_guard calls

abbrev backoff : Backoff
backoff = record { initial = 250; max_delay = 30000; factor = 2; attempt = 3 }

ceiling-closed_form_example : ceiling backoff ≡ min (250 * 2 ^ 3) 30000
ceiling-closed_form_example = ceiling-closed_form backoff (omega arith) (omega arith)

-- Every text is version 2.
abbrev semver : Semver ℕ
semver = record { parse = λ s. ok 2; older = ltb; same = λ a b. a == b; to_string = λ v. "v" }

abbrev artifact : Artifact
artifact = record {
  name = "trace-edge";
  sha256 = replicate 64 b'0';
  size = 1;
  path = "trace-edge";
  delta_from = none;
}

abbrev release : Manifest.Manifest
release = record {
  schema = 1;
  version = "2";
  released_at = 0;
  notes = "";
  artifacts = artifact ∷ [];
  min_installed_version = none;
  rollback = false;
  cohorts = "pilot" ∷ [];
  health_deadline_secs = 120;
}

decide-install_iff_example : (decide semver release 1 "pilot" ≡ ok (install 2)) ↔ (
    (in_cohort semver release.cohorts "pilot" ≡ true)
    × (semver.parse release.version ≡ ok 2)
    × AtLeast semver 1 none
    × ((2 == 1) ≡ false)
    × ((ltb 2 1 ≡ false) ⊎ (release.rollback ≡ true)))
decide-install_iff_example = decide-install_iff semver release 1 "pilot" 2
