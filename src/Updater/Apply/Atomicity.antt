-- ===== src/Updater/Apply/Atomicity.antt =====
-- What an update (crates/trace-updater/src/apply.rs) leaves, whichever calls of the file system fail.
use traceability.Base.{
  ℕ, String, Option, none, some, ok, ◌≡◌, refl, sym, ap, ◌⊎◌, inl, inr, List, Bool-cases, Memᴰ,
}
use traceability.Core.Chain.{Bytes}
use traceability.Sign
use traceability.Updater.Manifest.{
  UpdateError, UpdatePath, Artifact, Manifest, Semver, UpdateDecision, install, up_to_date,
  not_in_cohort, decide, releases_dir, staging_dir, current_link,
}
use traceability.Updater.Manifest
use traceability.Updater.Apply.{
  UpdateOutcome, installed, already_up_to_date, held_back, rolled_back, HealthReport,
  ArtifactSource, HealthProbe, current, link_version, health_gate, roll_back, proceed, or_zero,
  update, stage, activate, keep, unchanged, files_of,
}
use traceability.Updater.Apply.Calls.{Dir, Layout, Paths, within, call, ◌>>=◌, lift}
use traceability.Updater.Apply.Steps.{
  Triple, Ends, then-Triple, bind-Triple, weaken-Triple, call-Triple, lift-Triple,
}
use traceability.Updater.Apply.Staging.{AreVerified, stage-Triple}
use traceability.Updater.Apply.Swap.{
  Before, After, IsFresh, Switched, outgoing_of, activate-Triple, replace_symlink-Triple,
  installed_version-Triple,
}
use traceability.Updater.Apply.Fresh.{IsSemver, link_version_cases, install-IsFresh}

module _ {Version : Type 0} (semver : Semver Version) where
  module _ {Key : Type 0} (sha256_hex : Bytes → Bytes) (c : Sign.Crates Key Manifest) (key : Key)
      (cohort : String) (zero : Version) (source : ArtifactSource) (before : Layout) where
    -- `current` names the release of `v`, which the source offers under the trusted key and the decision
    -- accepts over the release before it. Every artifact of its manifest is there with its digest, and the
    -- release before it is unchanged.
    pub record IsLive (v : Version) (l : Layout) : Type 0 where
      pub envelope : Sign.Envelope
      pub manifest : Manifest
      pub fetched : source.fetch_manifest ≡ ok envelope
      pub signed : Manifest.verify semver c envelope key ≡ ok manifest
      pub decided :
          decide semver manifest (or_zero semver zero (link_version semver before.current)) cohort
          ≡ ok (install v)
      pub swapped :
          After before.current before.releases
            (AreVerified sha256_hex manifest (λ x. Memᴰ x manifest.artifacts))
            (semver.to_string v)
            l

    abbrev pub IsUntouched : Layout → Type 0
    IsUntouched l = (l.current ≡ before.current) × (l.releases ≡ before.releases)

    abbrev pub IsRestored : Layout → Type 0
    IsRestored = Before before.current before.releases

    -- What each outcome says of the install root.
    abbrev pub Outcome : UpdateOutcome Version → Layout → Type 0
    Outcome (installed v replaced) l = IsLive v l
    Outcome (already_up_to_date v) l = IsUntouched l
    Outcome (held_back cohorts) l = IsUntouched l
    Outcome (rolled_back failed restored reason) l =
        IsRestored l × (before.current ≡ some (semver.to_string restored))

    -- An error leaves the release before, or the new one whole.
    abbrev pub Failed : Layout → Type 0
    Failed l = IsRestored l ⊎ ((v : Version) × IsLive v l)

    -- The name of every artifact that the source offers under the trusted key is a normal path from the
    -- directory of its release, without `..` and not absolute.
    abbrev pub AreTidy : Paths → Type 0
    AreTidy paths =
        (envelope : Sign.Envelope) (manifest : Manifest) (x : Artifact)
        → source.fetch_manifest ≡ ok envelope
        → Manifest.verify semver c envelope key ≡ ok manifest
        → Memᴰ x manifest.artifacts
        → paths.join x.name ≡ within x.name

    module _ (laws : IsSemver semver) (paths : Paths) (tidy : AreTidy paths) where
      as_it_was : (l : Layout) → IsUntouched l → IsRestored l
      as_it_was l (e, f) = (e, λ name named. ap (λ (g : String → Option Dir). g name) f)

      untouched : (l : Layout) → IsUntouched l → Failed l
      untouched l h = inl (as_it_was l h)

      unchanged-Triple :
          (path : UpdatePath)
          → Triple IsUntouched (call path keep unchanged) (λ u. IsUntouched) Failed
      unchanged-Triple path =
          call-Triple IsUntouched IsUntouched Failed path keep unchanged (λ l h. h) (λ n. untouched)

      abbrev from : Version
      from = or_zero semver zero (link_version semver before.current)

      module _ (envelope : Sign.Envelope) (manifest : Manifest) (target : Version)
          (fetched : source.fetch_manifest ≡ ok envelope)
          (signed : Manifest.verify semver c envelope key ≡ ok manifest)
          (decided : decide semver manifest from cohort ≡ ok (install target)) where
        abbrev Files : Dir → Type 0
        Files = AreVerified sha256_hex manifest (λ x. Memᴰ x manifest.artifacts)

        fresh : IsFresh before.current before.releases (semver.to_string target)
        fresh =
            install-IsFresh semver laws zero manifest cohort target before.current before.releases
              decided

        abbrev Live : Option Version → Layout → Type 0
        Live =
            Switched before.current before.releases Files (semver.to_string target) fresh semver
              from

        live : (out : Option Version) (l : Layout) → Live out l → IsLive target l
        live out l h = record {
          envelope = envelope;
          manifest = manifest;
          fetched = fetched;
          signed = signed;
          decided = decided;
          swapped = h.0;
        }

        restored_version :
            (found : Option Version) (v : Version) (zero : Version)
            → some v ≡ outgoing_of found (or_zero semver zero found)
            → found ≡ some v
        restored_version none v zero h = cc
        restored_version (some u) v zero h = cc

        -- The version that is gone back to is the one that was current.
        restored :
            (cur : Option String) (v : Version)
            → some v
              ≡ outgoing_of
                  (link_version semver cur)
                  (or_zero semver zero (link_version semver cur))
            → cur ≡ some (semver.to_string v)
        restored cur v h =
            link_version_cases semver laws cur v
              (restored_version (link_version semver cur) v zero h)

        roll_back-Triple :
            (reason : String) (out : Option Version)
            → Triple (Live out) (roll_back semver target reason out) Outcome Failed
        roll_back-Triple reason none = λ w h. inr (target, live none w.layout h)
        roll_back-Triple reason (some v) =
            then-Triple (Live (some v)) (Outcome (rolled_back target v reason)) Outcome Failed _ _
              (replace_symlink-Triple current (Live (some v)) Failed (λ b l h. h)
                (λ l h. inr (target, live (some v) l h)) (semver.to_string v)
                (Outcome (rolled_back target v reason))
                (λ l h.
                  ((sym (restored before.current v h.1), h.0.2), restored before.current v h.1)))
              (λ w h. h)

        health_gate-Triple :
            (out : Option Version) (report : HealthReport)
            → Triple (Live out) (health_gate semver target out report) Outcome Failed
        health_gate-Triple out report w h = elim (Bool-cases report.healthy) [
          | inl healthy ↦ rw healthy (live out w.layout h)
          | inr ill ↦ rw ill (roll_back-Triple report.detail out w h)
        ]

        install-Triple :
            (probe : HealthProbe)
            → Triple IsUntouched
                (proceed semver paths sha256_hex source probe manifest from (install target))
                Outcome
                Failed
        install-Triple probe =
            let t = semver.to_string target in
            let Staged : Layout → Type 0 = λ l. IsUntouched l × Files (files_of (l.staging t)) in
            bind-Triple IsUntouched Live Outcome Failed _ _
              (then-Triple IsUntouched Staged Live Failed (stage paths sha256_hex source manifest t)
                (activate semver target from)
                (weaken-Triple IsUntouched (λ u. Staged) (λ u. Staged) IsUntouched Failed
                  (stage paths sha256_hex source manifest t) (λ u l h. h) untouched
                  (stage-Triple sha256_hex manifest paths
                    (λ x m. tidy envelope manifest x fetched signed m) IsUntouched t
                    (λ l files h. h) source))
                (weaken-Triple Staged Live Live IsRestored Failed (activate semver target from)
                  (λ out l h. h) (λ l h. inl h)
                  (λ w h.
                    activate-Triple before.current before.releases Files t fresh semver target from
                      refl w (as_it_was w.layout h.0, h.1))))
              (λ out. health_gate-Triple out (probe manifest.health_deadline_secs))

      proceed-Triple :
          (envelope : Sign.Envelope) (manifest : Manifest) (probe : HealthProbe)
          (decision : UpdateDecision Version)
          → source.fetch_manifest ≡ ok envelope
          → Manifest.verify semver c envelope key ≡ ok manifest
          → decide semver manifest from cohort ≡ ok decision
          → Triple IsUntouched
              (proceed semver paths sha256_hex source probe manifest from decision)
              Outcome
              Failed
      proceed-Triple envelope manifest probe (install target) f s d =
          install-Triple envelope manifest target f s d probe
      proceed-Triple envelope manifest probe up_to_date f s d = λ w h. h
      proceed-Triple envelope manifest probe (not_in_cohort cohorts) f s d = λ w h. h

      abbrev Offered : Sign.Envelope → Type 0
      Offered envelope = source.fetch_manifest ≡ ok envelope

      abbrev Signed : Sign.Envelope → Manifest → Type 0
      Signed envelope manifest = Manifest.verify semver c envelope key ≡ ok manifest

      abbrev Known : Sign.Envelope → Manifest → Layout → Type 0
      Known envelope manifest l = (IsUntouched l × Offered envelope) × Signed envelope manifest

      decide-Triple :
          (envelope : Sign.Envelope) (manifest : Manifest) (probe : HealthProbe)
          → Triple
              (Known envelope manifest)
              (lift (decide semver manifest from cohort) >>= λ decision.
                proceed semver paths sha256_hex source probe manifest from decision)
              Outcome
              Failed
      decide-Triple envelope manifest probe =
          bind-Triple (Known envelope manifest)
            (λ d l. Known envelope manifest l × (decide semver manifest from cohort ≡ ok d)) Outcome
            Failed _ _
            (lift-Triple (Known envelope manifest) Failed (decide semver manifest from cohort)
              (λ l h. untouched l h.0.0))
            λ d w h. proceed-Triple envelope manifest probe d h.0.0.1 h.0.1 h.1 w h.0.0.0

      update-Triple :
          (probe : HealthProbe)
          → Triple IsUntouched
              (update semver paths sha256_hex c key cohort zero source probe)
              Outcome
              Failed
      unfolding update
      update-Triple probe =
          then-Triple IsUntouched IsUntouched Outcome Failed _ _ (unchanged-Triple releases_dir) (
            then-Triple IsUntouched IsUntouched Outcome Failed _ _ (unchanged-Triple staging_dir) (
              bind-Triple IsUntouched (λ e l. IsUntouched l × (source.fetch_manifest ≡ ok e))
                Outcome Failed _ _ (lift-Triple IsUntouched Failed source.fetch_manifest untouched)
                λ envelope.
                  bind-Triple (λ l. IsUntouched l × Offered envelope)
                    (λ m l. (IsUntouched l × Offered envelope) × Signed envelope m) Outcome Failed _
                    _
                    (lift-Triple (λ l. IsUntouched l × Offered envelope) Failed
                      (Manifest.verify semver c envelope key) (λ l h. untouched l h.0))
                    λ manifest.
                      bind-Triple (Known envelope manifest)
                        (λ found l.
                          Known envelope manifest l × (found ≡ link_version semver before.current))
                        Outcome Failed _ _
                        (installed_version-Triple semver (Known envelope manifest) Failed
                          before.current (λ l h. h.0.0.0) (λ l h. untouched l h.0.0))
                        λ found w h. rw h.1 (decide-Triple envelope manifest probe w h.0)))

      -- Where the name of every artifact offered under the trusted key is a normal path that stays in the
      -- directory of its release, whatever calls of the file system fail, an update ends as its outcome says, or with an error that
      -- leaves the release before current and unchanged, or the new one whole: `current` never names a
      -- release with a missing or an unverified artifact. Going back restores the release that was current.
      pub update-Ends :
          (probe : HealthProbe) (faults : List (Option ℕ))
          → Ends Outcome Failed (
              update semver paths sha256_hex c key cohort zero source probe
                (record { layout = before; faults = faults }))
      update-Ends probe faults =
          update-Triple probe (record { layout = before; faults = faults }) (refl, refl)
