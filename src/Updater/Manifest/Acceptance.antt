-- ===== src/Updater/Manifest/Acceptance.antt =====
-- Which manifests an edge box accepts (`Manifest::verify`, crates/trace-updater/src/manifest.rs).
use traceability.Base.{
  ℕ, ◌≡◌, refl, ◌≤◌, ◌↔◌, inl, inr, true, false, List, [], ◌∷◌, ok, >>=-eq-ok, all, length,
  is_empty, All, Bool-cases, arith,
}
use traceability.Sign
use traceability.Sign.Envelopes.{map_err-eq-ok}
use traceability.Updater.Manifest.{
  signature, malformed_version, Artifact, Manifest, schema_version, Semver, is_ascii_hexdigit,
  malformed_sha256, check_artifacts, check_schema, check_not_empty, parse_version, parsed_version,
  verify,
}

-- A digest of 64 hexadecimal digits.
pub HasDigest : Artifact → Type 0
HasDigest a = (length a.sha256 ≡ 64) × (all is_ascii_hexdigit a.sha256 ≡ true)

malformed_sha256_iff : (a : Artifact) → (malformed_sha256 a ≡ false) ↔ HasDigest a
unfolding malformed_sha256 HasDigest
malformed_sha256_iff a =
    (λ h. (ground (arith, h), ground (arith, h)), λ (l, d). ground (arith, l, d))

check_artifacts_iff :
    (artifacts : List Artifact) (u : Unit {0})
    → (check_artifacts artifacts ≡ ok u) ↔ All HasDigest artifacts
unfolding check_artifacts
check_artifacts_iff [] u = (λ h. tt, λ a. refl)
check_artifacts_iff (a ∷ rest) u =
    (to (check_artifacts_iff rest u).0, from (check_artifacts_iff rest u).1)
  where
    to :
        (check_artifacts rest ≡ ok u → All HasDigest rest)
        → check_artifacts (a ∷ rest) ≡ ok u
        → All HasDigest (a ∷ rest)
    to all_rest h = elim (Bool-cases (malformed_sha256 a)) [
      | inl bad ↦ absurd (ground (arith, bad, h))
      | inr good ↦ ((malformed_sha256_iff a).0 good, all_rest (rw good at h))
    ]

    from :
        (All HasDigest rest → check_artifacts rest ≡ ok u)
        → All HasDigest (a ∷ rest)
        → check_artifacts (a ∷ rest) ≡ ok u
    from rest_all (d, ds) = rw ((malformed_sha256_iff a).1 d) (rest_all ds)

check_schema_iff : (n : ℕ) (u : Unit {0}) → (check_schema n ≡ ok u) ↔ (n ≤ schema_version)
unfolding check_schema
check_schema_iff n u = (λ h. ground (arith, h), λ h. ground (arith, h))

check_not_empty_iff :
    (artifacts : List Artifact) (u : Unit {0})
    → (check_not_empty artifacts ≡ ok u) ↔ (is_empty artifacts ≡ false)
unfolding check_not_empty
check_not_empty_iff artifacts u = (λ h. ground (arith, h), λ h. ground (arith, h))

module _ {Version : Type 0} (semver : Semver Version) where
  -- Signed by the key, of a schema this build supports, with at least one artifact, a digest of 64
  -- hexadecimal digits for every artifact, and a version that parses.
  abbrev pub IsAcceptable :
      {Key : Type 0} → Sign.Crates Key Manifest → Sign.Envelope → Key → Manifest → Type 0
  IsAcceptable c envelope key m =
      (Sign.verify c key envelope ≡ ok m)
      × (m.schema ≤ schema_version)
      × (is_empty m.artifacts ≡ false)
      × All HasDigest m.artifacts
      × ((v : Version) × (semver.parse m.version ≡ ok v))

  -- A manifest is accepted exactly if it was signed by the key, has a schema this build supports, at
  -- least one artifact, a digest of 64 hexadecimal digits for every artifact, and a version that parses.
  pub manifest_verify_iff :
      {Key : Type 0} (c : Sign.Crates Key Manifest) (envelope : Sign.Envelope) (key : Key)
      (m : Manifest)
      → (verify semver c envelope key ≡ ok m) ↔ IsAcceptable c envelope key m
  unfolding verify parsed_version parse_version
  manifest_verify_iff c envelope key m = (to, from)
    where
      to : verify semver c envelope key ≡ ok m → IsAcceptable c envelope key m
      to h =
          let (n, s, h1) = >>=-eq-ok (Sign.map_err signature (Sign.verify c key envelope)) _ h in
          let (u1, k, h2) = >>=-eq-ok (check_schema n.schema) _ h1 in
          let (u2, e, h3) = >>=-eq-ok (check_not_empty n.artifacts) _ h2 in
          let (u3, d, h4) = >>=-eq-ok (check_artifacts n.artifacts) _ h3 in
          let (v, p, h5) = >>=-eq-ok (parsed_version semver n) _ h4 in
          let same : n ≡ m = cc in
          let all : IsAcceptable c envelope key n = (
            (map_err-eq-ok signature (Sign.verify c key envelope)).0 s,
            (check_schema_iff n.schema u1).0 k,
            (check_not_empty_iff n.artifacts u2).0 e,
            (check_artifacts_iff n.artifacts u3).0 d,
            (v, (map_err-eq-ok (malformed_version n.version) (semver.parse n.version)).0 p),
          ) in
          rw same at all

      from : IsAcceptable c envelope key m → verify semver c envelope key ≡ ok m
      from (s, k, e, d, (v, p)) =
          rw
            (
              (map_err-eq-ok signature (Sign.verify c key envelope)).1 s,
              (check_schema_iff m.schema tt).1 k,
              (check_not_empty_iff m.artifacts tt).1 e,
              (check_artifacts_iff m.artifacts tt).1 d,
              (map_err-eq-ok (malformed_version m.version) (semver.parse m.version)).1 p,
            )
            refl
