-- ===== src/Updater/Apply/Staging.antt =====
-- What `stage` (crates/trace-updater/src/apply.rs) leaves.
use traceability.Base.{
  String, Bool, true, false, List, [], ◌∷◌, Option, some, ok, ◌≡◌, refl, sym, ap, ◌⊎◌, inl, inr,
  str_eq, str_eq_iff, take, Memᴰ, Bool-cases,
}
use mathlib.Core.Path.{subst}
use traceability.Core.Chain.{Bytes}
use traceability.Updater.Manifest.{Artifact, Manifest, staged_dir, staged_file, staged_parent}
use traceability.Updater.Apply.{
  ArtifactSource, keep, unchanged, files_of, put_file, verify_digest, write_at, write_artifact,
  write_artifacts, remove_staged, stage,
}
use traceability.Updater.Apply.Calls.{Dir, file, Layout, Paths, within, set}
use traceability.Updater.Apply.Steps.{
  Triple, then-Triple, weaken-Triple, bind-Triple, call-Triple, try_exists-Triple, lift-Triple,
}

module _ (sha256_hex : Bytes → Bytes) (manifest : Manifest) where
  -- The file of this name is an artifact of the manifest: it has the size and the digest that the
  -- manifest names for an artifact of the name.
  pub record IsVerified (name : String) (files : Dir) : Type 0 where
    pub bytes : Bytes
    pub artifact : Artifact
    pub listed : Memᴰ artifact manifest.artifacts
    pub named : artifact.name ≡ name
    pub found : file name files ≡ some bytes
    pub verified : verify_digest sha256_hex artifact bytes ≡ ok tt

  push-IsVerified :
      (name other : String) (bytes : Bytes) (files : Dir)
      → str_eq other name ≡ false
      → IsVerified name files
      → IsVerified name ((other, bytes) ∷ files)
  push-IsVerified name other bytes files d v = record {
    bytes = v.bytes;
    artifact = v.artifact;
    listed = v.listed;
    named = v.named;
    found = rw d v.found;
    verified = v.verified;
  }

  -- The artifacts that a condition selects are there.
  abbrev pub AreVerified : (Artifact → Type 0) → Dir → Type 0
  AreVerified D files = (x : Artifact) → D x → IsVerified x.name files

  module _ (paths : Paths)
      (tidy : (x : Artifact) → Memᴰ x manifest.artifacts → paths.join x.name ≡ within x.name)
      (Frame : Layout → Type 0) (v : String)
      (framed : (l : Layout) (files : String → Option Dir)
        → Frame l
        → Frame (record l { staging = files })) where
    abbrev Staged : (Artifact → Type 0) → Layout → Type 0
    Staged D l = Frame l × AreVerified D (files_of (l.staging v))

    set_same : {A : Type 0} (a : A) (m : String → A) → set v a m v ≡ a
    set_same a m = rw ((str_eq_iff v v).1 refl) refl

    -- Between the creation of a file and the end of the write, what other names hold.
    abbrev Others : (Artifact → Type 0) → Artifact → Layout → Type 0
    Others D a l =
        Frame l
        × ((x : Artifact)
            → D x
            → str_eq a.name x.name ≡ false
            → IsVerified x.name (files_of (l.staging v)))

    create-Others :
        (D : Artifact → Type 0) (a : Artifact) (l : Layout)
        → Staged D l
        → Others D a (put_file v a.name [] l)
    create-Others D a l (f, all) = (
      framed l _ f,
      λ x dx other.
          rw (set_same (some ((a.name, []) ∷ files_of (l.staging v))) l.staging)
            (push-IsVerified x.name a.name [] (files_of (l.staging v)) other (all x dx)),
    )

    write-Staged :
        (D : Artifact → Type 0) (a : Artifact) (bytes : Bytes) (l : Layout)
        → Memᴰ a manifest.artifacts
        → verify_digest sha256_hex a bytes ≡ ok tt
        → Others D a l
        → Staged (λ x. (x ≡ a) ⊎ D x) (put_file v a.name bytes l)
    write-Staged D a bytes l m d (f, others) = (
      framed l _ f,
      λ x which.
          rw (set_same (some ((a.name, bytes) ∷ files_of (l.staging v))) l.staging)
            (at_name x which),
    )
      where
        here :
            (x : Artifact)
            → a.name ≡ x.name
            → IsVerified x.name ((a.name, bytes) ∷ files_of (l.staging v))
        here x e = record {
          bytes = bytes;
          artifact = a;
          listed = m;
          named = e;
          found = rw ((str_eq_iff a.name x.name).1 e) refl;
          verified = d;
        }

        at_name :
            (x : Artifact)
            → (x ≡ a) ⊎ D x
            → IsVerified x.name ((a.name, bytes) ∷ files_of (l.staging v))
        at_name x (inl e) = here x (ap (λ (y : Artifact). y.name) (sym e))
        at_name x (inr dx) = elim (Bool-cases (str_eq a.name x.name)) [
          | inl same ↦ here x ((str_eq_iff a.name x.name).0 same)
          | inr other ↦
              push-IsVerified x.name a.name bytes (files_of (l.staging v)) other (others x dx other)
        ]

    write_within-Triple :
        (D : Artifact → Type 0) (a : Artifact) (bytes : Bytes)
        → Memᴰ a manifest.artifacts
        → verify_digest sha256_hex a bytes ≡ ok tt
        → Triple
            (Staged D)
            (write_at paths v a bytes (within a.name))
            (λ u. Staged (λ x. (x ≡ a) ⊎ D x))
            Frame
    write_within-Triple D a bytes m d =
        let After : Layout → Type 0 = Staged (λ x. (x ≡ a) ⊎ D x) in
        then-Triple (Staged D) (Staged D) (λ u. After) Frame _ _
          (call-Triple (Staged D) (Staged D) Frame (staged_parent v a.name) keep unchanged
            (λ l h. h) (λ n l h. h.0))
          (then-Triple (Staged D) (Others D a) (λ u. After) Frame _ _
            (call-Triple (Staged D) (Others D a) Frame (staged_file v a.name) (put_file v a.name [])
              unchanged (create-Others D a) (λ n l h. h.0))
            (then-Triple (Others D a) After (λ u. After) Frame _ _
              (call-Triple (Others D a) After Frame (staged_file v a.name) (put_file v a.name bytes)
                (λ n. put_file v a.name (take n bytes)) (λ l h. write-Staged D a bytes l m d h)
                (λ n l h. framed l _ h.0))
              (call-Triple After After Frame (staged_file v a.name) keep unchanged (λ l h. h)
                (λ n l h. h.0))))

    write-Triple :
        (D : Artifact → Type 0) (a : Artifact) (bytes : Bytes)
        → Memᴰ a manifest.artifacts
        → verify_digest sha256_hex a bytes ≡ ok tt
        → Triple
            (Staged D)
            (write_artifact paths v a bytes)
            (λ u. Staged (λ x. (x ≡ a) ⊎ D x))
            Frame
    unfolding write_artifact
    write-Triple D a bytes m d =
        subst
          (λ place.
            Triple (Staged D) (write_at paths v a bytes place) (λ u. Staged (λ x. (x ≡ a) ⊎ D x))
              Frame)
          (sym (tidy a m)) (write_within-Triple D a bytes m d)

    weaken-Staged :
        (D D' : Artifact → Type 0) (l : Layout)
        → ((x : Artifact) → D' x → D x)
        → Staged D l
        → Staged D' l
    weaken-Staged D D' l sub (f, all) = (f, λ x dx. all x (sub x dx))

    sorted :
        (D : Artifact → Type 0) (a : Artifact) (rest : List Artifact) (x : Artifact)
        → D x ⊎ Memᴰ x (a ∷ rest)
        → ((x ≡ a) ⊎ D x) ⊎ Memᴰ x rest
    sorted D a rest x (inl dx) = inl (inr dx)
    sorted D a rest x (inr (Memᴰ.head e)) = inl (inl e)
    sorted D a rest x (inr (Memᴰ.tail m)) = inr m

    writes-Triple :
        (D : Artifact → Type 0) (source : ArtifactSource) (rest : List Artifact)
        → ((x : Artifact) → Memᴰ x rest → Memᴰ x manifest.artifacts)
        → Triple
            (Staged D)
            (write_artifacts paths sha256_hex source v rest)
            (λ u. Staged (λ x. D x ⊎ Memᴰ x rest))
            Frame
    unfolding write_artifacts
    writes-Triple D source [] sub = λ w h.
        weaken-Staged D (λ x. D x ⊎ Memᴰ x []) w.layout
          (λ x. elim [ inl dx ↦ dx | inr m ↦ elim m [ ] ]) h
    writes-Triple D source (a ∷ rest) sub =
        let After : Layout → Type 0 = Staged (λ x. D x ⊎ Memᴰ x (a ∷ rest)) in
        let Written : Layout → Type 0 = Staged (λ x. (x ≡ a) ⊎ D x) in
        let later =
          weaken-Triple Written (λ u. Staged (λ x. ((x ≡ a) ⊎ D x) ⊎ Memᴰ x rest)) (λ u. After)
            Frame Frame (write_artifacts paths sha256_hex source v rest)
            (λ u l.
              weaken-Staged (λ x. ((x ≡ a) ⊎ D x) ⊎ Memᴰ x rest) (λ x. D x ⊎ Memᴰ x (a ∷ rest)) l
                (sorted D a rest))
            (λ l h. h)
            (writes-Triple (λ x. (x ≡ a) ⊎ D x) source rest (λ x m. sub x (Memᴰ.tail m))) in
        bind-Triple (Staged D) (λ bytes l. Staged D l × (source.fetch_artifact a ≡ ok bytes))
          (λ u. After) Frame _ _
          (lift-Triple (Staged D) Frame (source.fetch_artifact a) (λ l h. h.0))
          λ bytes.
            then-Triple (λ l. Staged D l × (source.fetch_artifact a ≡ ok bytes)) Written
              (λ u. After) Frame _ _
              (bind-Triple (λ l. Staged D l × (source.fetch_artifact a ≡ ok bytes))
                (λ u l.
                  (Staged D l × (source.fetch_artifact a ≡ ok bytes))
                  × (verify_digest sha256_hex a bytes ≡ ok u))
                (λ u. Written) Frame _ _
                (lift-Triple (λ l. Staged D l × (source.fetch_artifact a ≡ ok bytes)) Frame
                  (verify_digest sha256_hex a bytes) (λ l h. h.0.0))
                (λ u w h. write-Triple D a bytes (sub a (Memᴰ.head refl)) h.1 w h.0.0))
              later

    remove-Triple : (found : Bool) → Triple Frame (remove_staged v found) (λ u. Frame) Frame
    remove-Triple false = λ w h. h
    remove-Triple true =
        call-Triple Frame Frame Frame (staged_dir v) _ _ (λ l h. framed l _ h)
          (λ n l h. framed l _ h)

    -- Staging leaves every artifact of the manifest under its name, verified; whatever fails, it touches
    -- nothing but the staging directory.
    pub stage-Triple :
        (source : ArtifactSource)
        → Triple Frame
            (stage paths sha256_hex source manifest v)
            (λ u. Staged (λ x. Memᴰ x manifest.artifacts))
            Frame
    unfolding stage
    stage-Triple source =
        let After : Layout → Type 0 = Staged (λ x. Memᴰ x manifest.artifacts) in
        bind-Triple Frame (λ b. Frame) (λ u. After) Frame _ _ (try_exists-Triple Frame Frame _)
          λ found.
            then-Triple Frame Frame (λ u. After) Frame _ _ (remove-Triple found)
              (then-Triple Frame (Staged (λ x. ⊥)) (λ u. After) Frame _ _
                (call-Triple Frame (Staged (λ x. ⊥)) Frame (staged_dir v) _ unchanged
                  (λ l h. (framed l _ h, λ x dx. absurd dx)) (λ n l h. h))
                (weaken-Triple (Staged (λ x. ⊥)) (λ u. Staged (λ x. ⊥ ⊎ Memᴰ x manifest.artifacts))
                  (λ u. After) Frame Frame
                  (write_artifacts paths sha256_hex source v manifest.artifacts)
                  (λ u l.
                    weaken-Staged (λ x. ⊥ ⊎ Memᴰ x manifest.artifacts)
                      (λ x. Memᴰ x manifest.artifacts) l (λ x m. inr m))
                  (λ l h. h) (writes-Triple (λ x. ⊥) source manifest.artifacts (λ x m. m))))
