-- ===== src/Build/Stored.antt =====
-- What the builder's calls store, and what a processor has stored when it ends.
use modctl.Prelude.{
  inl, inr, Bool-cases, Result, [], ok, err, none, ℕ, ◌≡◌, refl, ◌∙◌, subst, Bool, true, false,
  Option, none, some, List, ◌∷◌, Text,
}
use mathlib.Core.List.{not-mem-nil, Perm, Mem, forall_mem-cons}
use mathlib.Core.List.Perm
use modctl.Artifact.{Descriptor}
use modctl.Retry.{retry}
use modctl.Retry.Rule.{retry_rule}
use modctl.Build.Builder.{Builder}
use modctl.Build.Process.{
  paths_to_build, ProcessError, all_built, dest_path, process, process_paths, build_all, built,
  Paths, Processor, with_layer,
}

-- What is in the place that a builder stores to, and the digest of the manifest that it stores.
pub record Contents (b : Builder) : Type 0 where
  pub has_blob : b.State → Text → Bool
  pub has_manifest : b.State → Text → Bool
  pub manifest_digest : List Descriptor → Descriptor → List (Text × Text) → Text

module _ {b : Builder} (c : Contents b) where
  abbrev pub BlobsKept : b.State → b.State → Type 0
  BlobsKept s t = (d : Text) → c.has_blob s d ≡ true → c.has_blob t d ≡ true

  -- No blob is lost, and no manifest comes or goes.
  pub record Kept (s t : b.State) : Type 0 where
    pub blobs : BlobsKept s t
    pub manifests : (d : Text) → c.has_manifest t d ≡ c.has_manifest s d

  -- A layer and a config that are built are stored; only `build_manifest` stores a manifest, and
  -- only the one that it is given.
  pub record Stores : Type 0 where
    pub layer_keeps :
        (s : b.State) (media_type path dest : Text)
        → Kept s (b.build_layer s media_type path dest).0
    pub layer_stores :
        (s : b.State) (media_type path dest : Text) (d : Descriptor)
        → (b.build_layer s media_type path dest).1 ≡ some d
        → c.has_blob (b.build_layer s media_type path dest).0 d.digest ≡ true
    pub config_keeps : (s : b.State) (m : _) → Kept s (b.build_config s m).0
    pub config_stores :
        (s : b.State) (m : _) (d : Descriptor)
        → (b.build_config s m).1 ≡ some d
        → c.has_blob (b.build_config s m).0 d.digest ≡ true
    pub manifest_keeps :
        (s : b.State) (ls : List Descriptor) (config : Descriptor) (a : List (Text × Text))
        → BlobsKept s (b.build_manifest s ls config a).0
    pub manifest_adds :
        (s : b.State) (ls : List Descriptor) (config : Descriptor) (a : List (Text × Text))
        (d : Text)
        → c.has_manifest s d ≡ false
        → c.has_manifest (b.build_manifest s ls config a).0 d ≡ true
        → d ≡ c.manifest_digest ls config a

  pub Kept-refl : (s : b.State) → Kept s s
  Kept-refl s = record { blobs = λ d h. h; manifests = λ d. refl }

  pub Kept-trans : {s t u : b.State} → Kept s t → Kept t u → Kept s u
  Kept-trans x y = record {
    blobs = λ d h. y.blobs d (x.blobs d h);
    manifests = λ d. y.manifests d ∙ x.manifests d;
  }

  abbrev pub AllThere : List Descriptor → b.State → Type 0
  AllThere ls t = (x : Descriptor) → Mem x ls → c.has_blob t x.digest ≡ true

  abbrev pub IsThere : b.State × Option Descriptor → Type 0
  IsThere p = (d : Descriptor) → p.1 ≡ some d → c.has_blob p.0 d.digest ≡ true

  -- The manifest of a digest is one whose layers and config are there.
  abbrev pub ManifestComplete : Text → b.State → Type 0
  ManifestComplete d t =
      (layers : List Descriptor) × (config : Descriptor) × (annotations : List (Text × Text)) × (d
        ≡ c.manifest_digest layers config annotations)
      × AllThere layers t
      × (c.has_blob t config.digest ≡ true)

  -- What a manifest, that was not there at first, tells of a state.
  abbrev pub LastOne : Text → b.State → Type 0
  LastOne d t = c.has_manifest t d ≡ true → ManifestComplete d t

  module _ (laws : Stores) (d : Text) (layers : List Descriptor)
      (annotations : List (Text × Text)) where
    -- The layers and the config are there, and a manifest of the digest is theirs.
    abbrev pub Ready : Descriptor → b.State → Type 0
    Ready config t =
        AllThere layers t
        × (c.has_blob t config.digest ≡ true)
        × (c.has_manifest t d ≡ true → d ≡ c.manifest_digest layers config annotations)

    pub manifest-Ready :
        (config : Descriptor) (t : b.State)
        → Ready config t
        → Ready config (b.build_manifest t layers config annotations).0
    manifest-Ready config t (there, has, old) = (
      λ x m. laws.manifest_keeps t layers config annotations x.digest (there x m),
      laws.manifest_keeps t layers config annotations config.digest has,
      λ new. elim (Bool-cases (c.has_manifest t d)) [
        | inl was ↦ old was
        | inr was ↦ laws.manifest_adds t layers config annotations d was new
      ],
    )

  -- A retried call that keeps what is there, and that stores what it yields, does so as a whole.
  pub retry-Kept :
      (again : b.State → Option Descriptor → Bool) (n : ℕ)
      (call : b.State → b.State × Option Descriptor) (s : b.State)
      → ((t : b.State) → Kept t (call t).0 × IsThere (call t))
      → Kept s (retry again n call s).0 × IsThere (retry again n call s)
  retry-Kept again n call s keeps =
      retry_rule again call (Kept s) (λ p. Kept s p.0 × IsThere p)
        (λ t h. (Kept-trans h (keeps t).0, (keeps t).1)) (λ t a e h. h.0) n s (Kept-refl s)

  module _ (laws : Stores) (ps : Paths) (again : b.State → Option Descriptor → Bool) (n : ℕ)
      (p : Processor) where
    abbrev pub LayersThere : b.State → b.State × Option (List Descriptor) → Type 0
    LayersThere s q = Kept s q.0 × ((ls : List Descriptor) → q.1 ≡ some ls → AllThere ls q.0)

    with_layer-LayersThere :
        (s : b.State) (q : b.State × Option Descriptor)
        (rest : b.State → b.State × Option (List Descriptor))
        → Kept s q.0
        → IsThere q
        → ((t : b.State) → LayersThere t (rest t))
        → LayersThere s (with_layer ps b again n q rest)
    unfolding with_layer
    with_layer-LayersThere s (t, none) rest k i more = (k, λ ls e. cc e)
    with_layer-LayersThere s (t, some d) rest k i more =
        (Kept-trans k (more t).0, ends (rest t) (more t))
      where
        ends :
            (q : b.State × Option (List Descriptor))
            → LayersThere t q
            → (ls : List Descriptor)
            → (elim q.1 [ none ↦ none | some ds ↦ some (d ∷ ds) ]) ≡ some ls
            → AllThere ls q.0
        ends (u, none) h ls e = cc e
        ends (u, some ds) h ls e =
            subst (λ l. AllThere l u) (some-injective e)
              ((forall_mem-cons (λ w. hlevel)).1 (h.0.blobs d.digest (i d refl), h.1 ds refl))
          where
            some-injective :
                ◌≡◌ {A = Option (List Descriptor)} (some (d ∷ ds)) (some ls) → (d ∷ ds) ≡ ls
            some-injective x = cc x

    built-IsThere :
        (path : Text) (s : b.State)
        → Kept s (built ps b again n p path s).0 × IsThere (built ps b again n p path s)
    unfolding built
    built-IsThere path s =
        retry-Kept again n (λ t. b.build_layer t p.media_type path (dest_path ps p.dest_dir path)) s
          (λ t. (
            laws.layer_keeps t p.media_type path (dest_path ps p.dest_dir path),
            laws.layer_stores t p.media_type path (dest_path ps p.dest_dir path),
          ))

    build_all-LayersThere :
        (paths : List Text) (s : b.State) → LayersThere s (build_all ps b again n p paths s)
    unfolding build_all
    build_all-LayersThere [] s =
        (Kept-refl s, λ ls e x m. absurd (not-mem-nil (subst (Mem x) (nothing ls e) m)))
      where
        nothing :
            (ls : List Descriptor)
            → ◌≡◌ {A = Option (List Descriptor)} (some []) (some ls)
            → ls ≡ []
        nothing ls e = cc e
    build_all-LayersThere (path ∷ paths) s =
        with_layer-LayersThere s (built ps b again n p path s) (build_all ps b again n p paths)
          (built-IsThere path s).0 (built-IsThere path s).1 (build_all-LayersThere paths)

    abbrev pub ProcessStored : b.State → b.State × Result ProcessError (List Descriptor) → Type 0
    ProcessStored s q = Kept s q.0 × ((ls : List Descriptor) → q.1 ≡ ok ls → AllThere ls q.0)

    module _ (schedule : List Text → List Text) (sort : List Descriptor → List Descriptor)
        (sorts : (ls : List Descriptor) → Perm (sort ls) ls) where
      all_built-ProcessStored :
          (s : b.State) (q : b.State × Option (List Descriptor))
          → LayersThere s q
          → ProcessStored s (all_built ps b again n sort q)
      unfolding all_built
      all_built-ProcessStored s (t, none) (k, there) = (k, λ ls e. cc e)
      all_built-ProcessStored s (t, some ds) (k, there) = (
        k,
        λ ls e x m. there ds refl x ((Perm.mem_iff (sorts ds)).0 (subst (Mem x) (sorted ls e) m)),
      )
        where
          sorted :
              (ls : List Descriptor)
              → ◌≡◌ {A = Result ProcessError (List Descriptor)} (ok (sort ds)) (ok ls)
              → ls ≡ sort ds
          sorted ls e = cc e

      process_paths-ProcessStored :
          (r : Result ProcessError (List Text)) (s : b.State)
          → ProcessStored s (process_paths ps b again n schedule sort p r s)
      unfolding process_paths
      process_paths-ProcessStored (err e) s = (Kept-refl s, λ ls h. cc h)
      process_paths-ProcessStored (ok paths) s =
          all_built-ProcessStored s (build_all ps b again n p (schedule paths) s)
            (build_all-LayersThere (schedule paths) s)

      -- A processor loses no blob, and has stored the layers that it yields.
      pub process-ProcessStored :
          (s : b.State) → ProcessStored s (process ps b again n schedule sort p s)
      unfolding process
      process-ProcessStored s = process_paths-ProcessStored (paths_to_build ps p.patterns) s
