-- ===== src/Transfer/Pulled.antt =====
-- What the calls of a pull keep and what they bring into the local storage.
use modctl.Prelude.{
  ℕ, ◌≡◌, refl, sym, ap, ◌∙◌, subst, inl, inr, Bool, true, false, Option, none, some, Bool-cases,
  &&-eq-true, Text, text_eq, text_eq_sound,
}
use modctl.Transfer.{
  Descriptor, Manifest, World, validate_digest, again, blob_stat, manifest_stat, manifest_read,
  content_fetched, pull_if_not_exist,
}
use modctl.Retry.{retry}
use modctl.Retry.Rule.{retry_rule}

module _ (w : World) where
  abbrev pub BlobsKept : w.State → w.State → Type 0
  BlobsKept s t = (d : Text) → w.has_blob s d ≡ true → w.has_blob t d ≡ true

  -- No blob is lost, and no manifest comes or goes.
  pub record Kept (s t : w.State) : Type 0 where
    pub blobs : BlobsKept s t
    pub manifests : (d : Text) → w.has_manifest t d ≡ w.has_manifest s d

  -- What the code relies on: only the pushes store, each what it says, no call loses a blob, and
  -- the two tests tell the truth. A manifest is stored under the digest of its content.
  pub record Laws : Type 0 where
    pub fetch_keeps : (s : w.State) (d : Descriptor) → Kept s (w.fetch s d).0
    pub reference_keeps : (s : w.State) (t : Text) → Kept s (w.fetch_reference s t).0
    pub read_keeps : (s : w.State) (c : w.Content) → Kept s (w.read_all s c).0
    pub stat_blob_keeps : (s : w.State) (d : Text) → Kept s (w.stat_blob s d).0
    pub stat_manifest_keeps : (s : w.State) (d : Text) → Kept s (w.stat_manifest s d).0
    pub push_blob_keeps :
        (s : w.State) (d : Descriptor) (c : w.Content) → Kept s (w.push_blob s d c).0
    pub push_manifest_keeps : (s : w.State) (t b : Text) → BlobsKept s (w.push_manifest s t b).0
    pub export_keeps : (s : w.State) (m : Manifest) → Kept s (w.export_model_artifact s m).0
    pub stat_blob_true :
        (s : w.State) (d : Text)
        → (w.stat_blob s d).1 ≡ some true
        → w.has_blob (w.stat_blob s d).0 d ≡ true
    pub push_blob_true :
        (s : w.State) (d : Descriptor) (c : w.Content)
        → (w.push_blob s d c).1 ≡ true
        → w.has_blob (w.push_blob s d c).0 d.digest ≡ true
    pub stat_manifest_true :
        (s : w.State) (d : Text)
        → (w.stat_manifest s d).1 ≡ some true
        → w.has_manifest (w.stat_manifest s d).0 d ≡ true
    pub push_manifest_true :
        (s : w.State) (c : w.Content) (t b : Text)
        → (w.read_all s c).1 ≡ some b
        → (w.push_manifest (w.read_all s c).0 t b).1 ≡ true
        → w.has_manifest (w.push_manifest (w.read_all s c).0 t b).0 (w.hash c) ≡ true

  pub Kept-refl : (s : w.State) → Kept s s
  Kept-refl s = record { blobs = λ d h. h; manifests = λ d. refl }

  pub Kept-trans : {a b c : w.State} → Kept a b → Kept b c → Kept a c
  Kept-trans x y = record {
    blobs = λ d h. y.blobs d (x.blobs d h);
    manifests = λ d. y.manifests d ∙ x.manifests d;
  }

  abbrev pub IsKeeping : (w.State → w.State × Bool) → Type 0
  IsKeeping call = (s : w.State) → Kept s (call s).0

  pub retry-IsKeeping :
      (n : ℕ) (call : w.State → w.State × Bool)
      → IsKeeping call
      → IsKeeping (retry (again w) n call)
  retry-IsKeeping n call k s =
      retry_rule (again w) call (Kept s) (λ p. Kept s p.0) (λ t h. Kept-trans h (k t))
        (λ t a e h. h) n s (Kept-refl s)

  -- What a call ends with, if it ends well.
  abbrev pub Ends : (w.State → Type 0) → w.State × Bool → Type 0
  Ends P p = p.1 ≡ true → P p.0

  pub retry-Ends :
      (P : w.State → Type 0) (n : ℕ) (call : w.State → w.State × Bool)
      → ((s : w.State) → Ends P (call s))
      → (s : w.State) → Ends P (retry (again w) n call s)
  retry-Ends P n call ends s =
      retry_rule (again w) call (λ t. Unit {0}) (Ends P) (λ t h. ends t) (λ t a e h. tt) n s tt

  abbrev pub Has : Text → w.State → Type 0
  Has d s = w.has_blob s d ≡ true

  module _ (laws : Laws) where
    blob_stat-Kept :
        (desc : Descriptor) (c : w.Content) (p : w.State × Option Bool)
        → Kept p.0 (blob_stat w desc c p).0
    unfolding blob_stat
    blob_stat-Kept desc c (s, none) = Kept-refl s
    blob_stat-Kept desc c (s, some true) = Kept-refl s
    blob_stat-Kept desc c (s, some false) = laws.push_blob_keeps s desc c

    blob_stat-Ends :
        (desc : Descriptor) (c : w.Content) (p : w.State × Option Bool)
        → (p.1 ≡ some true → Has desc.digest p.0)
        → Ends (Has desc.digest) (blob_stat w desc c p)
    unfolding blob_stat
    blob_stat-Ends desc c (s, none) old h = cc
    blob_stat-Ends desc c (s, some true) old h = old refl
    blob_stat-Ends desc c (s, some false) old h =
        laws.push_blob_true s desc c (&&-eq-true (w.push_blob s desc c).1 _ h).0

    fetched-Kept :
        (tag : Text) (desc : Descriptor) (p : w.State × Option w.Content)
        → desc.is_manifest ≡ false
        → Kept p.0 (content_fetched w tag desc p).0
    unfolding content_fetched
    fetched-Kept tag desc (s, none) m = Kept-refl s
    fetched-Kept tag desc (s, some c) m = simp m (
        Kept-trans (laws.stat_blob_keeps s desc.digest)
          (blob_stat-Kept desc c (w.stat_blob s desc.digest)))

    fetched-Ends :
        (tag : Text) (desc : Descriptor) (p : w.State × Option w.Content)
        → desc.is_manifest ≡ false
        → Ends (Has desc.digest) (content_fetched w tag desc p)
    unfolding content_fetched
    fetched-Ends tag desc (s, none) m = λ h. cc h
    fetched-Ends tag desc (s, some c) m =
        simp m
          (blob_stat-Ends desc c (w.stat_blob s desc.digest) (laws.stat_blob_true s desc.digest))

    -- A layer or a config: nothing is lost, no manifest is stored, and if the call ends well, then
    -- the blob is there.
    pub pull_if_not_exist-Kept :
        (tag : Text) (desc : Descriptor)
        → desc.is_manifest ≡ false
        → IsKeeping (pull_if_not_exist w tag desc)
    unfolding pull_if_not_exist
    pull_if_not_exist-Kept tag desc m s =
        Kept-trans (laws.fetch_keeps s desc) (fetched-Kept tag desc (w.fetch s desc) m)

    pub pull_if_not_exist-Ends :
        (tag : Text) (desc : Descriptor)
        → desc.is_manifest ≡ false
        → (s : w.State) → Ends (Has desc.digest) (pull_if_not_exist w tag desc s)
    unfolding pull_if_not_exist
    pull_if_not_exist-Ends tag desc m s = fetched-Ends tag desc (w.fetch s desc) m

    manifest_read-BlobsKept :
        (tag : Text) (desc : Descriptor) (c : w.Content) (p : w.State × Option Text)
        → BlobsKept p.0 (manifest_read w tag desc c p).0
    unfolding manifest_read
    manifest_read-BlobsKept tag desc c (s, none) d h = h
    manifest_read-BlobsKept tag desc c (s, some body) d h = laws.push_manifest_keeps s tag body d h

    manifest_stat-BlobsKept :
        (tag : Text) (desc : Descriptor) (c : w.Content) (p : w.State × Option Bool)
        → BlobsKept p.0 (manifest_stat w tag desc c p).0
    unfolding manifest_stat
    manifest_stat-BlobsKept tag desc c (s, none) d h = h
    manifest_stat-BlobsKept tag desc c (s, some true) d h = h
    manifest_stat-BlobsKept tag desc c (s, some false) d h =
        manifest_read-BlobsKept tag desc c (w.read_all s c) d ((laws.read_keeps s c).blobs d h)

    content_fetched-BlobsKept :
        (tag : Text) (desc : Descriptor) (p : w.State × Option w.Content)
        → BlobsKept p.0 (content_fetched w tag desc p).0
    unfolding content_fetched
    content_fetched-BlobsKept tag desc (s, none) d h = h
    content_fetched-BlobsKept tag desc (s, some c) d h = elim (Bool-cases desc.is_manifest) [
      | inl m ↦ simp m (
          manifest_stat-BlobsKept tag desc c (w.stat_manifest s desc.digest) d
            ((laws.stat_manifest_keeps s desc.digest).blobs d h))
      | inr m ↦ simp m (
          (blob_stat-Kept desc c (w.stat_blob s desc.digest)).blobs d
            ((laws.stat_blob_keeps s desc.digest).blobs d h))
    ]

    -- Any call of it loses no blob.
    pub pull_if_not_exist-BlobsKept :
        (tag : Text) (desc : Descriptor) (s : w.State)
        → BlobsKept s (pull_if_not_exist w tag desc s).0
    unfolding pull_if_not_exist
    pull_if_not_exist-BlobsKept tag desc s d h =
        content_fetched-BlobsKept tag desc (w.fetch s desc) d ((laws.fetch_keeps s desc).blobs d h)

    manifest_read-Ends :
        (tag : Text) (desc : Descriptor) (c : w.Content) (s : w.State) (p : w.State × Option Text)
        → w.read_all s c ≡ p
        → Ends (λ t. w.has_manifest t desc.digest ≡ true) (manifest_read w tag desc c p)
    unfolding manifest_read validate_digest
    manifest_read-Ends tag desc c s (t, none) e h = cc
    manifest_read-Ends tag desc c s (t, some body) e h =
        let (pushed, valid) = &&-eq-true (w.push_manifest t tag body).1 _ h in
        let digest =
          text_eq_sound desc.digest (w.hash c)
            (&&-eq-true _ (text_eq desc.digest (w.hash c)) valid).1 in
        subst (λ d. w.has_manifest (w.push_manifest t tag body).0 d ≡ true) (sym digest)
          (subst (λ q. w.has_manifest (w.push_manifest q tag body).0 (w.hash c) ≡ true)
            (ap (λ p. p.0) e)
            (laws.push_manifest_true s c tag body (ap (λ p. p.1) e)
              (subst (λ q. (w.push_manifest q tag body).1 ≡ true) (sym (ap (λ p. p.0) e)) pushed)))

    manifest_stat-Ends :
        (tag : Text) (desc : Descriptor) (c : w.Content) (p : w.State × Option Bool)
        → (p.1 ≡ some true → w.has_manifest p.0 desc.digest ≡ true)
        → Ends (λ t. w.has_manifest t desc.digest ≡ true) (manifest_stat w tag desc c p)
    unfolding manifest_stat
    manifest_stat-Ends tag desc c (s, none) old h = cc
    manifest_stat-Ends tag desc c (s, some true) old h = old refl
    manifest_stat-Ends tag desc c (s, some false) old h =
        manifest_read-Ends tag desc c s (w.read_all s c) refl h

    manifest_fetched-Ends :
        (tag : Text) (desc : Descriptor) (p : w.State × Option w.Content)
        → desc.is_manifest ≡ true
        → Ends (λ t. w.has_manifest t desc.digest ≡ true) (content_fetched w tag desc p)
    unfolding content_fetched
    manifest_fetched-Ends tag desc (s, none) m = λ h. cc h
    manifest_fetched-Ends tag desc (s, some c) m = simp m (
        manifest_stat-Ends tag desc c (w.stat_manifest s desc.digest)
          (laws.stat_manifest_true s desc.digest))

    -- A manifest is there, if the call for it ends well.
    pub pull_if_not_exist-HasManifest :
        (tag : Text) (desc : Descriptor)
        → desc.is_manifest ≡ true
        → (s : w.State)
        → Ends (λ t. w.has_manifest t desc.digest ≡ true) (pull_if_not_exist w tag desc s)
    unfolding pull_if_not_exist
    pull_if_not_exist-HasManifest tag desc m s = manifest_fetched-Ends tag desc (w.fetch s desc) m
