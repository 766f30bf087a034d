-- ===== src/Push/Pushed.antt =====
-- What one call of `pushIfNotExist` keeps and brings into the registry.
use modctl.Prelude.{
  inl, inr, Bool-cases, if◌then◌else◌, ℕ, ◌≡◌, refl, ◌∙◌, Bool, true, false, Option, none, some,
  Text, and_then,
}
use modctl.Transfer.{Descriptor}
use modctl.Retry.{retry}
use modctl.Retry.Rule.{retry_rule}
use modctl.Push.{World, again, tag_fetched, content_pulled, existence_known, push_if_not_exist}

-- What is in the registry.
pub record Contents (w : World) : Type 0 where
  pub has_blob : w.State → Text → Bool
  pub has_manifest : w.State → Text → Bool

module _ {w : World} (c : Contents w) where
  abbrev pub BlobsKept : w.State → w.State → Type 0
  BlobsKept s t = (d : Text) → c.has_blob s d ≡ true → c.has_blob t d ≡ true

  -- No blob is lost, and no manifest comes or goes.
  pub record Kept (s t : w.State) : Type 0 where
    pub blobs : BlobsKept s t
    pub manifests : (d : Text) → c.has_manifest t d ≡ c.has_manifest s d

  -- What the code relies on: only the pushes store, each what it says, no call loses a blob, and
  -- the test whether a content is there tells the truth.
  pub record Laws : Type 0 where
    pub pull_manifest_keeps : (s : w.State) (t : Text) → Kept s (w.pull_manifest s t).0
    pub pull_blob_keeps : (s : w.State) (d : Text) → Kept s (w.pull_blob s d).0
    pub exists_keeps : (s : w.State) (d : Descriptor) → Kept s (w.exists s d).0
    pub fetch_keeps : (s : w.State) (t : Text) → Kept s (w.fetch_reference s t).0
    pub tag_keeps : (s : w.State) (d : Descriptor) (t : Text) → Kept s (w.tag s d t).0
    pub push_blob_keeps :
        (s : w.State) (d : Descriptor) (x : w.Content) → Kept s (w.push_blob s d x).0
    pub push_manifest_keeps :
        (s : w.State) (d : Descriptor) (raw : Text) → BlobsKept s (w.push_manifest s d raw).0
    pub blob_exists :
        (s : w.State) (d : Descriptor)
        → d.is_manifest ≡ false
        → (w.exists s d).1 ≡ some true
        → c.has_blob (w.exists s d).0 d.digest ≡ true
    pub manifest_exists :
        (s : w.State) (d : Descriptor)
        → d.is_manifest ≡ true
        → (w.exists s d).1 ≡ some true
        → c.has_manifest (w.exists s d).0 d.digest ≡ true
    pub push_blob_stores :
        (s : w.State) (d : Descriptor) (x : w.Content)
        → (w.push_blob s d x).1 ≡ true
        → c.has_blob (w.push_blob s d x).0 d.digest ≡ true
    pub push_manifest_stores :
        (s : w.State) (d : Descriptor) (raw : Text)
        → (w.push_manifest s d raw).1 ≡ true
        → c.has_manifest (w.push_manifest s d raw).0 d.digest ≡ true

  pub Kept-refl : (s : w.State) → Kept s s
  Kept-refl s = record { blobs = λ d h. h; manifests = λ d. refl }

  pub Kept-trans : {s t u : w.State} → Kept s t → Kept t u → Kept s u
  Kept-trans x y = record {
    blobs = λ d h. y.blobs d (x.blobs d h);
    manifests = λ d. y.manifests d ∙ x.manifests d;
  }

  -- A call that keeps all and, if it ends well, has the blob in the registry.
  abbrev pub PushesBlob : Text → w.State → w.State × Bool → Type 0
  PushesBlob d s p = Kept s p.0 × (p.1 ≡ true → c.has_blob p.0 d ≡ true)

  -- A call that loses no blob and, if it ends well, has the manifest in the registry.
  abbrev pub PushesManifest : Text → w.State → w.State × Bool → Type 0
  PushesManifest d s p = BlobsKept s p.0 × (p.1 ≡ true → c.has_manifest p.0 d ≡ true)

  module _ (laws : Laws) (tag raw : Text) (desc : Descriptor) where
    content_pulled-PushesBlob :
        (s : w.State) (q : w.State × Option w.Content)
        → Kept s q.0
        → PushesBlob desc.digest s (content_pulled w desc q)
    unfolding content_pulled
    content_pulled-PushesBlob s (t, none) k = (k, λ h. cc h)
    content_pulled-PushesBlob s (t, some x) k =
        (Kept-trans k (laws.push_blob_keeps t desc x), laws.push_blob_stores t desc x)

    blob_known-PushesBlob :
        (s : w.State) (q : w.State × Option Bool)
        → desc.is_manifest ≡ false
        → Kept s q.0
        → (q.1 ≡ some true → c.has_blob q.0 desc.digest ≡ true)
        → PushesBlob desc.digest s (existence_known w tag raw desc q)
    unfolding existence_known
    blob_known-PushesBlob s (t, none) b k old = (k, λ h. cc h)
    blob_known-PushesBlob s (t, some true) b k old = simp b (k, λ h. old refl)
    blob_known-PushesBlob s (t, some false) b k old = simp b (
        content_pulled-PushesBlob s (w.pull_blob t desc.digest)
          (Kept-trans k (laws.pull_blob_keeps t desc.digest)))

    pub push_if_not_exist-PushesBlob :
        desc.is_manifest ≡ false
        → (s : w.State) → PushesBlob desc.digest s (push_if_not_exist w tag raw desc s)
    unfolding push_if_not_exist
    push_if_not_exist-PushesBlob b s =
        blob_known-PushesBlob s (w.exists s desc) b (laws.exists_keeps s desc)
          (laws.blob_exists s desc b)

    tag_fetched-Kept : (q : w.State × Bool) → Kept q.0 (tag_fetched w tag desc q).0
    unfolding tag_fetched
    tag_fetched-Kept (t, true) = Kept-refl t
    tag_fetched-Kept (t, false) = laws.tag_keeps t desc tag

    tagged-PushesManifest :
        (s : w.State) (q : w.State × Bool)
        → PushesManifest desc.digest s q
        → PushesManifest desc.digest s (and_then q (λ t. w.tag t desc tag))
    tagged-PushesManifest s (t, false) h = h
    tagged-PushesManifest s (t, true) (k, there) =
        let tagged = laws.tag_keeps t desc tag in
        (λ d old. tagged.blobs d (k d old), λ done. tagged.manifests desc.digest ∙ there refl)

    manifest_known-PushesManifest :
        (s : w.State) (q : w.State × Option Bool)
        → desc.is_manifest ≡ true
        → Kept s q.0
        → (q.1 ≡ some true → c.has_manifest q.0 desc.digest ≡ true)
        → PushesManifest desc.digest s (existence_known w tag raw desc q)
    unfolding existence_known
    manifest_known-PushesManifest s (t, none) b k old = (k.blobs, λ h. cc h)
    manifest_known-PushesManifest s (t, some true) b k old =
        let fetched = laws.fetch_keeps t tag in
        let tagged = tag_fetched-Kept (w.fetch_reference t tag) in
        let all = Kept-trans k (Kept-trans fetched tagged) in
        simp b (
          all.blobs,
          λ done. tagged.manifests desc.digest ∙ fetched.manifests desc.digest ∙ old refl,
        )
    manifest_known-PushesManifest s (t, some false) b k old = simp b (
        tagged-PushesManifest s (w.push_manifest t desc raw) (
          λ d h. laws.push_manifest_keeps t desc raw d (k.blobs d h),
          laws.push_manifest_stores t desc raw,
        ))

    pub push_if_not_exist-PushesManifest :
        desc.is_manifest ≡ true
        → (s : w.State) → PushesManifest desc.digest s (push_if_not_exist w tag raw desc s)
    unfolding push_if_not_exist
    push_if_not_exist-PushesManifest b s =
        manifest_known-PushesManifest s (w.exists s desc) b (laws.exists_keeps s desc)
          (laws.manifest_exists s desc b)

    -- The same with the retries.
    pub retry-PushesBlob :
        (n : ℕ)
        → desc.is_manifest ≡ false
        → (s : w.State)
        → PushesBlob desc.digest s (retry (again w) n (push_if_not_exist w tag raw desc) s)
    retry-PushesBlob n b s =
        retry_rule (again w) (push_if_not_exist w tag raw desc) (Kept s) (PushesBlob desc.digest s)
          (λ t k. let once = push_if_not_exist-PushesBlob b t in (Kept-trans k once.0, once.1))
          (λ t a e h. h.0) n s (Kept-refl s)

    pub retry-PushesManifest :
        (n : ℕ)
        → desc.is_manifest ≡ true
        → (s : w.State)
        → PushesManifest desc.digest s (retry (again w) n (push_if_not_exist w tag raw desc) s)
    retry-PushesManifest n b s =
        retry_rule (again w) (push_if_not_exist w tag raw desc) (BlobsKept s)
          (PushesManifest desc.digest s)
          (λ t k.
            let once = push_if_not_exist-PushesManifest b t in (λ d h. once.0 d (k d h), once.1))
          (λ t a e h. h.0) n s (λ d h. h)

  -- What a push of a descriptor brings into the registry: a manifest, or a blob.
  abbrev pub Holds : Descriptor → w.State → Type 0
  Holds desc t =
      if desc.is_manifest
      then c.has_manifest t desc.digest ≡ true
      else c.has_blob t desc.digest ≡ true

  module _ (laws : Laws) (tag raw : Text) (desc : Descriptor) where
    -- Whichever it is, no blob is lost; a blob brings no manifest.
    pub retry-Holds :
        (n : ℕ) (s : w.State)
        → let q = retry (again w) n (push_if_not_exist w tag raw desc) s in
          BlobsKept s q.0 × (q.1 ≡ true → Holds desc q.0)
    retry-Holds n s = elim (Bool-cases desc.is_manifest) [
      | inl e ↦
          let (kept, there) = retry-PushesManifest laws tag raw desc n e s in
          (kept, λ done. simp e (there done))
      | inr e ↦
          let (kept, there) = retry-PushesBlob laws tag raw desc n e s in
          (kept.blobs, λ done. simp e (there done))
    ]
