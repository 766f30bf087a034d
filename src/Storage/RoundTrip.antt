-- ===== src/Storage/RoundTrip.antt =====
-- What `PullManifest` finds behind a `PushManifest`.
use modctl.Prelude.{
  sym, none, then_with-eq-some, ◌≡◌, refl, ◌∙◌, subst, inl, inr, Bool, true, false, ◌&&◌, Option,
  none, some, arith, if◌then◌else◌, Bool-cases, Text, text_eq, text_eq_refl,
}
use modctl.Build.{Bytes}
use modctl.Storage.{
  mounted, known, mounted, digest_if, manifest_unmarshalled, push_manifest, Library, repository,
  payload_read, tag_found, pull_manifest,
}

-- Two tags of two repositories are one.
abbrev pub same_tag : Text → Text → Text → Text → Bool
same_tag repo reference repo' reference' = text_eq repo repo' && text_eq reference reference'

module _ (lib : Library) where
  -- The tags are those of another state, its manifests can still be read, and its blobs are known.
  pub record Extends (s t : lib.State) : Type 0 where
    pub tags : (repo tag : Text) → lib.tag_get t repo tag ≡ lib.tag_get s repo tag
    pub manifests :
        (repo digest : Text) (content : Bytes)
        → lib.manifest_get s repo digest ≡ some content
        → lib.manifest_get t repo digest ≡ some content
    pub blobs :
        (repo digest : Text)
        → lib.blob_stat s repo digest ≡ known
        → lib.blob_stat t repo digest ≡ known

  -- What the library promises: a manifest is put under the digest of its descriptor, a tag is set
  -- alone, and a blob is mounted beside the rest, where it then is known.
  pub record Laws : Type 0 where
    pub put_extends :
        (s : lib.State) (repo : Text) (m : Bytes) → Extends s (lib.manifest_put s repo m).0
    pub put_gets :
        (s : lib.State) (repo : Text) (m : Bytes) (digest : Text)
        → (lib.manifest_put s repo m).1 ≡ some digest
        → (lib.unmarshal_manifest m ≡ some digest)
          × (lib.manifest_get (lib.manifest_put s repo m).0 repo digest ≡ some m)
    pub set_gets :
        (s : lib.State) (repo tag digest repo' tag' : Text)
        → (lib.tag_set s repo tag digest).1 ≡ true
        → lib.tag_get (lib.tag_set s repo tag digest).0 repo' tag'
          ≡ (if same_tag repo tag repo' tag' then some digest else lib.tag_get s repo' tag')
    pub set_keeps :
        (s : lib.State) (repo tag digest repo' digest' : Text) (content : Bytes)
        → lib.manifest_get s repo' digest' ≡ some content
        → lib.manifest_get (lib.tag_set s repo tag digest).0 repo' digest' ≡ some content
    pub set_keeps_blob :
        (s : lib.State) (repo tag digest repo' digest' : Text)
        → lib.blob_stat s repo' digest' ≡ known
        → lib.blob_stat (lib.tag_set s repo tag digest).0 repo' digest' ≡ known
    pub mount_extends :
        (s : lib.State) (from_repo to_repo digest : Text)
        → Extends s (lib.blob_mount s from_repo to_repo digest).0
    pub mount_gets :
        (s : lib.State) (from_repo to_repo digest name digest' : Text)
        → (lib.blob_mount s from_repo to_repo digest).1 ≡ mounted name digest'
        → lib.blob_stat (lib.blob_mount s from_repo to_repo digest).0 to_repo digest' ≡ known

  pub Extends-refl : (s : lib.State) → Extends s s
  Extends-refl s = record {
    tags = λ repo tag. refl;
    manifests = λ repo digest m h. h;
    blobs = λ repo digest h. h;
  }

  pub Extends-trans : {s t u : lib.State} → Extends s t → Extends t u → Extends s u
  Extends-trans x y = record {
    tags = λ repo tag. y.tags repo tag ∙ x.tags repo tag;
    manifests = λ repo digest m h. y.manifests repo digest m (x.manifests repo digest m h);
    blobs = λ repo digest h. y.blobs repo digest (x.blobs repo digest h);
  }

  -- A pull reads the tag and then the manifest.
  pulled_by :
      (s : lib.State) (repo reference digest : Text) (content : Bytes)
      → repository lib repo ≡ true
      → lib.open_manifests repo ≡ true
      → lib.tag_get s repo reference ≡ some digest
      → lib.manifest_get s repo digest ≡ some content
      → pull_manifest lib s repo reference ≡ some (content, digest)
  unfolding pull_manifest tag_found payload_read
  pulled_by s repo reference digest content open_repo open_service tagged got =
      rw (open_repo, open_service, tagged, got) refl

  found_by :
      (s : lib.State) (repo reference : Text) (x : Bytes × Text) (o : Option Text)
      → tag_found lib s repo o ≡ some x
      → (o ≡ some x.1) × (lib.manifest_get s repo x.1 ≡ some x.0)
  unfolding tag_found payload_read
  found_by s repo reference x none h = cc h
  found_by s repo reference x (some digest) h = payload (lib.manifest_get s repo digest) refl h
    where
      payload :
          (o : Option Bytes)
          → lib.manifest_get s repo digest ≡ o
          → payload_read lib digest o ≡ some x
          → ◌≡◌ {A = Option Text} (some digest) (some x.1)
            × (lib.manifest_get s repo x.1 ≡ some x.0)
      payload none e q = cc q
      payload (some m) e q =
          subst
            (λ (y : Bytes × Text).
              ◌≡◌ {A = Option Text} (some digest) (some y.1)
              × (lib.manifest_get s repo y.1 ≡ some y.0))
            (whole m q) (refl, e)
        where
          whole :
              (m : Bytes)
              → ◌≡◌ {A = Option (Bytes × Text)} (some (m, digest)) (some x)
              → (m, digest) ≡ x
          whole m q = cc q

  -- The four things that a pull that ends well has found.
  abbrev Readable : lib.State → Text → Text → Bytes × Text → Type 0
  Readable s repo reference x =
      (repository lib repo ≡ true)
      × (lib.open_manifests repo ≡ true)
      × (lib.tag_get s repo reference ≡ some x.1)
      × (lib.manifest_get s repo x.1 ≡ some x.0)

  pull-Readable :
      (s : lib.State) (repo reference : Text) (x : Bytes × Text)
      → pull_manifest lib s repo reference ≡ some x
      → Readable s repo reference x
  unfolding pull_manifest
  pull-Readable s repo reference x h = elim (Bool-cases (repository lib repo)) [
    | inl r ↦ elim (Bool-cases (lib.open_manifests repo)) [
      | inl o ↦
          let found =
            found_by s repo reference x (lib.tag_get s repo reference) (ground (arith, h)) in
          (r, o, found.0, found.1)
      | inr o ↦ cc (rw (r, o) at h)
    ]
    | inr r ↦ cc (rw r at h)
  ]

  -- What is pulled before a state is extended is pulled after it.
  pub Extends-pull_manifest :
      (s t : lib.State) (repo reference : Text) (x : Bytes × Text)
      → Extends s t
      → pull_manifest lib s repo reference ≡ some x
      → pull_manifest lib t repo reference ≡ some x
  Extends-pull_manifest s t repo reference x more h =
      let (r, o, tagged, got) = pull-Readable s repo reference x h in
      pulled_by t repo reference x.1 x.0 r o (more.tags repo reference ∙ tagged)
        (more.manifests repo x.1 x.0 got)

  module _ (laws : Laws) (repo reference : Text) where
    -- After the push of a manifest under a tag, this tag gives it, each other tag what it gave, and
    -- the blobs are known.
    abbrev pub PushedTo : lib.State → Bytes → lib.State → Text → Type 0
    PushedTo s content t digest =
        (pull_manifest lib t repo reference ≡ some (content, digest))
        × ((repo' reference' : Text) (x : Bytes × Text)
            → same_tag repo reference repo' reference' ≡ false
            → pull_manifest lib s repo' reference' ≡ some x
            → pull_manifest lib t repo' reference' ≡ some x)
        × ((repo' digest' : Text)
            → lib.blob_stat s repo' digest' ≡ known
            → lib.blob_stat t repo' digest' ≡ known)

    set-PushedTo :
        (s u : lib.State) (content : Bytes) (digest : Text)
        → repository lib repo ≡ true
        → lib.open_manifests repo ≡ true
        → Extends s u
        → lib.manifest_get u repo digest ≡ some content
        → (lib.tag_set u repo reference digest).1 ≡ true
        → PushedTo s content (lib.tag_set u repo reference digest).0 digest
    set-PushedTo s u content digest r o more got done =
        let t = (lib.tag_set u repo reference digest).0 in
        (
          pulled_by t repo reference digest content r o
              (laws.set_gets u repo reference digest repo reference done
                ∙ ground (arith, text_eq_refl repo, text_eq_refl reference))
              (laws.set_keeps u repo reference digest repo digest content got),
          λ repo' reference' x other h.
              let (r', o', tagged, got') = pull-Readable s repo' reference' x h in
              pulled_by t repo' reference' x.1 x.0 r' o'
                (laws.set_gets u repo reference digest repo' reference' done
                  ∙ (rw other (more.tags repo' reference' ∙ tagged)))
                (laws.set_keeps u repo reference digest repo' x.1 x.0
                  (more.manifests repo' x.1 x.0 got')),
          λ repo' digest' h.
              laws.set_keeps_blob u repo reference digest repo' digest'
                (more.blobs repo' digest' h),
        )

    digest_if-PushedTo :
        (s u : lib.State) (content : Bytes) (described put digest : Text)
        → repository lib repo ≡ true
        → lib.open_manifests repo ≡ true
        → Extends s u
        → described ≡ put
        → lib.manifest_get u repo put ≡ some content
        → (digest_if lib put (lib.tag_set u repo reference described)).1 ≡ some digest
        → PushedTo s content (digest_if lib put (lib.tag_set u repo reference described)).0 digest
    unfolding digest_if
    digest_if-PushedTo s u content described put digest r o more same got h =
        subst
          (λ x.
            (digest_if lib put (lib.tag_set u repo reference x)).1 ≡ some digest
            → PushedTo s content (digest_if lib put (lib.tag_set u repo reference x)).0 digest)
          (sym same)
          (λ h.
            of_result (lib.tag_set u repo reference put) (set-PushedTo s u content put r o more got)
              h)
          h
      where
        of_result :
            (q : lib.State × Bool)
            → (q.1 ≡ true → PushedTo s content q.0 put)
            → (digest_if lib put q).1 ≡ some digest
            → PushedTo s content (digest_if lib put q).0 digest
        of_result (t, true) set h = subst (PushedTo s content t) (one h) (set refl)
          where
            one : ◌≡◌ {A = Option Text} (some put) (some digest) → put ≡ digest
            one q = cc q
        of_result (t, false) set h = cc h

    unmarshalled-PushedTo :
        (s : lib.State) (content : Bytes) (digest : Text) (o : Option Text)
        → repository lib repo ≡ true
        → lib.open_manifests repo ≡ true
        → lib.unmarshal_manifest content ≡ o
        → (manifest_unmarshalled lib s repo reference content o).1 ≡ some digest
        → PushedTo s content (manifest_unmarshalled lib s repo reference content o).0 digest
    unfolding manifest_unmarshalled
    unmarshalled-PushedTo s content digest none r o e h = cc h
    unmarshalled-PushedTo s content digest (some described) r o e h =
        let q = lib.manifest_put s repo content in
        let next = λ (put : Text) (t : lib.State).
          digest_if lib put (lib.tag_set t repo reference described) in
        let (put, done, same) = then_with-eq-some q next h in
        let (is_put, got) = laws.put_gets s repo content put done in
        let agree : described ≡ put = cc (e, is_put) in
        subst (λ p. PushedTo s content p.0 digest) (sym same)
          (digest_if-PushedTo s q.0 content described put digest r o
            (laws.put_extends s repo content) agree got (subst (λ p. p.1 ≡ some digest) same h))

    -- If `PushManifest` ends well, then `PullManifest` of its tag yields the bytes that were pushed,
    -- with the digest that the push told, and of every other tag what it yielded before; and each blob
    -- that was known is known.
    pub pull-push_manifest :
        (s : lib.State) (content : Bytes) (digest : Text)
        → (push_manifest lib s repo reference content).1 ≡ some digest
        → PushedTo s content (push_manifest lib s repo reference content).0 digest
    unfolding push_manifest
    pull-push_manifest s content digest h = elim (Bool-cases (repository lib repo)) [
      | inl r ↦ elim (Bool-cases (lib.open_manifests repo)) [
        | inl o ↦
            simp (r, o)
              (unmarshalled-PushedTo s content digest (lib.unmarshal_manifest content) r o refl
                (simp (r, o) at h))
        | inr o ↦ cc
      ]
      | inr r ↦ cc (simp r at h)
    ]
