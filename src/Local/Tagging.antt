-- ===== src/Local/Tagging.antt =====
-- `Tag` makes a complete artifact of the target: its manifest, its blobs, and nothing lost.
use modctl.Prelude.{
  ◌≡◌, refl, subst, inl, inr, true, Option, none, some, List, [], ◌∷◌, Text, Bool-cases, text_eq,
  text_eq_sound, and_then-eq-ok, sym,
}
use mathlib.Core.List.{Mem, forall_mem-cons, not-mem-nil}
use modctl.Artifact.{Descriptor, Manifest}
use modctl.Build.{Bytes}
use modctl.Storage.{
  Library, MountResult, writer, mounted, mount_failed, known, repository, mount_checked, mount_blob,
  pull_manifest, push_manifest,
}
use modctl.Storage.RoundTrip.{
  Laws, Extends, Extends-refl, Extends-trans, Extends-pull_manifest, PushedTo, pull-push_manifest,
}
use modctl.Local.{Reference, mount_all, is_pushed, manifest_tagged, source_pulled, tag}

module _ (lib : Library) (laws : Laws lib) where
  checked :
      (from_repo digest : Text) (q : lib.State × MountResult)
      → (mount_checked lib from_repo digest q).1 ≡ true
      → ((mount_checked lib from_repo digest q).0 ≡ q.0)
        × ((name : Text) × (q.1 ≡ mounted name digest))
  unfolding mount_checked
  checked from_repo digest (s, writer) h = cc h
  checked from_repo digest (s, mount_failed) h = cc h
  checked from_repo digest (s, mounted name d) h = elim (Bool-cases (text_eq d digest)) [
    | inl same ↦ (rw same refl, (name, cc (text_eq_sound d digest same)))
    | inr differ ↦ cc (simp differ at h)
  ]

  -- A blob that is mounted is known.
  abbrev Mounted : lib.State → Text → Text → lib.State → Type 0
  Mounted s to_repo digest t = Extends lib s t × (lib.blob_stat t to_repo digest ≡ known)

  checked-Mounted :
      (s : lib.State) (from_repo to_repo digest : Text)
      → (mount_checked lib from_repo digest (lib.blob_mount s from_repo to_repo digest)).1 ≡ true
      → Mounted s to_repo digest
          (mount_checked lib from_repo digest (lib.blob_mount s from_repo to_repo digest)).0
  checked-Mounted s from_repo to_repo digest h =
      let (left, (name, is_mounted)) =
        checked from_repo digest (lib.blob_mount s from_repo to_repo digest) h in
      subst (Mounted s to_repo digest) (sym left) (
        laws.mount_extends s from_repo to_repo digest,
        laws.mount_gets s from_repo to_repo digest name digest is_mounted,
      )

  mount_blob-Mounted :
      (s : lib.State) (from_repo to_repo digest : Text)
      → (mount_blob lib s from_repo to_repo digest).1 ≡ true
      → Mounted s to_repo digest (mount_blob lib s from_repo to_repo digest).0
  unfolding mount_blob
  mount_blob-Mounted s from_repo to_repo digest h = elim (Bool-cases (repository lib to_repo)) [
    | inl r ↦ elim (Bool-cases (lib.parse_named from_repo)) [
      | inl p ↦ elim (Bool-cases (lib.is_digest digest)) [
        | inl d ↦ simp (r, p, d) (checked-Mounted s from_repo to_repo digest (simp (r, p, d) at h))
        | inr d ↦ cc (rw (r, p, d) at h)
      ]
      | inr p ↦ cc (rw (r, p) at h)
    ]
    | inr r ↦ cc (simp r at h)
  ]

  abbrev AllMounted : lib.State → Text → List Descriptor → lib.State → Type 0
  AllMounted s to_repo ls t =
      Extends lib s t × ((l : Descriptor) → Mem l ls → lib.blob_stat t to_repo l.digest ≡ known)

  mount_all-AllMounted :
      (from_repo to_repo : Text) (ls : List Descriptor) (s : lib.State)
      → (mount_all lib from_repo to_repo ls s).1 ≡ true
      → AllMounted s to_repo ls (mount_all lib from_repo to_repo ls s).0
  unfolding mount_all
  mount_all-AllMounted from_repo to_repo [] s h =
      (Extends-refl lib s, λ l m. absurd (not-mem-nil m))
  mount_all-AllMounted from_repo to_repo (l ∷ ls) s h =
      let p = mount_blob lib s from_repo to_repo l.digest in
      let next = mount_all lib from_repo to_repo ls in
      let (done, same) = and_then-eq-ok p next h in
      let (extends, stored) = mount_blob-Mounted s from_repo to_repo l.digest done in
      let (later, rest) =
        mount_all-AllMounted from_repo to_repo ls p.0 (subst (λ q. q.1 ≡ true) same h) in
      subst (λ q. AllMounted s to_repo (l ∷ ls) q.0) (sym same)
        (
          Extends-trans lib extends later,
          (forall_mem-cons (λ x. hlevel)).1 (later.blobs to_repo l.digest stored, rest),
        )

  module _ (unmarshal : Bytes → Option Manifest) (source target : Reference) where
    -- The manifest of the source stands under the target, all of its blobs are known there, and the
    -- rest is as it was.
    abbrev pub IsTagged : lib.State → lib.State → Type 0
    IsTagged s t =
        (raw : Bytes) × (digest : Text) × (m : Manifest) × (stored : Text) × (pull_manifest lib s
            source.repository source.tag
          ≡ some (raw, digest))
        × (unmarshal raw ≡ some m)
        × ((l : Descriptor)
            → Mem l (m.config ∷ m.layers)
            → lib.blob_stat t target.repository l.digest ≡ known)
        × PushedTo lib laws target.repository target.tag s raw t stored

    pushed :
        (raw : Bytes) (u : lib.State)
        → (is_pushed lib (push_manifest lib u target.repository target.tag raw)).1 ≡ true
        → (stored : Text) × PushedTo lib laws target.repository target.tag u raw
            (is_pushed lib (push_manifest lib u target.repository target.tag raw)).0
            stored
    unfolding is_pushed
    pushed raw u h =
        go (push_manifest lib u target.repository target.tag raw)
          (pull-push_manifest lib laws target.repository target.tag u raw) h
      where
        go :
            (q : lib.State × Option Text)
            → ((d : Text)
                → q.1 ≡ some d
                → PushedTo lib laws target.repository target.tag u raw q.0 d)
            → (is_pushed lib q).1 ≡ true
            → (stored : Text) × PushedTo lib laws target.repository target.tag u raw
                (is_pushed lib q).0
                stored
        go (t, none) end h = cc h
        go (t, some d) end h = (d, end d refl)

    -- What is pushed over a state that extends another is pushed over this.
    PushedTo-Extends :
        (s u t : lib.State) (raw : Bytes) (stored : Text)
        → Extends lib s u
        → PushedTo lib laws target.repository target.tag u raw t stored
        → PushedTo lib laws target.repository target.tag s raw t stored
    PushedTo-Extends s u t raw stored more (now, others, blobs) = (
      now,
      λ repo reference x other h.
          others repo reference x other (Extends-pull_manifest lib s u repo reference x more h),
      λ repo digest h. blobs repo digest (more.blobs repo digest h),
    )

    manifest_tagged-IsTagged :
        (s : lib.State) (raw : Bytes) (digest : Text) (o : Option Manifest)
        → pull_manifest lib s source.repository source.tag ≡ some (raw, digest)
        → unmarshal raw ≡ o
        → (manifest_tagged lib unmarshal source target raw o s).1 ≡ true
        → IsTagged s (manifest_tagged lib unmarshal source target raw o s).0
    unfolding manifest_tagged
    manifest_tagged-IsTagged s raw digest none pulled read h = cc h
    manifest_tagged-IsTagged s raw digest (some m) pulled read h =
        let p = mount_all lib source.repository target.repository (m.config ∷ m.layers) s in
        let next =
          λ (t : lib.State). is_pushed lib (push_manifest lib t target.repository target.tag raw) in
        let (done, same) = and_then-eq-ok p next h in
        let (more, all) =
          mount_all-AllMounted source.repository target.repository (m.config ∷ m.layers) s done in
        let (stored, end) = pushed raw p.0 (subst (λ q. q.1 ≡ true) same h) in
        subst (λ q. IsTagged s q.0) (sym same)
          (
            raw,
            digest,
            m,
            stored,
            pulled,
            read,
            λ l i. end.2 target.repository l.digest (all l i),
            PushedTo-Extends s p.0 (next p.0).0 raw stored more end,
          )

    source_pulled-IsTagged :
        (s : lib.State) (o : Option (Bytes × Text))
        → pull_manifest lib s source.repository source.tag ≡ o
        → (source_pulled lib unmarshal source target o s).1 ≡ true
        → IsTagged s (source_pulled lib unmarshal source target o s).0
    unfolding source_pulled
    source_pulled-IsTagged s none pulled h = cc h
    source_pulled-IsTagged s (some (raw, digest)) pulled h =
        manifest_tagged-IsTagged s raw digest (unmarshal raw) pulled refl h

    -- If `Tag` ends well, then the manifest of the source can be pulled by the target, with each
    -- blob that it names known in the target's repository; every other tag yields what it did, and
    -- no blob is lost.
    pub tag-IsTagged :
        (s : lib.State)
        → (tag lib unmarshal (some source) (some target) s).1 ≡ true
        → IsTagged s (tag lib unmarshal (some source) (some target) s).0
    unfolding tag
    tag-IsTagged s h =
        source_pulled-IsTagged s (pull_manifest lib s source.repository source.tag) refl h
