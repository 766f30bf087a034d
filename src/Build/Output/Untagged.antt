-- ===== src/Build/Output/Untagged.antt =====
-- The remote output of one manifest under two tags.
use modctl.Prelude.{ℕ, ◌≡◌, ◌≢◌, refl, ◌⊎◌, inl, inr, Bool, true, false, Option, none, some, Text}
use modctl.Artifact.{Descriptor}
use modctl.Build.{Bytes}
use modctl.Build.Output.{
  Remote, blob_desc, pushed, manifest_pushed, manifest_known, remote_output_manifest,
}

-- The manifests and the tags of a registry. A test whether a manifest is there, when it answers, tells
-- the truth, and changes no tag; what is pushed is there, and a new tag removes no manifest.
pub record Registry (re : Remote) : Type 0 where
  pub has : re.State → Text → Bool
  pub tags : re.State → Text → Option Text
  pub exists_true :
      (s : re.State) (d : Descriptor)
      → (re.manifest_exists s d).1 ≡ some true
      → has (re.manifest_exists s d).0 d.digest ≡ true
  pub exists_false :
      (s : re.State) (d : Descriptor)
      → (re.manifest_exists s d).1 ≡ some false
      → has s d.digest ≡ false
  pub exists_keeps : (s : re.State) (d : Descriptor) → tags (re.manifest_exists s d).0 ≡ tags s
  pub push_stores :
      (s : re.State) (d : Descriptor) (content : Bytes)
      → (re.push_manifest s d content).1 ≡ true
      → has (re.push_manifest s d content).0 d.digest ≡ true
  pub tag_keeps :
      (s : re.State) (d : Descriptor) (tag digest : Text)
      → has s digest ≡ true
      → has (re.tag s d tag).0 digest ≡ true

module _ (re : Remote) (reg : Registry re) (desc : Descriptor) (content : Bytes) where
  -- An output that ends well leaves the manifest in the registry.
  abbrev Leaves : re.State × Option Descriptor → Type 0
  Leaves p = p.1 ≢ none → reg.has p.0 desc.digest ≡ true

  tagged-Leaves :
      (tag : Text) (q : re.State × Bool)
      → reg.has q.0 desc.digest ≡ true
      → Leaves (pushed re tag desc q)
  unfolding pushed
  tagged-Leaves tag (s, false) there h = absurd (h refl)
  tagged-Leaves tag (s, true) there h = there

  pushed-Leaves :
      (tag : Text) (q : re.State × Bool)
      → (q.1 ≡ true → reg.has q.0 desc.digest ≡ true)
      → Leaves (manifest_pushed re tag desc q)
  unfolding manifest_pushed
  pushed-Leaves tag (s, false) there h = absurd (h refl)
  pushed-Leaves tag (s, true) there h =
      tagged-Leaves tag (re.tag s desc tag) (reg.tag_keeps s desc tag desc.digest (there refl)) h

  known-Leaves :
      (tag : Text) (q : re.State × Option Bool)
      → (q.1 ≡ some true → reg.has q.0 desc.digest ≡ true)
      → Leaves (manifest_known re tag desc content q)
  unfolding manifest_known
  known-Leaves tag (s, none) there h = absurd (h refl)
  known-Leaves tag (s, some true) there h = there refl
  known-Leaves tag (s, some false) there h =
      pushed-Leaves tag (re.push_manifest s desc content) (reg.push_stores s desc content) h

  -- An output that tags nothing; it fails only if the registry does not answer.
  abbrev pub Untagged : re.State → re.State × Option Descriptor → Type 0
  Untagged s p =
      (reg.tags p.0 ≡ reg.tags s) × ((p.1 ≡ some desc) ⊎ ((re.manifest_exists s desc).1 ≡ none))

  known-Untagged :
      (tag : Text) (s : re.State) (q : re.State × Option Bool)
      → q ≡ re.manifest_exists s desc
      → q.1 ≢ some false
      → reg.tags q.0 ≡ reg.tags s
      → Untagged s (manifest_known re tag desc content q)
  unfolding manifest_known
  known-Untagged tag s (t, none) e there k = (k, inr (cc e))
  known-Untagged tag s (t, some true) e there k = (k, inl refl)
  known-Untagged tag s (t, some false) e there k = absurd (there refl)

-- If a manifest is output to the registry under one tag and then, with success the first time, under
-- another, then the second output ends well too, unless the registry does not answer, but changes no
-- tag: the second tag is neither created nor moved.
pub remote_output_manifest-Untagged :
    (re : Remote) (reg : Registry re) (tag tag' media_type digest : Text) (size : ℕ)
    (content : Bytes) (s : re.State)
    → (remote_output_manifest re tag s media_type digest size content).1 ≢ none
    → let t = (remote_output_manifest re tag s media_type digest size content).0 in
      Untagged re reg
        (blob_desc media_type digest size)
        content
        t
        (remote_output_manifest re tag' t media_type digest size content)
unfolding remote_output_manifest
remote_output_manifest-Untagged re reg tag tag' media_type digest size content s first =
    let desc = blob_desc media_type digest size in
    let out = manifest_known re tag desc content (re.manifest_exists s desc) in
    let there =
      known-Leaves re reg desc content tag (re.manifest_exists s desc) (reg.exists_true s desc)
        first in
    known-Untagged re reg desc content tag' out.0 (re.manifest_exists out.0 desc) refl
      (λ e. cc (there, reg.exists_false out.0 desc e)) (reg.exists_keeps out.0 desc)
