-- ===== src/Push/Samples.antt =====
-- A push of two layers into a registry of lists, and one into a registry that has all.
use modctl.Prelude.{
  ap, text_eq, ◌≡◌, refl, true, false, Bool, Option, none, some, List, [], ◌∷◌, arith, Text, codes,
  text_eq_refl, mem, if◌then◌else◌,
}
use mathlib.Core.List.{forall_mem-cons, not-mem-nil}
use mathlib.Core.List.Perm
use modctl.Transfer.{Descriptor, Manifest}
use modctl.Push.{World, push, manifest_desc}
use modctl.Push.Pushed.{Contents, Laws, Kept-refl}
use modctl.Push.Outcome.{IsModel, PushOutcome, push-PushOutcome}
use modctl.Push.StaleTag.{ReadLaws, Untouched, push_stale_tag}

abbrev blob : Text → Descriptor
blob d = record { is_manifest = false; digest = d; annotations = none }

abbrev manifest : Manifest
manifest = record { config = blob (codes "c"); layers = blob (codes "a") ∷ blob (codes "b") ∷ [] }

-- The blobs and the manifests of the registry.
abbrev lists : World
lists = record {
  State = List Text × List Text;
  Content = Text;
  pull_manifest = λ s t. (s, some (codes "m"));
  pull_blob = λ s d. (s, some d);
  exists = λ s d. (s, some (if d.is_manifest then mem d.digest s.1 else mem d.digest s.0));
  fetch_reference = λ s t. (s, false);
  tag = λ s d t. (s, true);
  push_blob = λ s d x. ((d.digest ∷ s.0, s.1), true);
  push_manifest = λ s d raw. ((s.0, d.digest ∷ s.1), true);
  decode = λ raw. some manifest;
  names_manifest = λ raw. true;
  digest_of = λ raw. raw;
  last_status = λ s. none;
}

abbrev contents : Contents lists
contents = record { has_blob = λ s d. mem d s.0; has_manifest = λ s d. mem d s.1 }

mem-cons : (x d : Text) (ds : List Text) → mem d ds ≡ true → mem d (x ∷ ds) ≡ true
mem-cons x d ds h = ground arith

mem_head : (d : Text) (ds : List Text) → mem d (d ∷ ds) ≡ true
mem_head d ds = rw (text_eq_refl d) refl

of_blob :
    (b x y : Bool)
    → b ≡ false
    → ◌≡◌ {A = Option Bool} (some (if b then x else y)) (some true)
    → y ≡ true
of_blob true x y e h = cc e
of_blob false x y e h = cc h

of_manifest :
    (b x y : Bool)
    → b ≡ true
    → ◌≡◌ {A = Option Bool} (some (if b then x else y)) (some true)
    → x ≡ true
of_manifest true x y e h = cc h
of_manifest false x y e h = cc e

lists-Laws : Laws contents
lists-Laws = record {
  pull_manifest_keeps = λ s t. Kept-refl contents s;
  pull_blob_keeps = λ s d. Kept-refl contents s;
  exists_keeps = λ s d. Kept-refl contents s;
  fetch_keeps = λ s t. Kept-refl contents s;
  tag_keeps = λ s d t. Kept-refl contents s;
  push_blob_keeps =
      λ s d x. record { blobs = λ y h. mem-cons d.digest y s.0 h; manifests = λ y. refl };
  push_manifest_keeps = λ s d raw y h. h;
  blob_exists = λ s d b h. of_blob d.is_manifest (mem d.digest s.1) (mem d.digest s.0) b h;
  manifest_exists = λ s d b h. of_manifest d.is_manifest (mem d.digest s.1) (mem d.digest s.0) b h;
  push_blob_stores = λ s d x h. mem_head d.digest s.0;
  push_manifest_stores = λ s d raw h. mem_head d.digest s.1;
}

manifest-IsModel : IsModel manifest
manifest-IsModel = record {
  config_blob = refl;
  layer_blobs =
      (forall_mem-cons (λ x. hlevel)).1
        (refl, (forall_mem-cons (λ x. hlevel)).1 (refl, λ x m. absurd (not-mem-nil m)));
}

push-PushOutcome_example :
    PushOutcome contents manifest (codes "m") ([], []) (push lists 5 (λ l. l) (codes "v1") ([], []))
push-PushOutcome_example =
    push-PushOutcome lists contents 5 (λ l. l) (codes "v1") (codes "m") manifest ([], []) lists-Laws
      (λ l. Perm.refl l) manifest-IsModel refl refl

-- The registry that answers; a tag is the digest of its manifest.
abbrev tagged : World
tagged = record {
  State = (List Text × List Text) × Text;
  Content = Text;
  pull_manifest = λ s t. (s, some (codes "m"));
  pull_blob = λ s d. (s, some d);
  exists = λ s d. (s, some (if d.is_manifest then mem d.digest s.0.1 else mem d.digest s.0.0));
  fetch_reference = λ s t. (s, true);
  tag = λ s d t. ((s.0, d.digest), true);
  push_blob = λ s d x. (((d.digest ∷ s.0.0, s.0.1), s.1), true);
  push_manifest = λ s d raw. (((s.0.0, d.digest ∷ s.0.1), s.1), true);
  decode = λ raw. some manifest;
  names_manifest = λ raw. true;
  digest_of = λ raw. raw;
  last_status = λ s. none;
}

abbrev tag_of : (List Text × List Text) × Text → Text → Option Text
tag_of s t = some s.1

abbrev tagged-ReadLaws : ReadLaws tagged tag_of (codes "v1")
tagged-ReadLaws = record {
  has = λ s d. if d.is_manifest then mem d.digest s.0.1 else mem d.digest s.0.0;
  answers = λ s. true;
  exists_finds = λ s d a h. ap (λ b. some b) h;
  fetch_finds = λ s d a h. refl;
  exists_keeps = λ s d. (refl, refl, λ e. refl);
  fetch_keeps = λ s. (refl, refl, λ e. refl);
  pull_keeps = λ s. (refl, refl, λ e. refl);
}

abbrev stale : (List Text × List Text) × Text
stale = ((codes "a" ∷ codes "b" ∷ codes "c" ∷ [], codes "m" ∷ []), codes "old")

push_stale_tag_example :
    Untouched tagged tag_of (codes "v1") stale (push tagged 5 (λ l. l) (codes "v1") stale)
unfolding text_eq manifest_desc
push_stale_tag_example =
    push_stale_tag tagged tag_of 5 (λ l. l) (codes "v1") (codes "m") (codes "old") manifest stale
      tagged-ReadLaws (λ l. Perm.refl l) refl refl refl refl
      ((forall_mem-cons (λ x. hlevel)).1
        (refl, (forall_mem-cons (λ x. hlevel)).1 (refl, λ x m. absurd (not-mem-nil m))))
      refl refl
