-- ===== src/Codec/Raw/Again.antt =====
-- A second `Decode` of a layer whose file has been written.
use modctl.Prelude.{
  length, ◌≡◌, refl, ◌∙◌, sym, subst, inl, inr, Bool, true, false, ◌==◌, some, Text, text_eq,
  text_eq_refl, Bool-cases, and_then-cases, arith,
}
use modctl.Build.{Bytes}
use modctl.Codec.Raw.{
  failed, Decoded, decode, System, Layer, written, up_to_date, size_of, size_key, digest_key,
  attributes_differ, stat_differs, file_needs_update, needs_update, store_file_metadata,
  file_written, file_recorded, decode_file,
}
use modctl.Codec.Raw.Outcome.{decode-DecodeOutcome, DecodeOutcome, Laws}

keys_differ : text_eq digest_key size_key ≡ false
unfolding text_eq
keys_differ = refl

module _ (sys : System) (laws : Laws sys) (path : Text) (l : Layer) where
  abbrev Told : sys.State → Type 0
  Told s =
      (sys.get_attribute s path size_key ≡ some (sys.format_int l.size))
      × (sys.get_attribute s path digest_key ≡ some l.digest)

  module _
      (has_attributes : (s : sys.State) (key value : Text)
        → (sys.set_attribute s path key value).1 ≡ true) where
    store-Told : (s : sys.State) → Told (store_file_metadata sys s path l).0
    unfolding store_file_metadata
    store-Told s =
        let p = sys.set_attribute s path size_key (sys.format_int l.size) in
        let next = λ (t : sys.State). sys.set_attribute t path digest_key l.digest in
        let first = has_attributes s size_key (sys.format_int l.size) in
        let second = has_attributes p.0 digest_key l.digest in
        elim (and_then-cases p next) [
          | inl (ended, same) ↦ cc (first, ended)
          | inr (ended, same) ↦
              subst (λ q. Told q.0) (sym same)
                (
                  laws.set_gets p.0 path digest_key l.digest size_key second
                      ∙ rw keys_differ (
                          laws.set_gets s path size_key (sys.format_int l.size) size_key first
                          ∙ rw (text_eq_refl size_key) refl),
                  laws.set_gets p.0 path digest_key l.digest digest_key second
                      ∙ rw (text_eq_refl digest_key) refl,
                )
        ]

    recorded-Told :
        (q : sys.State × Bool)
        → (file_recorded sys path l q).1 ≡ written
        → Told (file_recorded sys path l q).0
    unfolding file_recorded
    recorded-Told (s, false) h = cc h
    recorded-Told (s, true) h = store-Told s

    made-Told :
        (content : Bytes) (q : sys.State × Bool)
        → (decode_file sys path content l q).1 ≡ written
        → Told (decode_file sys path content l q).0
    unfolding decode_file
    made-Told content (s, false) h = cc h
    made-Told content (s, true) h =
        elim (Bool-cases (needs_update sys (file_needs_update sys s path l))) [
          | inl needs ↦ rw needs (recorded-Told (file_written sys path content l s) (rw needs at h))
          | inr current ↦ cc (rw current at h)
        ]

  Told-current :
      (s : sys.State)
      → sys.stat s path ≡ size_of l.size
      → Told s
      → needs_update sys (file_needs_update sys s path l) ≡ false
  unfolding file_needs_update needs_update stat_differs attributes_differ
  Told-current s size (a, b) =
      let same : l.size == l.size ≡ true = ground arith in
      rw (size, a, b, same, text_eq_refl (sys.format_int l.size), text_eq_refl l.digest) refl

  again-current :
      (other : Bytes) (q : sys.State × Bool)
      → q.1 ≡ true
      → sys.stat q.0 path ≡ size_of l.size
      → Told q.0
      → decode_file sys path other l q ≡ (q.0, up_to_date)
  unfolding decode_file
  again-current other (s, false) h size told = cc h
  again-current other (s, true) h size told = rw (Told-current s size told) refl

-- On a file system with attributes, where the directory can be made again: if a `Decode` has written a
-- content of the layer's size, then the next `Decode` of the layer reports `ErrAlreadyUpToDate` and
-- leaves this content in the file, whatever its digest is and whatever the reader now has.
pub decode_again :
    (sys : System) (laws : Laws sys) (s : sys.State) (output_dir file_path : Text)
    (content other : Bytes) (l : Layer)
    → ((s : sys.State) (key value : Text)
        → (sys.set_attribute s (sys.join output_dir file_path) key value).1 ≡ true)
    → (decode sys s output_dir file_path content l).1 ≡ written
    → length content ≡ l.size
    → (sys.mkdir_all
        (decode sys s output_dir file_path content l).0
        (sys.dir (sys.join output_dir file_path))).1
      ≡ true
    → let next =
        decode sys (decode sys s output_dir file_path content l).0 output_dir file_path other l in
      (next.1 ≡ up_to_date)
      × (laws.content_of next.0 (sys.join output_dir file_path) ≡ some content)
unfolding decode
decode_again sys laws s output_dir file_path content other l has_attributes wrote size made =
    let path = sys.join output_dir file_path in
    let first = decode_file sys path content l (sys.mkdir_all s (sys.dir path)) in
    let q = sys.mkdir_all first.0 (sys.dir path) in
    let kept = laws.mkdir_keeps first.0 (sys.dir path) path in
    let filled : laws.content_of q.0 path ≡ some content =
      kept.content
      ∙ written_content first wrote
          (decode-DecodeOutcome sys laws s output_dir file_path content l) in
    let told =
      made-Told sys laws path l has_attributes content (sys.mkdir_all s (sys.dir path)) wrote in
    let still =
      again-current sys laws path l other q made (laws.stat_size q.0 path content filled ∙ cc size)
        (kept.attributes size_key ∙ told.0, kept.attributes digest_key ∙ told.1) in
    rw still (refl, filled)
  where
    written_content :
        (r : sys.State × Decoded)
        → r.1 ≡ written
        → DecodeOutcome sys laws s (sys.join output_dir file_path) content l r
        → laws.content_of r.0 (sys.join output_dir file_path) ≡ some content
    written_content (t, written) h o = o
    written_content (t, up_to_date) h o = cc h
    written_content (t, failed) h o = cc h
