-- ===== src/Codec/Raw/Outcome.antt =====
-- What the file is when `Decode` of the raw codec ends.
use modctl.Prelude.{
  ℕ, ◌≡◌, refl, ◌∙◌, sym, subst, inl, inr, Bool, true, false, ◌==◌, Option, none, some, [],
  if◌then◌else◌, Text, text_eq, text_eq_sound, Bool-cases, length, and_then, and_then-cases,
  and_then-eq-ok, arith,
}
use modctl.Build.{Bytes}
use modctl.Codec.Raw.{
  System, Stat, missing, stat_failed, size_of, FileMetadata, Layer, Decoded, written, up_to_date,
  failed, size_key, digest_key, attributes_differ, stat_differs, file_needs_update, needs_update,
  store_file_metadata, mode_restored, time_restored, metadata_restored, file_written, file_recorded,
  decode_file, decode, metadata_read, metadata_of,
}

module _ (sys : System) where
  -- A file in two states has one content and one pair of attributes.
  pub record SameFile (content_of : sys.State → Text → Option Bytes) (path : Text) (s t : sys.State)
      : Type 0 where
    pub content : content_of t path ≡ content_of s path
    pub attributes : (key : Text) → sys.get_attribute t path key ≡ sys.get_attribute s path key

  -- What the system promises of the files that `content_of` reads.
  pub record Laws : Type 0 where
    pub content_of : sys.State → Text → Option Bytes
    pub stat_size :
        (s : sys.State) (path : Text) (c : Bytes)
        → content_of s path ≡ some c
        → sys.stat s path ≡ size_of (length c)
    pub mkdir_keeps :
        (s : sys.State) (d path : Text) → SameFile content_of path s (sys.mkdir_all s d).0
    pub create_empties :
        (s : sys.State) (path : Text)
        → (sys.create s path).1 ≡ true
        → content_of (sys.create s path).0 path ≡ some []
    pub copy_fills :
        (s : sys.State) (path : Text) (c : Bytes)
        → content_of s path ≡ some []
        → (sys.copy s path c).1 ≡ true
        → content_of (sys.copy s path c).0 path ≡ some c
    pub chmod_keeps :
        (s : sys.State) (path : Text) (mode : ℕ)
        → content_of (sys.chmod s path mode).0 path ≡ content_of s path
    pub chtimes_keeps :
        (s : sys.State) (path : Text) (time : ℕ)
        → content_of (sys.chtimes s path time).0 path ≡ content_of s path
    pub set_keeps :
        (s : sys.State) (path key value : Text)
        → content_of (sys.set_attribute s path key value).0 path ≡ content_of s path
    pub set_gets :
        (s : sys.State) (path key value key' : Text)
        → (sys.set_attribute s path key value).1 ≡ true
        → sys.get_attribute (sys.set_attribute s path key value).0 path key'
          ≡ (if text_eq key key' then some value else sys.get_attribute s path key')

  module _ (laws : Laws) where
    mode_keeps :
        (path : Text) (m : FileMetadata) (s : sys.State)
        → laws.content_of (mode_restored sys path m s).0 path ≡ laws.content_of s path
    unfolding mode_restored
    mode_keeps path m s = elim (Bool-cases (m.mode == 0)) [
      | inl zero ↦ rw zero refl
      | inr set ↦ rw set (laws.chmod_keeps s path m.mode)
    ]

    time_keeps :
        (path : Text) (o : Option ℕ) (s : sys.State)
        → laws.content_of (time_restored sys path o s).0 path ≡ laws.content_of s path
    unfolding time_restored
    time_keeps path none s = refl
    time_keeps path (some t) s = laws.chtimes_keeps s path t

    metadata_keeps :
        (path : Text) (o : Option (Option FileMetadata)) (s : sys.State)
        → laws.content_of (metadata_restored sys path o s).0 path ≡ laws.content_of s path
    unfolding metadata_restored
    metadata_keeps path none s = refl
    metadata_keeps path (some none) s = refl
    metadata_keeps path (some (some m)) s =
        let p = mode_restored sys path m s in
        let next = time_restored sys path m.mod_time in
        elim (and_then-cases p next) [
          | inl (ended, same) ↦
              subst (λ q. laws.content_of q.0 path ≡ laws.content_of s path) (sym same)
                (mode_keeps path m s)
          | inr (ended, same) ↦
              subst (λ q. laws.content_of q.0 path ≡ laws.content_of s path) (sym same)
                (time_keeps path m.mod_time p.0 ∙ mode_keeps path m s)
        ]

    pub store-content :
        (s : sys.State) (path : Text) (l : Layer)
        → laws.content_of (store_file_metadata sys s path l).0 path ≡ laws.content_of s path
    unfolding store_file_metadata
    store-content s path l =
        let p = sys.set_attribute s path size_key (sys.format_int l.size) in
        let next = λ (t : sys.State). sys.set_attribute t path digest_key l.digest in
        let first = laws.set_keeps s path size_key (sys.format_int l.size) in
        elim (and_then-cases p next) [
          | inl (ended, same) ↦
              subst (λ q. laws.content_of q.0 path ≡ laws.content_of s path) (sym same) first
          | inr (ended, same) ↦
              subst (λ q. laws.content_of q.0 path ≡ laws.content_of s path) (sym same)
                (laws.set_keeps p.0 path digest_key l.digest ∙ first)
        ]

    pub file_written-content :
        (path : Text) (content : Bytes) (l : Layer) (s : sys.State)
        → (file_written sys path content l s).1 ≡ true
        → laws.content_of (file_written sys path content l s).0 path ≡ some content
    unfolding file_written
    file_written-content path content l s h =
        let o = metadata_read sys (metadata_of l.metadata) in
        let p = sys.create s path in
        let next =
          λ (t : sys.State). and_then (sys.copy t path content) (metadata_restored sys path o) in
        let (created, same) = and_then-eq-ok p next h in
        let (copied, same') =
          and_then-eq-ok (sys.copy p.0 path content) (metadata_restored sys path o)
            (subst (λ q. q.1 ≡ true) same h) in
        subst (λ q. laws.content_of q.0 path ≡ some content) (sym (same ∙ same'))
          (metadata_keeps path o (sys.copy p.0 path content).0
            ∙ laws.copy_fills p.0 path content (laws.create_empties s path created) copied)

    -- The size is the one that the layer has, and both attributes tell what the layer tells.
    pub record UpToDate (s : sys.State) (path : Text) (l : Layer) : Type 0 where
      pub size : sys.stat s path ≡ size_of l.size
      pub size_attribute : sys.get_attribute s path size_key ≡ some (sys.format_int l.size)
      pub digest_attribute : sys.get_attribute s path digest_key ≡ some l.digest

    attributes_agree :
        (l : Layer) (size digest : Option Text)
        → attributes_differ sys l size digest ≡ false
        → (size ≡ some (sys.format_int l.size)) × (digest ≡ some l.digest)
    unfolding attributes_differ
    attributes_agree l none digest h = cc h
    attributes_agree l (some size) none h = cc h
    attributes_agree l (some size) (some digest) h =
        elim (Bool-cases (text_eq size (sys.format_int l.size))) [
          | inl a ↦ elim (Bool-cases (text_eq digest l.digest)) [
            | inl b ↦ (
              cc (text_eq_sound size (sys.format_int l.size) a),
              cc (text_eq_sound digest l.digest b),
            )
            | inr b ↦ cc (rw (a, b) at h)
          ]
          | inr a ↦ cc (rw a at h)
        ]

    stat_agrees :
        (s : sys.State) (path : Text) (l : Layer) (q : Stat)
        → sys.stat s path ≡ q
        → needs_update sys (stat_differs sys s path l q) ≡ false
        → UpToDate s path l
    unfolding stat_differs needs_update
    stat_agrees s path l missing e h = cc h
    stat_agrees s path l stat_failed e h = cc h
    stat_agrees s path l (size_of n) e h = elim (Bool-cases (n == l.size)) [
      | inl same ↦
          let (a, b) =
            attributes_agree l (sys.get_attribute s path size_key)
              (sys.get_attribute s path digest_key) (simp same at h) in
          let equal : n ≡ l.size = ground (arith, same) in
          record { size = e ∙ cc equal; size_attribute = a; digest_attribute = b }
      | inr differ ↦ cc (rw differ at h)
    ]

    -- A file that is written has the content. One that is up to date is left as it was, with the size
    -- and the attributes of the layer.
    abbrev pub DecodeOutcome : sys.State → Text → Bytes → Layer → sys.State × Decoded → Type 0
    DecodeOutcome s path content l (t, written) = laws.content_of t path ≡ some content
    DecodeOutcome s path content l (t, up_to_date) =
        SameFile laws.content_of path s t × UpToDate t path l
    DecodeOutcome s path content l (t, failed) = Unit

    recorded-DecodeOutcome :
        (s : sys.State) (path : Text) (content : Bytes) (l : Layer) (q : sys.State × Bool)
        → (q.1 ≡ true → laws.content_of q.0 path ≡ some content)
        → DecodeOutcome s path content l (file_recorded sys path l q)
    unfolding file_recorded
    recorded-DecodeOutcome s path content l (t, false) h = tt
    recorded-DecodeOutcome s path content l (t, true) h = store-content t path l ∙ h refl

    made-DecodeOutcome :
        (s : sys.State) (path : Text) (content : Bytes) (l : Layer) (q : sys.State × Bool)
        → SameFile laws.content_of path s q.0
        → DecodeOutcome s path content l (decode_file sys path content l q)
    unfolding decode_file file_needs_update
    made-DecodeOutcome s path content l (t, false) same = tt
    made-DecodeOutcome s path content l (t, true) same =
        elim (Bool-cases (needs_update sys (stat_differs sys t path l (sys.stat t path)))) [
          | inl needs ↦ rw needs (
              recorded-DecodeOutcome s path content l (file_written sys path content l t)
                (file_written-content path content l t))
          | inr current ↦ rw current (same, stat_agrees t path l (sys.stat t path) refl current)
        ]

    -- A `Decode` that writes the file leaves the reader's whole content in it. One that reports
    -- `ErrAlreadyUpToDate` leaves the file's content and attributes as they were, and then the file
    -- has the layer's size, and its attributes tell the layer's size and digest.
    pub decode-DecodeOutcome :
        (s : sys.State) (output_dir file_path : Text) (content : Bytes) (l : Layer)
        → DecodeOutcome s
            (sys.join output_dir file_path)
            content
            l
            (decode sys s output_dir file_path content l)
    unfolding decode
    decode-DecodeOutcome s output_dir file_path content l =
        let path = sys.join output_dir file_path in
        made-DecodeOutcome s path content l (sys.mkdir_all s (sys.dir path))
          (laws.mkdir_keeps s (sys.dir path) path)
