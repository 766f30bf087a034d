-- ===== src/Build/Output/Faithful.antt =====
-- Both places yield the same descriptor for a layer.
use modctl.Prelude.{ℕ, ◌≡◌, refl, sym, ◌∙◌, Bool, true, false, Option, none, some, Text, length}
use modctl.Artifact.{Descriptor}
use modctl.Build.{Bytes}
use modctl.Build.Output.{
  local_output_layer, remote_output_layer, Output, Storage, Remote, layer_desc, local_layer,
  local_output, pushed, blob_known, remote_output,
}

-- Given the hash and the size of its content, a layer gets the descriptor of these.
abbrev pub IsFaithful : (Bytes → Text) → Output → Type 0
IsFaithful hash out =
    (s : out.State) (media_type rel_path dest_path : Text) (content : Bytes) (d : Descriptor)
    → (out.output_layer s media_type rel_path dest_path (hash content) (length content) content).1
      ≡ some d
    → d ≡ layer_desc media_type rel_path dest_path (hash content) (length content)

-- A storage tells the hash and the size of what it has stored.
abbrev pub IsHashing : (Bytes → Text) → Storage → Type 0
IsHashing hash st =
    (s : st.State) (content : Bytes) (digest : Text) (size : ℕ)
    → (st.push_blob s content).1 ≡ some (digest, size)
    → (digest ≡ hash content) × (size ≡ length content)

local_layer-eq-some :
    (hash : Bytes → Text) (st : Storage) (tag media_type rel_path dest_path : Text)
    (content : Bytes) (q : st.State × Option (Text × ℕ)) (d : Descriptor)
    → ((digest : Text) (size : ℕ)
        → q.1 ≡ some (digest, size)
        → (digest ≡ hash content) × (size ≡ length content))
    → (local_layer st tag media_type rel_path dest_path q).1 ≡ some d
    → d ≡ layer_desc media_type rel_path dest_path (hash content) (length content)
unfolding local_layer
local_layer-eq-some hash st tag media_type rel_path dest_path content (s, none) d law h = cc h
local_layer-eq-some hash st tag media_type rel_path dest_path content (s, some (digest, size)) d law
      h =
    let (of_digest, of_size) = law digest size refl in cc (h, of_digest, of_size)

-- `localOutput` over a storage that tells the hash of what it stores is faithful.
pub local_output-IsFaithful :
    (hash : Bytes → Text) (st : Storage) (tag : Text)
    → IsHashing hash st
    → IsFaithful hash (local_output st tag)
unfolding local_output_layer
local_output-IsFaithful hash st tag hashing s media_type rel_path dest_path content d h =
    local_layer-eq-some hash st tag media_type rel_path dest_path content (st.push_blob s content) d
      (hashing s content) h

pushed-eq-some :
    (re : Remote) (tag : Text) (desc : Descriptor) (q : re.State × Bool) (d : Descriptor)
    → (pushed re tag desc q).1 ≡ some d
    → d ≡ desc
unfolding pushed
pushed-eq-some re tag desc (s, false) d h = cc h
pushed-eq-some re tag desc (s, true) d h = cc h

blob_known-eq-some :
    (re : Remote) (tag : Text) (desc : Descriptor) (content : Bytes) (q : re.State × Option Bool)
    (d : Descriptor)
    → (blob_known re tag desc content q).1 ≡ some d
    → d ≡ desc
unfolding blob_known
blob_known-eq-some re tag desc content (s, none) d h = cc h
blob_known-eq-some re tag desc content (s, some true) d h = cc h
blob_known-eq-some re tag desc content (s, some false) d h =
    pushed-eq-some re tag desc (re.push_blob s desc content) d h

-- `remoteOutput` is faithful.
pub remote_output-IsFaithful :
    (hash : Bytes → Text) (re : Remote) (tag : Text) → IsFaithful hash (remote_output re tag)
unfolding remote_output_layer
remote_output-IsFaithful hash re tag s media_type rel_path dest_path content d h =
    let desc = layer_desc media_type rel_path dest_path (hash content) (length content) in
    blob_known-eq-some re tag desc content (re.blob_exists s desc) d h

-- If both places store a layer, then the descriptors that they yield are the same.
pub output_layer_agree :
    (hash : Bytes → Text) (st : Storage) (re : Remote) (tag : Text)
    → IsHashing hash st
    → (s : st.State) (r : re.State) (media_type rel_path dest_path : Text) (content : Bytes)
      (d e : Descriptor)
    → (local_output_layer st tag s media_type rel_path dest_path
        (hash content)
        (length content)
        content).1
      ≡ some d
    → (remote_output_layer re tag r media_type rel_path dest_path
        (hash content)
        (length content)
        content).1
      ≡ some e
    → d ≡ e
output_layer_agree hash st re tag hashing s r media_type rel_path dest_path content d e on_local
      on_remote =
    local_output-IsFaithful hash st tag hashing s media_type rel_path dest_path content d on_local
    ∙ sym (remote_output-IsFaithful hash re tag r media_type rel_path dest_path content e on_remote)
