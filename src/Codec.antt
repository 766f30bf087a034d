-- ===== src/Codec.antt =====
-- pkg/codec: which codec reads and writes a layer.
use modctl.Prelude.{Option, none, some, if◌then◌else◌, Text, codes, text_eq, has_suffix}
pub mod Raw

pub data Codec : Type 0 where
  raw tar : Codec

-- `Type` is a string.
unfoldable pub type_of : Codec → Text
type_of raw = codes "raw"
type_of tar = codes "tar"

unfoldable pub new : Text → Option Codec
unfolding type_of
new type =
    if text_eq type (type_of raw)
    then some raw
    else if text_eq type (type_of tar)
    then some tar
    else none

-- The empty text if no codec is for the media type.
unfoldable pub type_from_media_type : Text → Text
unfolding type_of
type_from_media_type media_type =
    if has_suffix media_type (codes ".tar")
    then type_of tar
    else if has_suffix media_type (codes ".raw")
    then type_of raw
    else codes ""
