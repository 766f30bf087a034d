-- ===== src/Attach.antt =====
-- Attaching a file to an artifact: the layers of pkg/backend/attach.go. The media types and the
-- annotation keys of the model specification are a parameter. The new layers of the processor are
-- an argument.
use modctl.Prelude.{
  ℕ, zero, suc, ◌+◌, ◌-◌, ◌*◌, ◌/◌, ◌%◌, ◌^◌, ◌≤◌, ◌<◌, String, ◌≡◌, refl, sym, ap, ◌∙◌, subst, ◌≢◌,
  ◌↔◌, ◌⊎◌, inl, inr, Bool, true, false, not, ◌&&◌, ◌||◌, Option, none, some, List, [], ◌∷◌, ◌++◌,
  append_assoc, append-nil, arith, ltb, leb, ◌==◌, if◌then◌else◌, ==_iff, Bool-cases, Option-cases,
  &&-eq-true, ||_assoc, ||-eq-false, length, length-append, any, all, any-append, all-append, All,
  All-append, Text, codes, text_eq, text_eq_refl, text_eq_sound, text_eq_iff, has_prefix,
  has_prefix-append, text_lt, rune_bytes, byte_length, byte_length-append, mem, mem-append, Result,
  is_ok, ok-injective, ok, err, ◌>>=◌, >>=-eq-ok,
}
use modctl.Artifact.{Descriptor, filepath}
pub mod Sorting
pub mod Replacing
pub mod Command
mod Samples

pub record MediaTypes : Type 0 where
  pub weight_config : Text
  pub weight : Text
  pub code : Text
  pub doc : Text

-- `mediaTypePriorityMap`; a missing key yields 0.
unfoldable pub priority : MediaTypes → Text → ℕ
priority ts t =
    if text_eq t ts.weight_config
    then 0
    else if text_eq t ts.weight
    then 1
    else if text_eq t ts.code
    then 2
    else if text_eq t ts.doc
    then 3
    else 0

-- What the comparison of `sortLayers` looks at, and the comparison.
abbrev pub Key : Type 0
Key = ℕ × Text

unfoldable pub key : MediaTypes → Descriptor → Key
unfolding priority filepath
key ts l = (priority ts l.media_type, filepath l.annotations)

unfoldable pub less : Key → Key → Bool
less (p, f) (q, g) = if not (p == q) then ltb p q else text_lt f g

-- `sort.SliceStable`.
unfoldable pub insert_layer : MediaTypes → Descriptor → List Descriptor → List Descriptor
unfolding key less
insert_layer ts x [] = x ∷ []
insert_layer ts x (y ∷ ys) =
    let rest = insert_layer ts x ys in if less (key ts y) (key ts x) then y ∷ rest else x ∷ y ∷ ys

unfoldable pub sort_layers : MediaTypes → List Descriptor → List Descriptor
unfolding insert_layer
sort_layers ts [] = []
sort_layers ts (x ∷ xs) = insert_layer ts x (sort_layers ts xs)

-- Whether a layer is for the path.
unfoldable pub is_at : Text → Descriptor → Bool
is_at dest l = elim l.annotations [ none ↦ false | some (f, g) ↦ text_eq f dest || text_eq g dest ]

unfoldable pub find_layer : Text → List Descriptor → Option Descriptor
unfolding is_at
find_layer dest [] = none
find_layer dest (l ∷ ls) = if is_at dest l then some l else find_layer dest ls

unfoldable pub remove_layer : Descriptor → List Descriptor → List Descriptor
remove_layer found [] = []
remove_layer found (l ∷ ls) =
    if text_eq l.digest found.digest && text_eq l.media_type found.media_type
    then ls
    else l ∷ remove_layer found ls

pub data AttachError : Type 0 where
  already_exists : AttachError

-- The layers of the new manifest.
replaced :
    MediaTypes
    → Bool
    → List Descriptor
    → List Descriptor
    → Option Descriptor
    → Result AttachError (List Descriptor)
unfolding sort_layers remove_layer
replaced ts force layers new none = ok (sort_layers ts (layers ++ new))
replaced ts true layers new (some found) = ok (sort_layers ts (remove_layer found layers ++ new))
replaced ts false layers new (some found) = err already_exists

unfoldable pub attach_layers :
    MediaTypes
    → Bool
    → Text
    → List Descriptor
    → List Descriptor
    → Result AttachError (List Descriptor)
unfolding replaced find_layer
attach_layers ts force dest layers new = replaced ts force layers new (find_layer dest layers)
