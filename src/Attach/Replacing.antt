-- ===== src/Attach/Replacing.antt =====
-- Which layer a forced attachment replaces.
use modctl.Prelude.{
  append_assoc, sym, ◌⊎◌, ◌∙◌, text_eq_refl, ◌≡◌, refl, ap, inl, inr, Bool, true, false, ◌&&◌, none,
  some, List, [], ◌∷◌, ◌++◌, arith, Bool-cases, any, Text, text_eq,
}
use modctl.Artifact.{Descriptor}
use modctl.Attach.{
  already_exists, err, sort_layers, ok, replaced, attach_layers, MediaTypes, is_at, find_layer,
  remove_layer,
}

-- Two layers have one digest and one media type.
abbrev pub is_same : Descriptor → Descriptor → Bool
is_same l m = text_eq m.digest l.digest && text_eq m.media_type l.media_type

-- The first layer of a list for which a test is true, with what stands before and after it.
pub record Split (test : Descriptor → Bool) (ls : List Descriptor) : Type 0 where
  pub before : List Descriptor
  pub found : Descriptor
  pub after : List Descriptor
  pub whole : ls ≡ before ++ found ∷ after
  pub not_before : any test before ≡ false
  pub is_found : test found ≡ true

first-Split : (test : Descriptor → Bool) (ls : List Descriptor) → any test ls ≡ true → Split test ls
first-Split test [] h = cc h
first-Split test (l ∷ ls) h = elim (Bool-cases (test l)) [
  | inl e ↦ record {
    before = [];
    found = l;
    after = ls;
    whole = refl;
    not_before = refl;
    is_found = e;
  }
  | inr e ↦
      let later = first-Split test ls (rw e at h) in
      record {
        before = l ∷ later.before;
        found = later.found;
        after = later.after;
        whole = ap (λ r. l ∷ r) later.whole;
        not_before = rw e later.not_before;
        is_found = later.is_found;
      }
]

find_layer-none :
    (dest : Text) (ls : List Descriptor) → any (is_at dest) ls ≡ false → find_layer dest ls ≡ none
unfolding find_layer
find_layer-none dest [] h = refl
find_layer-none dest (l ∷ ls) h = ground (arith, find_layer-none dest ls)

-- The first layer of the path is found.
find_layer_first :
    (dest : Text) (before : List Descriptor) (l : Descriptor) (after : List Descriptor)
    → any (is_at dest) before ≡ false
    → is_at dest l ≡ true
    → find_layer dest (before ++ l ∷ after) ≡ some l
unfolding find_layer
find_layer_first dest [] l after h at = rw at refl
find_layer_first dest (x ∷ before) l after h at =
    ground (arith, find_layer_first dest before l after)

-- The first layer of the same digest and media type is removed.
remove_layer_first :
    (old : Descriptor) (before : List Descriptor) (l : Descriptor) (after : List Descriptor)
    → any (is_same old) before ≡ false
    → is_same old l ≡ true
    → remove_layer old (before ++ l ∷ after) ≡ before ++ after
unfolding remove_layer
remove_layer_first old [] l after h same = rw same refl
remove_layer_first old (x ∷ before) l after h same = elim (Bool-cases (is_same old x)) [
  | inl e ↦ cc (rw e at h)
  | inr e ↦ rw e (ap (λ r. x ∷ r) (remove_layer_first old before l after (rw e at h) same))
]

is_same_self : (l : Descriptor) → is_same l l ≡ true
is_same_self l = rw (text_eq_refl l.digest, text_eq_refl l.media_type) refl

any_found :
    (test : Descriptor → Bool) (before : List Descriptor) (l : Descriptor) (after : List Descriptor)
    → test l ≡ true
    → any test (before ++ l ∷ after) ≡ true
any_found test [] l after h = rw h refl
any_found test (x ∷ before) l after h = ground (arith, any_found test before l after h)

module _ (ts : MediaTypes) (dest : Text) where
  -- Without a layer of the path the new layers are added. With one, its first layer decides: without
  -- force it is an error, with force the first layer of its digest and media type is taken out.
  abbrev pub AttachOutcome : (force : Bool) (layers new : List Descriptor) → Type 0
  AttachOutcome force layers new =
      ((any (is_at dest) layers ≡ false)
        × (attach_layers ts force dest layers new ≡ ok (sort_layers ts (layers ++ new))))
      ⊎ ((at : Split (is_at dest) layers) × (((force ≡ false)
              × (attach_layers ts force dest layers new ≡ err already_exists))
            ⊎ ((gone : Split (is_same at.found) layers) × (force ≡ true)
                × (attach_layers ts force dest layers new
                    ≡ ok (sort_layers ts ((gone.before ++ gone.after) ++ new))))))

  free-AttachOutcome :
      (force : Bool) (layers new : List Descriptor)
      → any (is_at dest) layers ≡ false
      → attach_layers ts force dest layers new ≡ ok (sort_layers ts (layers ++ new))
  unfolding attach_layers replaced
  free-AttachOutcome force layers new free =
      ap (replaced ts force layers new) (find_layer-none dest layers free)

  find_layer-Split :
      (layers : List Descriptor) (at : Split (is_at dest) layers)
      → find_layer dest layers ≡ some at.found
  find_layer-Split layers at =
      ap (find_layer dest) at.whole
      ∙ find_layer_first dest at.before at.found at.after at.not_before at.is_found

  attach_layers-Split :
      (layers new : List Descriptor) (at : Split (is_at dest) layers)
      (gone : Split (is_same at.found) layers)
      → attach_layers ts true dest layers new
        ≡ ok (sort_layers ts ((gone.before ++ gone.after) ++ new))
  unfolding attach_layers replaced
  attach_layers-Split layers new at gone =
      ap (replaced ts true layers new) (find_layer-Split layers at)
      ∙ ap (λ r. ok (sort_layers ts (r ++ new)))
          (ap (remove_layer at.found) gone.whole
            ∙ remove_layer_first at.found gone.before gone.found gone.after gone.not_before
                gone.is_found)

  by_force :
      (force : Bool) (layers new : List Descriptor) (at : Split (is_at dest) layers)
      → ((force ≡ false) × (attach_layers ts force dest layers new ≡ err already_exists))
        ⊎ ((gone : Split (is_same at.found) layers) × (force ≡ true)
            × (attach_layers ts force dest layers new
                ≡ ok (sort_layers ts ((gone.before ++ gone.after) ++ new))))
  unfolding attach_layers replaced
  by_force false layers new at =
      inl (refl, ap (replaced ts false layers new) (find_layer-Split layers at))
  by_force true layers new at =
      let itself : any (is_same at.found) layers ≡ true =
        ap (any (is_same at.found)) at.whole
        ∙ any_found (is_same at.found) at.before at.found at.after (is_same_self at.found) in
      let gone = first-Split (is_same at.found) layers itself in
      inr (gone, refl, attach_layers-Split layers new at gone)

  -- If no layer has the path, the new layers are added to those that there are, and sorted. Otherwise,
  -- without force, the path is refused; with force, of the layers with the digest and the media type of
  -- the first layer of the path the first one is left out, each other stays, and the new ones are
  -- added and sorted.
  pub attach_layers-cases :
      (force : Bool) (layers new : List Descriptor) → AttachOutcome force layers new
  attach_layers-cases force layers new = elim (Bool-cases (any (is_at dest) layers)) [
    | inr free ↦ inl (free, free-AttachOutcome force layers new free)
    | inl taken ↦
        let at = first-Split (is_at dest) layers taken in inr (at, by_force force layers new at)
  ]

  -- A forced attachment can drop the layer of another file. Let no layer before the first layer of the
  -- path be for the path, and let one of them have the digest and the media type of that layer: then
  -- the first such one is left out, and the old layer of the path stays.
  pub attach_layers_drops_other :
      (before : List Descriptor) (other : Descriptor) (between : List Descriptor) (old : Descriptor)
      (rest new : List Descriptor)
      → any (is_at dest) (before ++ other ∷ between) ≡ false
      → is_at dest old ≡ true
      → any (is_same old) before ≡ false
      → other.digest ≡ old.digest
      → other.media_type ≡ old.media_type
      → attach_layers ts true dest (before ++ (other ∷ (between ++ (old ∷ rest)))) new
        ≡ ok (sort_layers ts ((before ++ (between ++ (old ∷ rest))) ++ new))
  attach_layers_drops_other before other between old rest new free at first d m =
      attach_layers-Split (before ++ (other ∷ (between ++ (old ∷ rest)))) new
        (record {
          before = before ++ other ∷ between;
          found = old;
          after = rest;
          whole = sym (append_assoc before (other ∷ between) (old ∷ rest));
          not_before = free;
          is_found = at;
        })
        (record {
          before = before;
          found = other;
          after = between ++ (old ∷ rest);
          whole = refl;
          not_before = first;
          is_found = rw (d, m) (is_same_self old);
        })
