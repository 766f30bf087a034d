-- ===== src/Push/StaleTag.antt =====
-- A push of what the registry has already, under a tag that it has too.
use mathlib.Core.List.{Mem, Perm, mem-cons_self, mem-cons_of_mem}
use mathlib.Core.List.Perm
use modctl.Prelude.{
  ap, ℕ, ◌≡◌, refl, ◌∙◌, subst, inl, inr, Bool, true, false, Option, none, some, List, [], ◌∷◌,
  Text, and_then, Bool-cases,
}
use modctl.Transfer.{Descriptor, Manifest}
use modctl.Retry.{retry}
use modctl.Retry.Rule.{retry_rule}
use modctl.Push.{
  World, again, tag_fetched, existence_known, push_if_not_exist, push_layers, manifest_desc,
  push_all, manifest_decoded, manifest_pulled, push,
}

module _ (w : World) (tags : w.State → Text → Option Text) (tag : Text) where
  -- The call ends well, and the tags are what they were.
  abbrev pub Untouched : w.State → w.State × Bool → Type 0
  Untouched s p = (p.1 ≡ true) × (tags p.0 ≡ tags s)

  -- What the code relies on: a content that the registry has, and answers for, is found, a tag that
  -- it has and answers for can be fetched, and a call that only reads changes neither.
  pub record ReadLaws : Type 0 where
    pub has : w.State → Descriptor → Bool
    pub answers : w.State → Bool
    pub exists_finds :
        (s : w.State) (d : Descriptor)
        → answers s ≡ true
        → has s d ≡ true
        → (w.exists s d).1 ≡ some true
    pub fetch_finds :
        (s : w.State) (d : Text)
        → answers s ≡ true
        → tags s tag ≡ some d
        → (w.fetch_reference s tag).1 ≡ true
    pub exists_keeps :
        (s : w.State) (d : Descriptor)
        → (tags (w.exists s d).0 ≡ tags s)
          × (answers (w.exists s d).0 ≡ answers s)
          × ((e : Descriptor) → has (w.exists s d).0 e ≡ has s e)
    pub fetch_keeps :
        (s : w.State)
        → (tags (w.fetch_reference s tag).0 ≡ tags s)
          × (answers (w.fetch_reference s tag).0 ≡ answers s)
          × ((e : Descriptor) → has (w.fetch_reference s tag).0 e ≡ has s e)
    pub pull_keeps :
        (s : w.State)
        → (tags (w.pull_manifest s tag).0 ≡ tags s)
          × (answers (w.pull_manifest s tag).0 ≡ answers s)
          × ((e : Descriptor) → has (w.pull_manifest s tag).0 e ≡ has s e)

  module _ (laws : ReadLaws) (old : Text) (s : w.State) (answering : laws.answers s ≡ true)
      (tagged : tags s tag ≡ some old) (raw : Text) where
    -- A state that differs from the one at the start in nothing that a reading call sees.
    abbrev Alike : w.State → Type 0
    Alike t =
        (tags t ≡ tags s)
        × (laws.answers t ≡ laws.answers s)
        × ((e : Descriptor) → laws.has t e ≡ laws.has s e)

    Alike-step :
        (t u : w.State)
        → Alike t
        → ((tags u ≡ tags t)
            × (laws.answers u ≡ laws.answers t)
            × ((e : Descriptor) → laws.has u e ≡ laws.has t e))
        → Alike u
    Alike-step t u (a, b, c) (d, e, f) = (d ∙ a, e ∙ b, λ x. f x ∙ c x)

    -- The call ends well in such a state.
    abbrev Ends : w.State × Bool → Type 0
    Ends p = (p.1 ≡ true) × Alike p.0

    tag_fetched-Ends :
        (desc : Descriptor) (q : w.State × Bool)
        → q.1 ≡ true
        → Alike q.0
        → Ends (tag_fetched w tag desc q)
    unfolding tag_fetched
    tag_fetched-Ends desc (t, true) e k = (refl, k)
    tag_fetched-Ends desc (t, false) e k = cc e

    known-Ends :
        (desc : Descriptor) (q : w.State × Option Bool)
        → q.1 ≡ some true
        → Alike q.0
        → Ends (existence_known w tag raw desc q)
    unfolding existence_known
    known-Ends desc (t, none) e k = cc e
    known-Ends desc (t, some false) e k = cc e
    known-Ends desc (t, some true) e k = elim (Bool-cases desc.is_manifest) [
      | inl b ↦ simp b (
          tag_fetched-Ends desc (w.fetch_reference t tag)
            (laws.fetch_finds t old (k.1 ∙ answering) (ap (λ f. f tag) k.0 ∙ tagged))
            (Alike-step t (w.fetch_reference t tag).0 k (laws.fetch_keeps t)))
      | inr b ↦ simp b (refl, k)
    ]

    retry-Ends :
        (n : ℕ) (desc : Descriptor)
        → laws.has s desc ≡ true
        → (t : w.State) → Alike t
        → Ends (retry (again w) n (push_if_not_exist w tag raw desc) t)
    unfolding push_if_not_exist
    retry-Ends n desc there t k =
        retry_rule (again w) (push_if_not_exist w tag raw desc) Alike Ends
          (λ u like.
            known-Ends desc (w.exists u desc)
              (laws.exists_finds u desc (like.1 ∙ answering) (like.2 desc ∙ there))
              (Alike-step u (w.exists u desc).0 like (laws.exists_keeps u desc)))
          (λ u a e h. h.1) n t k

    then-Ends :
        (p : w.State × Bool) (next : w.State → w.State × Bool)
        → Ends p
        → ((t : w.State) → Alike t → Ends (next t))
        → Ends (and_then p next)
    then-Ends (t, false) next h more = cc (h.0)
    then-Ends (t, true) next h more = more t h.1

    push_layers-Ends :
        (n : ℕ) (ls : List Descriptor)
        → ((x : Descriptor) → Mem x ls → laws.has s x ≡ true)
        → (t : w.State) → Alike t
        → Ends (push_layers w n tag raw ls t)
    unfolding push_layers
    push_layers-Ends n [] there t k = (refl, k)
    push_layers-Ends n (l ∷ ls) there t k =
        then-Ends (retry (again w) n (push_if_not_exist w tag raw l) t) (push_layers w n tag raw ls)
          (retry-Ends n l (there l mem-cons_self) t k)
          (push_layers-Ends n ls (λ x i. there x (mem-cons_of_mem l i)))

    push_all-Ends :
        (n : ℕ) (schedule : List Descriptor → List Descriptor) (m : Manifest)
        → ((l : List Descriptor) → Perm (schedule l) l)
        → ((x : Descriptor) → Mem x m.layers → laws.has s x ≡ true)
        → laws.has s m.config ≡ true
        → laws.has s (manifest_desc w raw) ≡ true
        → (t : w.State) → Alike t
        → Ends (push_all w n schedule tag raw m t)
    unfolding push_all
    push_all-Ends n schedule m any layers config manifest t k =
        let second = retry (again w) n (push_if_not_exist w tag raw m.config) in
        let last = retry (again w) n (push_if_not_exist w tag raw (manifest_desc w raw)) in
        then-Ends (push_layers w n tag raw (schedule m.layers) t) (λ u. and_then (second u) last)
          (push_layers-Ends n (schedule m.layers)
            (λ x i. layers x ((Perm.mem_iff (any m.layers)).0 i)) t k)
          (λ u like.
            then-Ends (second u) last (retry-Ends n m.config config u like)
              (retry-Ends n (manifest_desc w raw) manifest))

-- If the registry answers, has the manifest, its layers and its config, and has the tag, for whatever
-- manifest, then `Push` ends well and every tag is what it was: a tag that names another manifest is
-- not moved to the one that is pushed.
pub push_stale_tag :
    (w : World) (tags : w.State → Text → Option Text) (n : ℕ)
    (schedule : List Descriptor → List Descriptor) (tag raw old : Text) (m : Manifest) (s : w.State)
    (laws : ReadLaws w tags tag)
    → ((l : List Descriptor) → Perm (schedule l) l)
    → (w.pull_manifest s tag).1 ≡ some raw
    → w.decode raw ≡ some m
    → laws.answers s ≡ true
    → tags s tag ≡ some old
    → ((x : Descriptor) → Mem x m.layers → laws.has s x ≡ true)
    → laws.has s m.config ≡ true
    → laws.has s (manifest_desc w raw) ≡ true
    → Untouched w tags tag s (push w n schedule tag s)
unfolding push manifest_pulled manifest_decoded
push_stale_tag w tags n schedule tag raw old m s laws any pulled is_m answering tagged layers config
      manifest =
    from_manifest (w.pull_manifest s tag) pulled (laws.pull_keeps s)
  where
    from_manifest :
        (q : w.State × Option Text)
        → q.1 ≡ some raw
        → (tags q.0 ≡ tags s)
          × (laws.answers q.0 ≡ laws.answers s)
          × ((e : Descriptor) → laws.has q.0 e ≡ laws.has s e)
        → Untouched w tags tag s (manifest_pulled w n schedule tag q)
    from_manifest (t, none) e k = cc e
    from_manifest (t, some raw') e k =
        let same : raw ≡ raw' = cc e in
        let ends =
          push_all-Ends w tags tag laws old s answering tagged raw n schedule m any layers config
            manifest t k in
        subst (λ r. Untouched w tags tag s (manifest_decoded w n schedule tag r (w.decode r) t))
          same (rw is_m (ends.0, ends.1.0))
