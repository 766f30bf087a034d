-- ===== src/Transfer/Order.antt =====
-- A pull stores the manifest last.
use modctl.Retry.Rule.{retry_rule}
use modctl.Retry.{retry}
use modctl.Prelude.{
  is_empty, and_then-eq-ok, and_then, and_then-cases, ℕ, ◌≡◌, refl, sym, ap, ◌∙◌, subst, inl, inr,
  Bool, true, false, not, some, List, [], ◌∷◌, arith, Bool-cases, all, All, Text,
}
use modctl.Transfer.{
  Descriptor, Manifest, World, PullConfig, pull_if_not_exist, again, pull_layer, pull_layers,
  pull_rest, export_if_wanted, manifest_decoded,
}
use modctl.Transfer.Pulled.{
  Laws, Kept, Kept-refl, Kept-trans, BlobsKept, IsKeeping, Ends, Has, retry-IsKeeping, retry-Ends,
  pull_if_not_exist-Kept, pull_if_not_exist-Ends, pull_if_not_exist-BlobsKept,
}

module _ (w : World) where
  and_then-Kept :
      (s : w.State) (p : w.State × Bool) (next : w.State → w.State × Bool)
      → Kept w s p.0
      → IsKeeping w next
      → Kept w s (and_then p next).0
  and_then-Kept s (t, false) next k ks = k
  and_then-Kept s (t, true) next k ks = Kept-trans w k (ks t)

  and_then-BlobsKept :
      (s : w.State) (p : w.State × Bool) (next : w.State → w.State × Bool)
      → BlobsKept w s p.0
      → ((t : w.State) → BlobsKept w t (next t).0)
      → BlobsKept w s (and_then p next).0
  and_then-BlobsKept s (t, false) next k ks = k
  and_then-BlobsKept s (t, true) next k ks = λ d h. ks t d (k d h)

  retry-BlobsKept :
      (n : ℕ) (call : w.State → w.State × Bool)
      → ((t : w.State) → BlobsKept w t (call t).0)
      → (t : w.State) → BlobsKept w t (retry (again w) n call t).0
  retry-BlobsKept n call k s =
      retry_rule (again w) call (BlobsKept w s) (λ p. BlobsKept w s p.0) (λ t h d x. k t d (h d x))
        (λ t a e h. h) n s (λ d x. x)

  -- Every layer that the hook does not skip is stored.
  abbrev pub LayersThere : Manifest → List Descriptor → w.State → Type 0
  LayersThere m ls s = All (λ l. w.before_pull_layer l m ≡ false → Has w l.digest s) ls

  LayersThere-BlobsKept :
      (m : Manifest) (ls : List Descriptor) (s t : w.State)
      → BlobsKept w s t
      → LayersThere m ls s
      → LayersThere m ls t
  LayersThere-BlobsKept m [] s t k h = tt
  LayersThere-BlobsKept m (l ∷ ls) s t k (x, h) =
      (λ e. k l.digest (x e), LayersThere-BlobsKept m ls s t k h)

  -- All that the manifest names is stored.
  abbrev pub AllThere : Manifest → w.State → Type 0
  AllThere m t = LayersThere m m.layers t × Has w m.config.digest t

  -- The layers and the config are no manifests.
  pub record IsModel (m : Manifest) : Type 0 where
    pub config_blob : m.config.is_manifest ≡ false
    pub layer_blobs : all (λ l. not l.is_manifest) m.layers ≡ true

  module _ (laws : Laws w) (cfg : PullConfig) (stored : cfg.extract_from_remote ≡ false) (n : ℕ)
      (tag : Text) (m : Manifest) where
    pull_layer-Kept :
        (l : Descriptor) → l.is_manifest ≡ false → IsKeeping w (pull_layer w cfg tag m l)
    unfolding pull_layer
    pull_layer-Kept l b s = elim (Bool-cases (w.before_pull_layer l m)) [
      | inl e ↦ simp e (Kept-refl w s)
      | inr e ↦ simp (e, stored) (pull_if_not_exist-Kept w laws tag l b s)
    ]

    pull_layer-Ends :
        (l : Descriptor)
        → l.is_manifest ≡ false
        → (s : w.State)
        → Ends w
            (λ t. w.before_pull_layer l m ≡ false → Has w l.digest t)
            (pull_layer w cfg tag m l s)
    unfolding pull_layer
    pull_layer-Ends l b s = elim (Bool-cases (w.before_pull_layer l m)) [
      | inl e ↦ λ h no. cc (e, no)
      | inr e ↦ simp (e, stored) (λ h no. pull_if_not_exist-Ends w laws tag l b s h)
    ]

    pull_layers-Kept :
        (ls : List Descriptor)
        → all (λ l. not l.is_manifest) ls ≡ true
        → IsKeeping w (pull_layers w n cfg tag m ls)
    unfolding pull_layers
    pull_layers-Kept [] b s = Kept-refl w s
    pull_layers-Kept (l ∷ ls) b s =
        and_then-Kept s (retry (again w) n (pull_layer w cfg tag m l) s)
          (pull_layers w n cfg tag m ls)
          (retry-IsKeeping w n (pull_layer w cfg tag m l) (pull_layer-Kept l (ground arith)) s)
          (pull_layers-Kept ls (ground arith))

    pub pull_layers-Ends :
        (ls : List Descriptor)
        → all (λ l. not l.is_manifest) ls ≡ true
        → (s : w.State) → Ends w (LayersThere m ls) (pull_layers w n cfg tag m ls s)
    unfolding pull_layers
    pull_layers-Ends [] b s h = tt
    pull_layers-Ends (l ∷ ls) b s h =
        let first = retry (again w) n (pull_layer w cfg tag m l) s in
        let next = pull_layers w n cfg tag m ls in
        let (one, rest) = and_then-eq-ok first next h in
        let here =
          retry-Ends w (λ t. w.before_pull_layer l m ≡ false → Has w l.digest t) n
            (pull_layer w cfg tag m l) (pull_layer-Ends l (ground arith)) s one in
        subst (λ p. LayersThere m (l ∷ ls) p.0) (sym rest)
          (
            λ no. (pull_layers-Kept ls (ground arith) first.0).blobs l.digest (here no),
            pull_layers-Ends ls (ground arith) first.0 (ap (λ p. p.1) (sym rest) ∙ h),
          )

    export-BlobsKept : (t : w.State) → BlobsKept w t (export_if_wanted w cfg m t).0
    unfolding export_if_wanted
    export-BlobsKept t d h = elim (Bool-cases (is_empty cfg.extract_dir)) [
      | inl e ↦ simp e h
      | inr e ↦ simp e ((laws.export_keeps t m).blobs d h)
    ]

    -- The manifest and the export, behind the config.
    abbrev pub config_stored : Descriptor → w.State → w.State × Bool
    config_stored desc s =
        and_then (retry (again w) n (pull_if_not_exist w tag desc) s) (export_if_wanted w cfg m)

    config_stored-BlobsKept :
        (desc : Descriptor) (s : w.State) → BlobsKept w s (config_stored desc s).0
    config_stored-BlobsKept desc s =
        and_then-BlobsKept s (retry (again w) n (pull_if_not_exist w tag desc) s)
          (export_if_wanted w cfg m)
          (retry-BlobsKept n (pull_if_not_exist w tag desc)
            (pull_if_not_exist-BlobsKept w laws tag desc) s)
          export-BlobsKept

    pub pull_rest-stored :
        (desc : Descriptor) (s : w.State)
        → pull_rest w n cfg tag desc m s
          ≡ and_then (retry (again w) n (pull_if_not_exist w tag m.config) s) (config_stored desc)
    unfolding pull_rest
    pull_rest-stored desc s = simp stored refl

    module _ (model : IsModel m) (desc : Descriptor) where
      config-Kept : IsKeeping w (retry (again w) n (pull_if_not_exist w tag m.config))
      config-Kept =
          retry-IsKeeping w n (pull_if_not_exist w tag m.config)
            (pull_if_not_exist-Kept w laws tag m.config model.config_blob)

      pub config-AllThere :
          (s : w.State)
          → LayersThere m m.layers s
          → (retry (again w) n (pull_if_not_exist w tag m.config) s).1 ≡ true
          → AllThere m
              (config_stored desc (retry (again w) n (pull_if_not_exist w tag m.config) s).0).0
      config-AllThere s layers h =
          let q = retry (again w) n (pull_if_not_exist w tag m.config) s in
          (
            LayersThere-BlobsKept m m.layers s _
                (λ d e. config_stored-BlobsKept desc q.0 d ((config-Kept s).blobs d e)) layers,
            config_stored-BlobsKept desc q.0 m.config.digest (
                retry-Ends w (Has w m.config.digest) n (pull_if_not_exist w tag m.config)
                  (pull_if_not_exist-Ends w laws tag m.config model.config_blob) s h),
          )

      rest-last :
          (s : w.State) (d : Text)
          → LayersThere m m.layers s
          → w.has_manifest s d ≡ false
          → w.has_manifest (pull_rest w n cfg tag desc m s).0 d ≡ true
          → AllThere m (pull_rest w n cfg tag desc m s).0
      rest-last s d layers old new =
          let q = retry (again w) n (pull_if_not_exist w tag m.config) s in
          elim (and_then-cases q (config_stored desc)) [
            | inl p ↦
                let same = pull_rest-stored desc s ∙ p.1 in
                let kept = (config-Kept s).manifests d in
                cc (kept, old, subst (λ r. w.has_manifest r.0 d ≡ true) same new)
            | inr p ↦
                subst (λ r. AllThere m r.0) (sym (pull_rest-stored desc s ∙ p.1))
                  (config-AllThere s layers p.0)
          ]

      pub decoded-last :
          (s : w.State) (d : Text)
          → w.has_manifest s d ≡ false
          → w.has_manifest (manifest_decoded w n cfg tag desc s (some m)).0 d ≡ true
          → AllThere m (manifest_decoded w n cfg tag desc s (some m)).0
      unfolding manifest_decoded
      decoded-last s d old new =
          let q = pull_layers w n cfg tag m m.layers s in
          elim (and_then-cases q (pull_rest w n cfg tag desc m)) [
            | inl p ↦
                let kept = (pull_layers-Kept m.layers model.layer_blobs s).manifests d in
                cc (kept, old, subst (λ r. w.has_manifest r.0 d ≡ true) p.1 new)
            | inr p ↦
                let kept = (pull_layers-Kept m.layers model.layer_blobs s).manifests d in
                subst (λ r. AllThere m r.0) (sym p.1)
                  (rest-last q.0 d (pull_layers-Ends m.layers model.layer_blobs s p.0) (kept ∙ old)
                    (subst (λ r. w.has_manifest r.0 d ≡ true) p.1 new))
          ]
