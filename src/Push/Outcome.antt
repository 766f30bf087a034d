-- ===== src/Push/Outcome.antt =====
-- What a push leaves in the registry, whichever way it ends.
use modctl.Prelude.{
  ℕ, ◌≡◌, sym, subst, inl, inr, Bool, true, false, Option, none, some, List, [], ◌∷◌, Text,
  and_then, and_then-cases,
}
use mathlib.Core.List.{Mem, Perm, forall_mem-cons, not-mem-nil}
use mathlib.Core.List.Perm
use modctl.Transfer.{Descriptor, Manifest}
use modctl.Retry.{retry}
use modctl.Push.{
  World, again, push_if_not_exist, push_layers, manifest_desc, push_all, manifest_decoded,
  manifest_pulled, push,
}
use modctl.Push.Pushed.{
  Contents, Kept, Kept-refl, Kept-trans, Laws, retry-PushesBlob, retry-Holds, Holds,
}

-- No layer is a manifest, nor is the config.
pub record IsModel (m : Manifest) : Type 0 where
  pub config_blob : m.config.is_manifest ≡ false
  pub layer_blobs : (x : Descriptor) → Mem x m.layers → x.is_manifest ≡ false

module _ {w : World} (c : Contents w) where
  abbrev pub LayersThere : List Descriptor → w.State → Type 0
  LayersThere ls t = (x : Descriptor) → Mem x ls → c.has_blob t x.digest ≡ true

  abbrev LayersPushed : List Descriptor → w.State → w.State × Bool → Type 0
  LayersPushed ls s p = Kept c s p.0 × (p.1 ≡ true → LayersThere ls p.0)

  -- All that the manifest names is in the registry.
  abbrev pub AllThere : Manifest → w.State → Type 0
  AllThere m t = LayersThere m.layers t × (c.has_blob t m.config.digest ≡ true)

  -- If the push ends well, then the manifest and all that it names are in the registry, the manifest
  -- as a blob if its JSON names no manifest's media type; and if any manifest has come into it, then so has all that the manifest names, even if the push fails.
  abbrev pub PushOutcome : Manifest → Text → w.State → w.State × Bool → Type 0
  PushOutcome m raw s p =
      (p.1 ≡ true → AllThere m p.0 × Holds c (manifest_desc w raw) p.0)
      × ((d : Text) → c.has_manifest s d ≡ false → c.has_manifest p.0 d ≡ true → AllThere m p.0)

  -- Before the manifest, a failure leaves the manifests of the registry as they are.
  failed-PushOutcome :
      (m : Manifest) (raw : Text) (s : w.State) (p : w.State × Bool)
      → Kept c s p.0
      → p.1 ≡ false
      → PushOutcome m raw s p
  failed-PushOutcome m raw s p k e = (λ h. cc (e, h), λ d old new. cc (k.manifests d, old, new))

  module _ (laws : Laws c) (n : ℕ) (tag raw : Text) where
    push_layers-LayersPushed :
        (ls : List Descriptor)
        → ((x : Descriptor) → Mem x ls → x.is_manifest ≡ false)
        → (s : w.State) → LayersPushed ls s (push_layers w n tag raw ls s)
    unfolding push_layers
    push_layers-LayersPushed [] blobs s = (Kept-refl c s, λ h x m. absurd (not-mem-nil m))
    push_layers-LayersPushed (l ∷ ls) blobs s =
        let split : (l.is_manifest ≡ false)
            × ((x : Descriptor) → Mem x ls → x.is_manifest ≡ false) =
          (forall_mem-cons (λ x. hlevel)).0 blobs in
        let q = retry (again w) n (push_if_not_exist w tag raw l) s in
        let one = retry-PushesBlob c laws tag raw l n split.0 s in
        let rest = push_layers-LayersPushed ls split.1 q.0 in
        elim (and_then-cases q (push_layers w n tag raw ls)) [
          | inl (failed, same) ↦
              subst (LayersPushed (l ∷ ls) s) (sym same) (one.0, λ h. cc (failed, h))
          | inr (done, same) ↦ subst (LayersPushed (l ∷ ls) s) (sym same) (
            Kept-trans c one.0 rest.0,
            λ h. (forall_mem-cons (λ x. hlevel)).1 (rest.0.blobs l.digest (one.1 done), rest.1 h),
          )
        ]

    module _ (m : Manifest) (model : IsModel m) where
      manifest-PushOutcome :
          (s t : w.State)
          → AllThere m t
          → PushOutcome m raw s
              (retry (again w) n (push_if_not_exist w tag raw (manifest_desc w raw)) t)
      manifest-PushOutcome s t there =
          let last = retry-Holds c laws tag raw (manifest_desc w raw) n t in
          let still : AllThere m
              (retry (again w) n (push_if_not_exist w tag raw (manifest_desc w raw)) t).0 =
            (λ x m. last.0 x.digest (there.0 x m), last.0 m.config.digest there.1) in
          (λ done. (still, last.1 done), λ d old new. still)

      config-PushOutcome :
          (s t : w.State)
          → Kept c s t
          → LayersThere m.layers t
          → PushOutcome m raw s (
              and_then
                (retry (again w) n (push_if_not_exist w tag raw m.config) t)
                (retry (again w) n (push_if_not_exist w tag raw (manifest_desc w raw))))
      config-PushOutcome s t k there =
          let q = retry (again w) n (push_if_not_exist w tag raw m.config) t in
          let next = retry (again w) n (push_if_not_exist w tag raw (manifest_desc w raw)) in
          let config = retry-PushesBlob c laws tag raw m.config n model.config_blob t in
          elim (and_then-cases q next) [
            | inl (failed, same) ↦
                subst (PushOutcome m raw s) (sym same)
                  (failed-PushOutcome m raw s q (Kept-trans c k config.0) failed)
            | inr (done, same) ↦ subst (PushOutcome m raw s) (sym same) (
                manifest-PushOutcome s q.0
                  (λ x m. config.0.blobs x.digest (there x m), config.1 done))
          ]

      push_all-PushOutcome :
          (schedule : List Descriptor → List Descriptor)
          → ((l : List Descriptor) → Perm (schedule l) l)
          → (s s1 : w.State) → Kept c s s1
          → PushOutcome m raw s (push_all w n schedule tag raw m s1)
      unfolding push_all
      push_all-PushOutcome schedule any s s1 k =
          let ls = schedule m.layers in
          let q = push_layers w n tag raw ls s1 in
          let layers =
            push_layers-LayersPushed ls
              (λ x x_in. model.layer_blobs x ((Perm.mem_iff (any m.layers)).0 x_in)) s1 in
          let next = λ (t : w.State).
            and_then (retry (again w) n (push_if_not_exist w tag raw m.config) t)
              (retry (again w) n (push_if_not_exist w tag raw (manifest_desc w raw))) in
          elim (and_then-cases q next) [
            | inl (failed, same) ↦
                subst (PushOutcome m raw s) (sym same)
                  (failed-PushOutcome m raw s q (Kept-trans c k layers.0) failed)
            | inr (done, same) ↦ subst (PushOutcome m raw s) (sym same) (
                config-PushOutcome s q.0 (Kept-trans c k layers.0)
                  (λ x x_in. layers.1 done x ((Perm.mem_iff (any m.layers)).1 x_in)))
          ]

-- If the local storage has the manifest of the tag and no layer of it is a manifest, then for any
-- order in which the goroutines end, and whichever way `Push` ends: if it ends well, then the
-- registry has the layers, the config and the manifest, this as a manifest if its JSON names the
-- media type of one, and as a blob otherwise; and if the registry has any manifest that it did not
-- have before, then it has those layers and that config.
pub push-PushOutcome :
    (w : World) (c : Contents w) (n : ℕ) (schedule : List Descriptor → List Descriptor)
    (tag raw : Text) (m : Manifest) (s : w.State)
    → Laws c
    → ((l : List Descriptor) → Perm (schedule l) l)
    → IsModel m
    → (w.pull_manifest s tag).1 ≡ some raw
    → w.decode raw ≡ some m
    → PushOutcome c m raw s (push w n schedule tag s)
unfolding push manifest_pulled manifest_decoded
push-PushOutcome w c n schedule tag raw m s laws any model pulled is_m =
    from_manifest (w.pull_manifest s tag) pulled (laws.pull_manifest_keeps s tag)
  where
    from_manifest :
        (q : w.State × Option Text)
        → q.1 ≡ some raw
        → Kept c s q.0
        → PushOutcome c m raw s (manifest_pulled w n schedule tag q)
    from_manifest (t, none) e k = cc e
    from_manifest (t, some raw') e k =
        let same : raw ≡ raw' = cc e in
        subst (λ r. PushOutcome c m raw s (manifest_decoded w n schedule tag r (w.decode r) t)) same
          (rw is_m (push_all-PushOutcome c laws n tag raw m model schedule any s t k))
