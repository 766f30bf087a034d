-- ===== src/Transfer/Complete.antt =====
-- The two theorems on `Pull`: the manifest comes last, and a pull that ends well is complete.
use modctl.Retry.{retry}
use modctl.Prelude.{
  is_empty, and_then-eq-ok, ℕ, ◌≡◌, sym, ap, ◌∙◌, subst, inl, inr, true, false, some, Bool-cases,
  Text,
}
use modctl.Transfer.{
  Descriptor, Manifest, World, PullConfig, pull_if_not_exist, again, pull_layers, pull_rest, pull,
  export_if_wanted, manifest_fetched, manifest_decoded,
}
use modctl.Transfer.Order.{
  IsModel, AllThere, decoded-last, pull_layers-Ends, config_stored, config-AllThere,
  pull_rest-stored,
}
use modctl.Transfer.Pulled.{Laws, retry-Ends, pull_if_not_exist-HasManifest}

pull-decoded :
    (w : World) (n : ℕ) (cfg : PullConfig) (tag : Text) (s t : w.State) (desc : Descriptor)
    (content : w.Content) (m : Manifest)
    → w.fetch_reference s tag ≡ (t, some (desc, content))
    → w.decode content ≡ some m
    → pull w n cfg tag s ≡ manifest_decoded w n cfg tag desc t (some m)
unfolding pull manifest_fetched
pull-decoded w n cfg tag s t desc content m f d =
    ap (manifest_fetched w n cfg tag) f ∙ ap (manifest_decoded w n cfg tag desc t) d

-- Whether the pull ends well or not, at any number of attempts: if a manifest is in the local
-- storage afterwards that was not there before, then the config and every layer of the pulled
-- manifest that the hook does not skip are there. The pull stores (it does not extract from the
-- remote), the config and the layers are no manifests, and the calls keep their laws.
pub pull-manifest_last :
    (w : World) (laws : Laws w) (n : ℕ) (cfg : PullConfig) (tag : Text) (s t : w.State)
    (desc : Descriptor) (content : w.Content) (m : Manifest)
    (stored : cfg.extract_from_remote ≡ false) (d : Text)
    → IsModel w m
    → w.fetch_reference s tag ≡ (t, some (desc, content))
    → w.decode content ≡ some m
    → w.has_manifest s d ≡ false
    → w.has_manifest (pull w n cfg tag s).0 d ≡ true
    → AllThere w m (pull w n cfg tag s).0
pull-manifest_last w laws n cfg tag s t desc content m stored d model f dec old new =
    let same = pull-decoded w n cfg tag s t desc content m f dec in
    let kept =
      subst (λ p. w.has_manifest p.0 d ≡ w.has_manifest s d) f
        ((laws.reference_keeps s tag).manifests d) in
    subst (λ r. AllThere w m r.0) (sym same)
      (decoded-last w laws cfg stored n tag m model desc t d (kept ∙ old)
        (subst (λ r. w.has_manifest r.0 d ≡ true) same new))

export-HasManifest :
    (w : World) (laws : Laws w) (cfg : PullConfig) (m : Manifest) (t : w.State) (d : Text)
    → w.has_manifest t d ≡ true
    → w.has_manifest (export_if_wanted w cfg m t).0 d ≡ true
unfolding export_if_wanted
export-HasManifest w laws cfg m t d h = elim (Bool-cases (is_empty cfg.extract_dir)) [
  | inl e ↦ simp e h
  | inr e ↦ simp e ((laws.export_keeps t m).manifests d ∙ h)
]

-- A pull that ends well leaves in the local storage the config, every layer that the hook does not
-- skip, and the manifest. The conditions are those of the theorem before, and that the descriptor
-- of the reference is a manifest's.
pub pull_complete :
    (w : World) (laws : Laws w) (n : ℕ) (cfg : PullConfig) (tag : Text) (s t : w.State)
    (desc : Descriptor) (content : w.Content) (m : Manifest)
    (stored : cfg.extract_from_remote ≡ false)
    → IsModel w m
    → desc.is_manifest ≡ true
    → w.fetch_reference s tag ≡ (t, some (desc, content))
    → w.decode content ≡ some m
    → (pull w n cfg tag s).1 ≡ true
    → AllThere w m (pull w n cfg tag s).0
      × (w.has_manifest (pull w n cfg tag s).0 desc.digest ≡ true)
unfolding manifest_decoded
pull_complete w laws n cfg tag s t desc content m stored model is_m f dec done =
    let same = pull-decoded w n cfg tag s t desc content m f dec in
    let layers = pull_layers w n cfg tag m m.layers t in
    let (e0, rest) =
      and_then-eq-ok layers (pull_rest w n cfg tag desc m) (ap (λ r. r.1) (sym same) ∙ done) in
    let to_rest = same ∙ rest ∙ pull_rest-stored w laws cfg stored n tag m desc layers.0 in
    let q = retry (again w) n (pull_if_not_exist w tag m.config) layers.0 in
    let (e1, more) =
      and_then-eq-ok q (config_stored w laws cfg stored n tag m desc)
        (ap (λ r. r.1) (sym to_rest) ∙ done) in
    let at_config = to_rest ∙ more in
    let r = retry (again w) n (pull_if_not_exist w tag desc) q.0 in
    let (e2, last) =
      and_then-eq-ok r (export_if_wanted w cfg m) (ap (λ x. x.1) (sym at_config) ∙ done) in
    (
      subst (λ x. AllThere w m x.0) (sym at_config)
          (config-AllThere w laws cfg stored n tag m model desc layers.0
            (pull_layers-Ends w laws cfg stored n tag m m.layers model.layer_blobs t e0) e1),
      subst (λ x. w.has_manifest x.0 desc.digest ≡ true) (sym (at_config ∙ last))
          (export-HasManifest w laws cfg m r.0 desc.digest (
            retry-Ends w (λ x. w.has_manifest x desc.digest ≡ true) n (pull_if_not_exist w tag desc)
              (pull_if_not_exist-HasManifest w laws tag desc is_m) q.0 e2)),
    )
