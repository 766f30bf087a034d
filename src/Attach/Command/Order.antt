-- ===== src/Attach/Command/Order.antt =====
-- An attachment stores the manifest last.
use modctl.Prelude.{
  ℕ, ◌≡◌, refl, sym, ap, ◌∙◌, subst, inl, inr, Bool, true, false, ◌&&◌, ◌++◌, Option, none, some,
  List, [], ◌∷◌, arith, all, all-append, Bool-cases, Text, Result, ok, err, ok-injective,
  &&-eq-true, then_with-cases,
}
use mathlib.Core.List.{Mem, Perm, forall_mem-cons, not-mem-nil}
use modctl.Artifact.{Descriptor, Manifest, Model, diff_ids_of}
use modctl.Modelfile.FileType.{Humanize}
use modctl.Build.Builder.{Builder}
use modctl.Build.Config.{build_model_config}
use modctl.Build.Process.{Processor, ProcessError, process}
use modctl.Build.Stored.{
  Contents, Stores, Kept, Kept-refl, AllThere, LastOne, ManifestComplete, Ready, manifest-Ready,
  process-ProcessStored,
}
use modctl.Build.Command.{Run}
use modctl.Build.Command
use modctl.Attach.{
  MediaTypes, AttachError, insert_layer, sort_layers, remove_layer, find_layer, replaced,
  attach_layers,
}
use modctl.Attach.Command.{
  AttachOptions, Reference, Origin, get_manifest, get_model_config, get_processor, is_target,
  attach_path, priority_types, refused, same_ids, manifest_stored, artifact_stored, layers_known,
  layers_attached, file_processed, file_attached, attach_to, target_checked, source_known, attach,
  config_from,
}

module _ (q : Descriptor → Bool) (ts : MediaTypes) where
  all-insert_layer :
      (x : Descriptor) (ls : List Descriptor) → all q (insert_layer ts x ls) ≡ (q x && all q ls)
  unfolding insert_layer
  all-insert_layer x [] = refl
  all-insert_layer x (y ∷ ls) = ground (arith, all-insert_layer x ls)

  all-sort_layers : (ls : List Descriptor) → all q (sort_layers ts ls) ≡ all q ls
  unfolding sort_layers
  all-sort_layers [] = refl
  all-sort_layers (x ∷ ls) =
      ground (arith, all-insert_layer x (sort_layers ts ls), all-sort_layers ls)

  all-remove_layer :
      (found : Descriptor) (ls : List Descriptor)
      → all q ls ≡ true
      → all q (remove_layer found ls) ≡ true
  unfolding remove_layer
  all-remove_layer found [] h = refl
  all-remove_layer found (l ∷ ls) h = ground (arith, all-remove_layer found ls)

  -- The layers of the new manifest are among those of the source and the new ones.
  all-replaced :
      (force : Bool) (ls new layers : List Descriptor) (found : Option Descriptor)
      → all q ls ≡ true
      → all q new ≡ true
      → replaced ts force ls new found ≡ ok layers
      → all q layers ≡ true
  unfolding replaced
  all-replaced force ls new layers none h k e =
      subst (λ x. all q x ≡ true) (ok-injective e)
        (all-sort_layers (ls ++ new) ∙ ground (arith, all-append q ls new))
  all-replaced true ls new layers (some found) h k e =
      subst (λ x. all q x ≡ true) (ok-injective e)
        (all-sort_layers (remove_layer found ls ++ new)
          ∙ ground (arith, all-append q (remove_layer found ls) new, all-remove_layer found ls))
  all-replaced false ls new layers (some found) h k e = cc e

all-of_Mem :
    (q : Descriptor → Bool) (ls : List Descriptor)
    → ((x : Descriptor) → Mem x ls → q x ≡ true)
    → all q ls ≡ true
all-of_Mem q [] h = refl
all-of_Mem q (l ∷ ls) h =
    let split : (q l ≡ true) × ((x : Descriptor) → Mem x ls → q x ≡ true) =
      (forall_mem-cons (λ x. hlevel)).0 h in
    ground (arith, split.0, all-of_Mem q ls split.1)

Mem-of_all :
    (q : Descriptor → Bool) (ls : List Descriptor)
    → all q ls ≡ true
    → (x : Descriptor) → Mem x ls
    → q x ≡ true
Mem-of_all q [] h = λ x m. absurd (not-mem-nil m)
Mem-of_all q (l ∷ ls) h =
    let (one, rest) = &&-eq-true (q l) (all q ls) h in
    (forall_mem-cons (λ x. hlevel)).1 (one, Mem-of_all q ls rest)

module _ (b : Builder) (c : Contents b) (laws : Stores c) (r : Run b)
    (sorts : (ls : List Descriptor) → Perm (r.sort ls) ls) (d : Text) where
  none-LastOne : (s t : b.State) → c.has_manifest s d ≡ false → Kept c s t → LastOne c d t
  none-LastOne s t old k new = cc (k.manifests d, old, new)

  stored_state : (p : b.State × Option Descriptor) → (manifest_stored b r p).0 ≡ p.0
  unfolding manifest_stored
  stored_state (s, none) = refl
  stored_state (s, some desc) = refl

  artifact_stored-LastOne :
      (layers : List Descriptor) (annotations : List (Text × Text)) (m : Option Model) (s : b.State)
      → c.has_manifest s d ≡ false
      → AllThere c layers s
      → LastOne c d (artifact_stored b r layers annotations m s).0
  unfolding artifact_stored
  artifact_stored-LastOne layers annotations none s old there = none-LastOne s s old (Kept-refl c s)
  artifact_stored-LastOne layers annotations (some m) s old there =
      let q = b.build_config s m in
      let kept = laws.config_keeps s m in
      let next = λ (config : Descriptor) (t : b.State).
        manifest_stored b r (b.build_manifest t layers config annotations) in
      elim (then_with-cases q next) [
        | inl (failed, same) ↦ subst (λ p. LastOne c d p.0) (sym same) (none-LastOne s q.0 old kept)
        | inr (config, done, same) ↦
            let ready : Ready c laws d layers annotations config q.0 = (
              λ x m. kept.blobs x.digest (there x m),
              laws.config_stores s m config done,
              λ new. cc (kept.manifests d, old, new),
            ) in
            let built = manifest-Ready c laws d layers annotations config q.0 ready in
            subst (LastOne c d)
              (sym (
                ap (λ p. p.0) same ∙ stored_state (b.build_manifest q.0 layers config annotations)))
              (λ new. (layers, config, annotations, built.2 new, built.0, built.1))
      ]

  layers_known-LastOne :
      (now : ℕ) (source : Manifest) (m : Model) (layers : Result AttachError (List Descriptor))
      (s : b.State)
      → c.has_manifest s d ≡ false
      → ((ls : List Descriptor) → layers ≡ ok ls → AllThere c ls s)
      → LastOne c d (layers_known b r now source m layers s).0
  unfolding layers_known layers_attached
  layers_known-LastOne now source m (err e) s old there = none-LastOne s s old (Kept-refl c s)
  layers_known-LastOne now source m (ok ls) s old there =
      elim (Bool-cases (same_ids (diff_ids_of ls) m.diff_ids)) [
        | inl e ↦ simp e (none-LastOne s s old (Kept-refl c s))
        | inr e ↦ simp e (
            artifact_stored-LastOne ls source.annotations
              (build_model_config now (some (config_from m)) ls) s old (there ls refl))
      ]

  file_processed-LastOne :
      (now : ℕ) (types : MediaTypes) (force : Bool) (path : Text) (source : Manifest) (m : Model)
      (s : b.State) (q : b.State × Result ProcessError (List Descriptor))
      → c.has_manifest s d ≡ false
      → AllThere c source.layers s
      → Kept c s q.0
      → ((ls : List Descriptor) → q.1 ≡ ok ls → AllThere c ls q.0)
      → LastOne c d (file_processed b r now types force path source m q).0
  unfolding file_processed attach_layers
  file_processed-LastOne now types force path source m s (t, err e) old there k new =
      none-LastOne s t old k
  file_processed-LastOne now types force path source m s (t, ok fresh) old there k new =
      let stored = λ (x : Descriptor). c.has_blob t x.digest in
      layers_known-LastOne now source m (attach_layers types force path source.layers fresh) t
        (k.manifests d ∙ old)
        (λ ls e. Mem-of_all stored ls (
          all-replaced stored types force source.layers fresh ls (find_layer path source.layers)
            (all-of_Mem stored source.layers (λ x m. k.blobs x.digest (there x m)))
            (all-of_Mem stored fresh (new fresh refl)) e))

  attach_to-LastOne :
      (now : ℕ) (types : MediaTypes) (cfg : AttachOptions) (path : Text) (source : Manifest)
      (m : Model) (config_file : Option Model) (p : Processor) (s : b.State)
      → c.has_manifest s d ≡ false
      → AllThere c source.layers s
      → LastOne c d (attach_to b r now types cfg path source m config_file p s).0
  unfolding attach_to file_attached
  attach_to-LastOne now types cfg path source m config_file p s old there =
      let dest = attach_path r.paths cfg path in
      let stored =
        process-ProcessStored c laws r.paths r.again r.attempts p r.schedule r.sort sorts s in
      elim (Bool-cases cfg.config) [
        | inl e ↦
            simp e
              (artifact_stored-LastOne source.layers source.annotations config_file s old there)
        | inr e ↦ elim (Bool-cases (refused cfg.force (find_layer dest source.layers))) [
          | inl stop ↦ simp e (simp stop (none-LastOne s s old (Kept-refl c s)))
          | inr free ↦ simp e (
              simp free (
                file_processed-LastOne now types cfg.force dest source m s
                  (process r.paths b r.again r.attempts r.schedule r.sort p s) old there stored.0
                  stored.1))
        ]
      ]

  target_checked-LastOne :
      (now : ℕ) (types : MediaTypes) (cfg : AttachOptions) (path : Text) (source : Manifest)
      (m : Model) (config_file : Option Model) (target : Bool) (p : Option Processor) (s : b.State)
      → c.has_manifest s d ≡ false
      → AllThere c source.layers s
      → LastOne c d (target_checked b r now types cfg path source m config_file target p s).0
  unfolding target_checked
  target_checked-LastOne now types cfg path source m config_file target none s old there =
      none-LastOne s s old (Kept-refl c s)
  target_checked-LastOne now types cfg path source m config_file true (some p) s old there =
      attach_to-LastOne now types cfg path source m config_file p s old there
  target_checked-LastOne now types cfg path source m config_file false (some p) s old there =
      none-LastOne s s old (Kept-refl c s)

  source_known-LastOne :
      (now : ℕ) (types : MediaTypes) (cfg : AttachOptions) (path : Text) (source : Option Manifest)
      (m config_file : Option Model) (target : Bool) (p : Option Processor) (s : b.State)
      → c.has_manifest s d ≡ false
      → ((from : Manifest) → source ≡ some from → AllThere c from.layers s)
      → LastOne c d (source_known b r now types cfg path source m config_file target p s).0
  unfolding source_known
  source_known-LastOne now types cfg path none m config_file target p s old there =
      none-LastOne s s old (Kept-refl c s)
  source_known-LastOne now types cfg path (some from) none config_file target p s old there =
      none-LastOne s s old (Kept-refl c s)
  source_known-LastOne now types cfg path (some from) (some m) config_file target p s old there =
      target_checked-LastOne now types cfg path from m config_file target p s old (there from refl)

-- If the builder's calls store what they yield and lose no blob, only `BuildManifest` stores a
-- manifest, the one it is given, and the layers of the source are stored where the builder stores,
-- then whichever way `Attach` ends: a manifest that it has stored is that of layers and a config that
-- are all stored.
pub attach_manifest_last :
    (b : Builder) (c : Contents b) (r : Run b) (d : Text) (now : ℕ) (u : Humanize)
    (types : Command.MediaTypes) (cfg : AttachOptions) (path : Text) (size : Option ℕ)
    (config_file : Option Model) (target source : Reference) (manifests : Origin Manifest)
    (models : Origin Model) (s : b.State)
    → Stores c
    → ((ls : List Descriptor) → Perm (r.sort ls) ls)
    → ((from : Manifest)
        → get_manifest cfg.output_remote source manifests ≡ some from
        → AllThere c from.layers s)
    → c.has_manifest s d ≡ false
    → c.has_manifest
        (attach b r now u types cfg path size config_file target source manifests models s).0
        d
      ≡ true
    → ManifestComplete c d
        (attach b r now u types cfg path size config_file target source manifests models s).0
unfolding attach
attach_manifest_last b c r d now u types cfg path size config_file target source manifests models s
      laws sorts there old new =
    source_known-LastOne b c laws r sorts d now (priority_types types) cfg path
      (get_manifest cfg.output_remote source manifests)
      (get_model_config cfg.output_remote source models) config_file (is_target target)
      (get_processor u types cfg.destination_dir path cfg.raw size) s old there new
