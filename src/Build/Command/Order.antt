-- ===== src/Build/Command/Order.antt =====
-- A build stores the manifest last.
use modctl.Prelude.{
  [], ok, err, none, inl, inr, ℕ, ◌≡◌, refl, sym, ◌∙◌, subst, inl, inr, true, false, Option, none,
  some, List, [], ◌∷◌, ◌++◌, Text, Result, ok, err, then_with-cases, is_empty, Bool-cases,
}
use mathlib.Core.Logic.Or
use mathlib.Core.List.{Mem, Perm, mem-append, not-mem-nil}
use modctl.Artifact.{Descriptor, Model}
use modctl.Modelfile.HashSet.{HashSet}
use modctl.Modelfile.Record.{Modelfile}
use modctl.Modelfile.File.{FileError, new_modelfile}
use modctl.Retry.{retry}
use modctl.Retry.Rule.{retry_rule}
use modctl.Build.Builder.{Builder}
use modctl.Build.Process.{Processor, ProcessError, process}
use modctl.Build.Stored.{
  manifest-Ready, LastOne, ManifestComplete, Ready, Contents, Kept, Kept-refl, Kept-trans, Stores,
  AllThere, retry-Kept, process-ProcessStored,
}
use modctl.Build.Config.{build_model_config}
use modctl.Build.Command.{
  get_processors, manifest_annotation, model_config_of, BuildOptions, SourceInfo, Workspace,
  MediaTypes, Run, with_layers, process_all, manifest_built, config_built, artifact_built,
  source_known, modelfile_read, build, get_source_info,
}

module _ (b : Builder) (c : Contents b) (laws : Stores c) (r : Run b)
    (sorts : (ls : List Descriptor) → Perm (r.sort ls) ls) where
  -- What a list of processors has stored.
  abbrev pub AllStored : b.State → b.State × Option (List Descriptor) → Type 0
  AllStored s q = Kept c s q.0 × ((ls : List Descriptor) → q.1 ≡ some ls → AllThere c ls q.0)

  with_layers-AllStored :
      (s : b.State) (q : b.State × Result ProcessError (List Descriptor))
      (rest : b.State → b.State × Option (List Descriptor))
      → Kept c s q.0
      → ((ls : List Descriptor) → q.1 ≡ ok ls → AllThere c ls q.0)
      → ((t : b.State) → AllStored t (rest t))
      → AllStored s (with_layers b r q rest)
  unfolding with_layers
  with_layers-AllStored s (t, err e) rest k there more = (k, λ ls h. cc h)
  with_layers-AllStored s (t, ok descs) rest k there more =
      (Kept-trans c k (more t).0, ends (rest t) (more t))
    where
      ends :
          (q : b.State × Option (List Descriptor))
          → AllStored t q
          → (ls : List Descriptor)
          → (elim q.1 [ none ↦ none | some ds ↦ some (descs ++ ds) ]) ≡ some ls
          → AllThere c ls q.0
      ends (u, none) h ls e = cc e
      ends (u, some ds) h ls e = λ x m.
          Or.elim (hlevel) (mem-append.0 (subst (Mem x) (both e) m))
            (λ here. h.0.blobs x.digest (there descs refl x here)) (λ later. h.1 ds refl x later)
        where
          both :
              ◌≡◌ {A = Option (List Descriptor)} (some (descs ++ ds)) (some ls) → ls ≡ descs ++ ds
          both y = cc y

  process_all-AllStored : (ps : List Processor) (s : b.State) → AllStored s (process_all b r ps s)
  unfolding process_all
  process_all-AllStored [] s =
      (Kept-refl c s, λ ls e x m. absurd (not-mem-nil (subst (Mem x) (nothing ls e) m)))
    where
      nothing :
          (ls : List Descriptor) → ◌≡◌ {A = Option (List Descriptor)} (some []) (some ls) → ls ≡ []
      nothing ls e = cc e
  process_all-AllStored (p ∷ ps) s =
      let one =
        process-ProcessStored c laws r.paths r.again r.attempts p r.schedule r.sort sorts s in
      with_layers-AllStored s (process r.paths b r.again r.attempts r.schedule r.sort p s)
        (process_all b r ps) one.0 one.1 (process_all-AllStored ps)

  module _ (d : Text) (layers : List Descriptor) (annotations : List (Text × Text)) where
    manifest_built-LastOne :
        (config : Descriptor) (t : b.State)
        → Ready c laws d layers annotations config t
        → LastOne c d (manifest_built b r layers annotations config t).0
    unfolding manifest_built
    manifest_built-LastOne config t ready new =
        let (there, has, is) =
          retry_rule r.again (λ u. b.build_manifest u layers config annotations)
            (Ready c laws d layers annotations config)
            (λ p. Ready c laws d layers annotations config p.0)
            (manifest-Ready c laws d layers annotations config) (λ u a e h. h) r.attempts t ready in
        (layers, config, annotations, is new, there, has)

    config_built-LastOne :
        (model : Option Model) (s : b.State)
        → AllThere c layers s
        → c.has_manifest s d ≡ false
        → LastOne c d (config_built b r layers annotations model s).0
    unfolding config_built
    config_built-LastOne none s there old = λ new. cc (old, new)
    config_built-LastOne (some model) s there old =
        let call = λ (t : b.State). b.build_config t model in
        let q = retry r.again r.attempts call s in
        let kept =
          retry-Kept c r.again r.attempts call s
            (λ t. (laws.config_keeps t model, laws.config_stores t model)) in
        elim (then_with-cases q (manifest_built b r layers annotations)) [
          | inl (failed, same) ↦
              λ new. cc (kept.0.manifests d, old, subst (λ p. c.has_manifest p.0 d ≡ true) same new)
          | inr (config, done, same) ↦
              subst (λ p. LastOne c d p.0) (sym same)
                (manifest_built-LastOne config q.0 (
                  λ x m. kept.0.blobs x.digest (there x m),
                  kept.1 config done,
                  λ new. cc (kept.0.manifests d, old, new),
                ))
        ]

  artifact_built-LastOne :
      (d : Text) (now : ℕ) (build_time : Text) (types : MediaTypes) (cfg : BuildOptions)
      {h : HashSet} (mf : Modelfile h) (info : SourceInfo) (s : b.State)
      → c.has_manifest s d ≡ false
      → LastOne c d (artifact_built b r now build_time types cfg mf info s).0
  unfolding artifact_built
  artifact_built-LastOne d now build_time types cfg mf info s old =
      let ps = get_processors types mf cfg.raw in
      let annotations = manifest_annotation build_time mf in
      let model =
        λ (ls : List Descriptor). build_model_config now (some (model_config_of mf info cfg)) ls in
      let q = process_all b r ps s in
      let stored = process_all-AllStored ps s in
      elim (then_with-cases q (λ ls. config_built b r ls annotations (model ls))) [
        | inl (failed, same) ↦
            λ new. cc (stored.0.manifests d, old, subst (λ p. c.has_manifest p.0 d ≡ true) same new)
        | inr (ls, done, same) ↦
            subst (λ p. LastOne c d p.0) (sym same)
              (config_built-LastOne d ls annotations (model ls) q.0 (stored.1 ls done)
                (stored.0.manifests d ∙ old))
      ]

  unchanged-LastOne : (d : Text) (s : b.State) → c.has_manifest s d ≡ false → LastOne c d s
  unchanged-LastOne d s old new = cc (old, new)

  source_known-LastOne :
      (d : Text) (now : ℕ) (build_time : Text) (types : MediaTypes) (cfg : BuildOptions)
      {h : HashSet} (mf : Modelfile h) (info : Option SourceInfo) (s : b.State)
      → c.has_manifest s d ≡ false
      → LastOne c d (source_known b r now build_time types cfg mf info s).0
  unfolding source_known
  source_known-LastOne d now build_time types cfg mf none s old = unchanged-LastOne d s old
  source_known-LastOne d now build_time types cfg mf (some info) s old =
      artifact_built-LastOne d now build_time types cfg mf info s old

  modelfile_read-LastOne :
      (d : Text) (now : ℕ) (build_time : Text) (types : MediaTypes) (cfg : BuildOptions)
      (ws : Workspace) (tag : Text) {h : HashSet} (mf : Result FileError (Modelfile h))
      (s : b.State)
      → c.has_manifest s d ≡ false
      → LastOne c d (modelfile_read b r now build_time types cfg ws tag mf s).0
  unfolding modelfile_read
  modelfile_read-LastOne d now build_time types cfg ws tag (err e) s old = unchanged-LastOne d s old
  modelfile_read-LastOne d now build_time types cfg ws tag (ok mf) s old =
      elim (Bool-cases (is_empty tag)) [
        | inl e ↦ simp e (unchanged-LastOne d s old)
        | inr e ↦
            simp e
              (source_known-LastOne d now build_time types cfg mf (get_source_info ws cfg) s old)
      ]

  -- If the builder's calls store what they yield and lose no blob, and only `BuildManifest` stores a
  -- manifest, the one it is given, then whichever way `Build` ends: a manifest that it has stored is
  -- that of layers and a config that are all stored.
  pub build_manifest_last :
      (d : Text) (now : ℕ) (build_time : Text) (types : MediaTypes) (cfg : BuildOptions)
      (ws : Workspace) (h : HashSet) (file : Option Text) (target : Option (Text × Text))
      (s : b.State)
      → c.has_manifest s d ≡ false
      → c.has_manifest (build b r now build_time types cfg ws h file target s).0 d ≡ true
      → ManifestComplete c d (build b r now build_time types cfg ws h file target s).0
  unfolding build
  build_manifest_last d now build_time types cfg ws h file none s old new = cc (old, new)
  build_manifest_last d now build_time types cfg ws h file (some (repo, tag)) s old new =
      modelfile_read-LastOne d now build_time types cfg ws tag (new_modelfile h file) s old new
