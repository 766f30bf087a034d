-- ===== src/Fetch/Outcome.antt =====
-- Which files are there when a fetch ends well.
use modctl.Prelude.{
  ◌≡◌, refl, sym, subst, inl, inr, Bool, true, false, Option, none, some, List, [], ◌∷◌, Text,
  text_eq, text_eq_sound, Bool-cases, and_then-eq-ok,
}
use mathlib.Core.List.{Mem, Perm, forall_mem-cons, not-mem-nil, mem-cons_self, mem-cons_of_mem}
use mathlib.Core.List.Perm
use modctl.Artifact.{filepath}
use modctl.Transfer.{
  Descriptor, Manifest, World, Extracted, extracted, up_to_date, extract_failed, validate_digest,
  layer_extracted, layer_fetched, pull_and_extract_from_remote,
}
use modctl.Fetch.{
  PathMatch, select_layers, fetch_layer, fetch_layers, layers_selected, manifest_decoded,
  manifest_fetched, fetch,
}
use modctl.Fetch.Selection.{is_wanted, select_layers-IsSelection}

module _ (w : World) where
  -- The layers whose files are there: one that is extracted, and whose digest is right, or that is up
  -- to date; and the others, as long as no layer of the same path is extracted.
  pub record Files : Type 0 where
    pub has_file : w.State → Descriptor → Bool
    pub fetch_keeps :
        (s : w.State) (x d : Descriptor) → has_file s x ≡ true → has_file (w.fetch s d).0 x ≡ true
    pub extract_keeps :
        (s : w.State) (x d : Descriptor) (c : w.Content)
        → text_eq (filepath x.annotations) (filepath d.annotations) ≡ false
        → has_file s x ≡ true
        → has_file (w.extract_layer s d c).0 x ≡ true
    pub extract_fills :
        (s : w.State) (d : Descriptor) (c : w.Content)
        → (w.extract_layer s d c).1 ≡ extracted
        → validate_digest d.digest (w.hash c) ≡ true
        → has_file (w.extract_layer s d c).0 d ≡ true
    pub current_has :
        (s : w.State) (d : Descriptor) (c : w.Content)
        → (w.extract_layer s d c).1 ≡ up_to_date
        → has_file (w.extract_layer s d c).0 d ≡ true

  module _ (files : Files) where
    Keeps : Descriptor → w.State → w.State → Type 0
    Keeps x s t = files.has_file s x ≡ true → files.has_file t x ≡ true

    -- What a layer's call does: its own file is there, and those of other paths stay.
    Fetched : Descriptor → w.State → w.State × Bool → Type 0
    Fetched d s p =
        p.1 ≡ true
        → (files.has_file p.0 d ≡ true)
          × ((x : Descriptor)
              → text_eq (filepath x.annotations) (filepath d.annotations) ≡ false
              → files.has_file s x ≡ true
              → files.has_file p.0 x ≡ true)

    extracted-Fetched :
        (d : Descriptor) (c : w.Content) (s t : w.State)
        → ((x : Descriptor) → files.has_file s x ≡ true → files.has_file t x ≡ true)
        → Fetched d s (layer_extracted w d c (w.extract_layer t d c))
    unfolding Fetched layer_extracted
    extracted-Fetched d c s t kept =
        go (w.extract_layer t d c) (files.extract_fills t d c) (files.current_has t d c)
          (λ x apart old. files.extract_keeps t x d c apart (kept x old))
      where
        go :
            (p : w.State × Extracted)
            → (p.1 ≡ extracted
                → validate_digest d.digest (w.hash c) ≡ true
                → files.has_file p.0 d ≡ true)
            → (p.1 ≡ up_to_date → files.has_file p.0 d ≡ true)
            → ((x : Descriptor)
                → text_eq (filepath x.annotations) (filepath d.annotations) ≡ false
                → files.has_file s x ≡ true
                → files.has_file p.0 x ≡ true)
            → Fetched d s (layer_extracted w d c p)
        go (u, extract_failed) fills has keeps h = cc h
        go (u, up_to_date) fills has keeps h = (has refl, keeps)
        go (u, extracted) fills has keeps h = (fills refl h, keeps)

    pulled-Fetched :
        (d : Descriptor) (s : w.State) → Fetched d s (pull_and_extract_from_remote w d s)
    unfolding Fetched pull_and_extract_from_remote layer_fetched
    pulled-Fetched d s = go (w.fetch s d) (λ x. files.fetch_keeps s x d)
      where
        go :
            (p : w.State × Option w.Content)
            → ((x : Descriptor) → files.has_file s x ≡ true → files.has_file p.0 x ≡ true)
            → Fetched d s (layer_fetched w d p)
        go (t, none) kept h = cc h
        go (t, some c) kept h = extracted-Fetched d c s t kept h

    -- No two layers have one path.
    abbrev pub HasOwnPaths : List Descriptor → Type 0
    HasOwnPaths ls =
        (x y : Descriptor)
        → Mem x ls
        → Mem y ls
        → filepath x.annotations ≡ filepath y.annotations
        → x ≡ y

    module _ (m : Manifest) where
      abbrev There : w.State → Descriptor → Type 0
      There s x = w.before_pull_layer x m ≡ false → files.has_file s x ≡ true

      fetch_layer-There :
          (d : Descriptor) (s : w.State)
          → (fetch_layer w m d s).1 ≡ true
          → There (fetch_layer w m d s).0 d
            × ((x : Descriptor)
                → (filepath x.annotations ≡ filepath d.annotations → x ≡ d)
                → There s x
                → There (fetch_layer w m d s).0 x)
      unfolding fetch_layer Fetched
      fetch_layer-There d s h = elim (Bool-cases (w.before_pull_layer d m)) [
        | inl skip ↦ (λ e. cc (skip, e), λ x own old. rw skip old)
        | inr take ↦
            let (has, keeps) = pulled-Fetched d s (simp take at h) in
            (
              λ e. rw take has,
              λ x own old e.
                  elim (Bool-cases (text_eq (filepath x.annotations) (filepath d.annotations))) [
                    | inl same ↦
                        let equal =
                          own (
                            text_eq_sound (filepath x.annotations) (filepath d.annotations) same) in
                        rw take (
                          subst
                            (λ y. files.has_file (pull_and_extract_from_remote w d s).0 y ≡ true)
                            (sym equal) has)
                    | inr apart ↦ rw take (keeps x apart (old e))
                  ],
            )
      ]

      -- Over all the layers of one manifest, in their order.
      fetch_layers-There :
          (all ls : List Descriptor)
          → HasOwnPaths all
          → ((x : Descriptor) → Mem x ls → Mem x all)
          → (s : w.State) → (fetch_layers w m ls s).1 ≡ true
          → ((x : Descriptor) → Mem x ls → There (fetch_layers w m ls s).0 x)
            × ((x : Descriptor) → Mem x all → There s x → There (fetch_layers w m ls s).0 x)
      unfolding fetch_layers
      fetch_layers-There all [] own inside s h = (λ x i. absurd (not-mem-nil i), λ x i old. old)
      fetch_layers-There all (l ∷ ls) own inside s h =
          let p = fetch_layer w m l s in
          let next = fetch_layers w m ls in
          let (done, same) = and_then-eq-ok p next h in
          let (has, keeps) = fetch_layer-There l s done in
          let (rest, kept) =
            fetch_layers-There all ls own (λ x i. inside x (mem-cons_of_mem l i)) p.0
              (subst (λ q. q.1 ≡ true) same h) in
          let l_in = inside l mem-cons_self in
          subst
            (λ (q : w.State × Bool).
              ((x : Descriptor) → Mem x (l ∷ ls) → There q.0 x)
              × ((x : Descriptor) → Mem x all → There s x → There q.0 x))
            (sym same)
            (
              (forall_mem-cons (λ x. hlevel)).1 (kept l l_in has, rest),
              λ x i old. kept x i (keeps x (own x l i l_in) old),
            )

      -- Each layer that a pattern matches, and that the hook does not skip, has its file.
      abbrev pub AllFetched : PathMatch → List Text → w.State → Type 0
      AllFetched path_match patterns t =
          (x : Descriptor) → Mem x m.layers → is_wanted path_match patterns x ≡ true → There t x

      module _ (schedule : List Descriptor → List Descriptor)
          (any : (ls : List Descriptor) → Perm (schedule ls) ls) where
        selected-There :
            (all : List Descriptor) (o : Option (List Descriptor)) (s : w.State)
            → HasOwnPaths all
            → ((xs : List Descriptor) → o ≡ some xs → (x : Descriptor) → Mem x xs → Mem x all)
            → (layers_selected w schedule m o s).1 ≡ true
            → (xs : List Descriptor) × (o ≡ some xs)
              × ((x : Descriptor) → Mem x xs → There (layers_selected w schedule m o s).0 x)
        unfolding layers_selected
        selected-There all none s own inside h = cc h
        selected-There all (some []) s own inside h = cc h
        selected-There all (some (l ∷ ls)) s own inside h =
            let there =
              fetch_layers-There all (schedule (l ∷ ls)) own
                (λ x i. inside (l ∷ ls) refl x ((Perm.mem_iff (any (l ∷ ls))).0 i)) s h in
            (l ∷ ls, refl, λ x i. there.0 x ((Perm.mem_iff (any (l ∷ ls))).1 i))

        module _ (path_match : PathMatch) (patterns : List Text) where
          decoded-AllFetched :
              (s : w.State)
              → HasOwnPaths m.layers
              → (manifest_decoded w schedule path_match patterns (some m) s).1 ≡ true
              → AllFetched path_match patterns
                  (manifest_decoded w schedule path_match patterns (some m) s).0
          unfolding manifest_decoded
          decoded-AllFetched s own h =
              let (xs, e, there) =
                selected-There m.layers (select_layers path_match patterns m.layers) s own
                  (λ xs e x i.
                    ((select_layers-IsSelection path_match patterns m.layers xs e).0 x i).0)
                  h in
              let selection = select_layers-IsSelection path_match patterns m.layers xs e in
              λ x i wanted. there x (selection.1 x i wanted)

          fetched-AllFetched :
              (p : w.State × Option (Descriptor × w.Content)) (desc : Descriptor)
              (content : w.Content)
              → HasOwnPaths m.layers
              → p.1 ≡ some (desc, content)
              → w.decode content ≡ some m
              → (manifest_fetched w schedule path_match patterns p).1 ≡ true
              → AllFetched path_match patterns (manifest_fetched w schedule path_match patterns p).0
          unfolding manifest_fetched
          fetched-AllFetched (s, none) desc content own found read h = cc found
          fetched-AllFetched (s, some (d, c)) desc content own found read h =
              let is_m : w.decode c ≡ some m = cc (found, read) in
              subst
                (λ o.
                  (manifest_decoded w schedule path_match patterns o s).1 ≡ true
                  → AllFetched path_match patterns
                      (manifest_decoded w schedule path_match patterns o s).0)
                (sym is_m) (decoded-AllFetched s own) h

          -- If no two layers of the manifest have one path, then a fetch that ends well, in whatever
          -- order its goroutines end, has the file of each layer that one of the patterns matches,
          -- but for those that the hook skips.
          pub fetch-AllFetched :
              (tag : Text) (s : w.State) (desc : Descriptor) (content : w.Content)
              → HasOwnPaths m.layers
              → (w.fetch_reference s tag).1 ≡ some (desc, content)
              → w.decode content ≡ some m
              → (fetch w schedule path_match patterns tag s).1 ≡ true
              → AllFetched path_match patterns (fetch w schedule path_match patterns tag s).0
          unfolding fetch
          fetch-AllFetched tag s desc content own found read h =
              fetched-AllFetched (w.fetch_reference s tag) desc content own found read h
