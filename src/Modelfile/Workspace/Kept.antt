-- ===== src/Modelfile/Workspace/Kept.antt =====
-- What the walk of a workspace leaves alone and what it sorts in, whatever the sizes are.
use modctl.Prelude.{ℕ, ◌≡◌, refl, sym, ap, ◌∙◌, List, [], ◌∷◌, arith, Text, codes, ok, >>=-eq-ok}
use modctl.Modelfile.FileType.{Humanize, FileType, infer_file_type}
use modctl.Modelfile.HashSet.{HashSet}
use modctl.Modelfile.Record.{Modelfile, One, get_one}
use modctl.Modelfile.Workspace.{
  Entry, Progress, take_file, add_file, Filter, with_files, generate_by_workspace, walk,
}
use modctl.Modelfile.Workspace.Events.{Event, found, stop, events, run_events, walk-events}
use modctl.Modelfile.Workspace.Generate.{with_files-eq-ok}
use modctl.Modelfile.Workspace.Limits.{sorted}

module _ (u : Humanize) {h : HashSet} where
  take_file-sorts :
      (rel name : Text) (size : ℕ) (p q : Progress h)
      → take_file u rel name size p ≡ ok q
      → q.modelfile ≡ add_file u (infer_file_type u name size) rel p.modelfile
  unfolding take_file
  take_file-sorts rel name size p q e = ground arith

  run_events-sorts :
      (es : List Event) (p q : Progress h)
      → run_events u es p ≡ ok q
      → q.modelfile ≡ sorted u es p.modelfile
  unfolding run_events sorted
  run_events-sorts [] p q e = cc
  run_events-sorts (stop rel ∷ es) p q e = cc
  run_events-sorts (found rel name size ∷ es) p q e =
      let (next, one, rest) = >>=-eq-ok (take_file u rel name size p) (run_events u es) e in
      run_events-sorts es next q rest ∙ ap (sorted u es) (take_file-sorts rel name size p next one)

  pub generate_by_workspace-sorts :
      (filter : Filter) (root : Entry) (mf mf' : Modelfile h)
      → generate_by_workspace u filter root mf ≡ ok mf'
      → mf' ≡ sorted u (events filter (codes ".") root) mf
  unfolding generate_by_workspace
  generate_by_workspace-sorts filter root mf mf' e =
      let (p, walked, checked) =
        >>=-eq-ok (walk u filter (codes ".") root _) (λ p. with_files p.modelfile) e in
      let (ne, same) = with_files-eq-ok p.modelfile mf' checked in
      same
      ∙ run_events-sorts (events filter (codes ".") root) _ p
          (sym (walk-events u filter (codes ".") root _) ∙ walked)

  get_one-add_file :
      (o : One) (t : FileType) (rel : Text) (mf : Modelfile h)
      → get_one (add_file u t rel mf) o ≡ get_one mf o
  unfolding add_file
  get_one-add_file o t rel mf = ground arith

  dataset-add_file :
      (t : FileType) (rel : Text) (mf : Modelfile h) → (add_file u t rel mf).dataset ≡ mf.dataset
  unfolding add_file
  dataset-add_file t rel mf = ground arith

  pub get_one-sorted :
      (o : One) (es : List Event) (mf : Modelfile h) → get_one (sorted u es mf) o ≡ get_one mf o
  unfolding sorted
  get_one-sorted o [] mf = refl
  get_one-sorted o (stop rel ∷ es) mf = get_one-sorted o es mf
  get_one-sorted o (found rel name size ∷ es) mf =
      get_one-sorted o es (add_file u (infer_file_type u name size) rel mf)
      ∙ get_one-add_file o (infer_file_type u name size) rel mf

  pub dataset-sorted : (es : List Event) (mf : Modelfile h) → (sorted u es mf).dataset ≡ mf.dataset
  unfolding sorted
  dataset-sorted [] mf = refl
  dataset-sorted (stop rel ∷ es) mf = dataset-sorted es mf
  dataset-sorted (found rel name size ∷ es) mf =
      dataset-sorted es (add_file u (infer_file_type u name size) rel mf)
      ∙ dataset-add_file (infer_file_type u name size) rel mf

  workspace-add_file :
      (t : FileType) (rel : Text) (mf : Modelfile h)
      → (add_file u t rel mf).workspace ≡ mf.workspace
  unfolding add_file
  workspace-add_file t rel mf = ground arith

  pub workspace-sorted :
      (es : List Event) (mf : Modelfile h) → (sorted u es mf).workspace ≡ mf.workspace
  unfolding sorted
  workspace-sorted [] mf = refl
  workspace-sorted (stop rel ∷ es) mf = workspace-sorted es mf
  workspace-sorted (found rel name size ∷ es) mf =
      workspace-sorted es (add_file u (infer_file_type u name size) rel mf)
      ∙ workspace-add_file (infer_file_type u name size) rel mf
