-- ===== src/Modelfile/Workspace.antt =====
-- `NewModelfileByWorkspace` of pkg/modelfile/modelfile.go and what it calls, with the getters. A
-- workspace is a tree as `filepath.Walk` finds it, its entries in the order of the walk. The
-- filter, the JSON reader and the units are parameters.
use modctl.Prelude.{
  ℕ, suc, ◌+◌, ◌%◌, ◌^◌, Bool, not, ◌&&◌, ◌∷◌, ◌++◌, ltb, ◌==◌, if◌then◌else◌, Text, codes, text_eq,
  Result, ok, err, ◌>>=◌,
}
use modctl.Modelfile.FileType.{
  Humanize, FileType, infer_file_type, is_skippable, max_single_file_size, max_total_workspace_size,
  max_workspace_file_count,
}
use modctl.Modelfile.HashSet.{HashSet}
use modctl.Modelfile.Record.{Modelfile}
pub mod Events
pub mod Limits
pub mod Generate
pub mod Constructor
pub mod Kept
pub mod Sources

-- `blocked` is an entry that cannot be looked at, or a directory that cannot be read. The size of a
-- file is an int64 that is not negative.
mutual
  pub data Entry : Type 0 where
    file : Text → ℕ → Entry
    dir : Text → Entries → Entry
    blocked : Text → Entry

  pub data Entries : Type 0 where
    nil : Entries
    cons : Entry → Entries → Entries

-- The methods of the filter that the walk calls.
pub record Filter : Type 0 where
  pub matches : Text → Bool
  pub match_include : Text → Bool
  pub should_descend : Text → Bool

pub data WalkError : Type 0 where
  walk_error exceeds_single_file_size : Text → WalkError
  exceeds_file_count exceeds_total_size no_files : WalkError

-- What `generateByWorkspace` keeps during the walk. `total_size` is an int64, as its 64 bits.
pub record Progress (h : HashSet) : Type 0 where
  pub modelfile : Modelfile h
  pub file_count : ℕ
  pub total_size : ℕ

-- Addition and comparison of int64, on its bits.
unfoldable pub add64 : ℕ → ℕ → ℕ
add64 a b = (a + b) % 2 ^ 64

unfoldable pub exceeds64 : ℕ → ℕ → Bool
exceeds64 a limit = ltb a (2 ^ 63) && ltb limit a

-- The relative path of an entry of a directory: `filepath.Rel` of the two joined paths.
unfoldable pub join_rel : Text → Text → Text
join_rel dir_rel name = if text_eq dir_rel (codes ".") then name else dir_rel ++ b'/' ∷ name

-- Whether the callback goes on, behind an entry that it takes or leaves, or skips a directory.
pub data Verdict : Type 0 where
  enter skip_dir : Verdict

abbrev pub entry_name : Entry → Text
entry_name (file name size) = name
entry_name (dir name entries) = name
entry_name (blocked name) = name

-- The callback on a directory.
unfoldable pub visit_dir : Filter → Text → Text → Verdict
visit_dir filter rel dirname =
    if filter.matches rel
    then skip_dir
    else if is_skippable dirname && not (filter.should_descend rel)
    then skip_dir
    else enter

module _ {h : HashSet} where
  -- The check behind the walk.
  abbrev pub with_files : Modelfile h → Result WalkError (Modelfile h)
  with_files mf =
      if h.size mf.model == 0 && h.size mf.code == 0 && h.size mf.dataset == 0
      then err no_files
      else ok mf

module _ (u : Humanize) {h : HashSet} where
  unfoldable pub add_file : FileType → Text → Modelfile h → Modelfile h
  add_file FileType.config rel mf = record mf { config = h.add mf.config rel }
  add_file FileType.model rel mf = record mf { model = h.add mf.model rel }
  add_file FileType.code rel mf = record mf { code = h.add mf.code rel }
  add_file FileType.doc rel mf = record mf { doc = h.add mf.doc rel }

  -- The end of the callback, for a file that is neither skipped nor excluded.
  unfoldable pub take_file : Text → Text → ℕ → Progress h → Result WalkError (Progress h)
  unfolding add_file add64 exceeds64
  take_file rel filename size p =
      let file_count = suc p.file_count in
      let total_size = add64 p.total_size size in
      if exceeds64 size (max_single_file_size u)
      then err (exceeds_single_file_size rel)
      else if ltb max_workspace_file_count file_count
      then err exceeds_file_count
      else if exceeds64 total_size (max_total_workspace_size u)
      then err exceeds_total_size
      else ok (record {
        modelfile = add_file (infer_file_type u filename size) rel p.modelfile;
        file_count = file_count;
        total_size = total_size;
      })

  module _ (filter : Filter) where
    -- The callback on a file.
    unfoldable pub visit_file : Text → Text → ℕ → Progress h → Result WalkError (Progress h)
    unfolding take_file
    visit_file rel filename size p =
        if is_skippable filename && not (filter.match_include rel)
        then ok p
        else if filter.matches rel
        then ok p
        else take_file rel filename size p

    -- `filepath.Walk` below the root, with the callback.
    unfoldable mutual
      unfolding visit_file visit_dir

      pub walk : Text → Entry → Progress h → Result WalkError (Progress h)
      walk rel (file name size) p = visit_file rel name size p
      walk rel (blocked name) p = err (walk_error rel)
      walk rel (dir name entries) p =
          let below = walk_entries rel entries p in
          elim (visit_dir filter rel name) [ enter ↦ below | skip_dir ↦ ok p ]

      pub walk_entries : Text → Entries → Progress h → Result WalkError (Progress h)
      walk_entries dir_rel nil p = ok p
      walk_entries dir_rel (cons e es) p = do
        p' ← walk (join_rel dir_rel (entry_name e)) e p
        walk_entries dir_rel es p'

    -- The walk of a workspace, whose root has the relative path `.`.
    unfoldable pub generate_by_workspace : Entry → Modelfile h → Result WalkError (Modelfile h)
    unfolding walk
    generate_by_workspace root mf = do
      p ← walk (codes ".") root (record { modelfile = mf; file_count = 0; total_size = 0 })
      with_files p.modelfile
