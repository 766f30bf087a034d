-- ===== src/Archiver/Samples.antt =====
-- An archive of a directory, a file in it, and an entry that leaves the destination, on a file system
-- that notes the paths of the calls.
use modctl.Prelude.{inl, true, List, [], ◌∷◌, Text, codes}
use modctl.Archiver.{
  CleanPath, clean, type_dir, type_reg, Typeflag, Header, Archive, eof, entry, FileSystem, untar,
}
use modctl.Archiver.Inside.{OnTheWay, CallsKeep, untar_keeps_outside}

abbrev noted : FileSystem
noted = record {
  State = List CleanPath;
  mkdir_all = λ s p m. (p ∷ s, true);
  open_file = λ s p m. (p ∷ s, true);
  copy = λ s p c. (s, true);
  chmod = λ s p m. (p ∷ s, true);
  chtimes = λ s p t. (p ∷ s, true);
}

abbrev AllOnTheWay : CleanPath → List CleanPath → Type 0
AllOnTheWay base [] = Unit
AllOnTheWay base (p ∷ ps) = OnTheWay base p × AllOnTheWay base ps

noted-CallsKeep : (base : CleanPath) → CallsKeep noted base (AllOnTheWay base)
noted-CallsKeep base = record {
  mkdir_all = λ s p m way all. (way, all);
  open_file = λ s p m below all. (inl below, all);
  copy = λ s p c below all. all;
  chmod = λ s p m below all. (inl below, all);
  chtimes = λ s p t below all. (inl below, all);
}

abbrev header : Text → Typeflag → Header
header name kind = record { name = name; typeflag = kind; mode = 420; mod_time = 7 }

abbrev archive : Archive
archive = entry (header (codes "a/") type_dir) [] (
    entry (header (codes "./a/b") type_reg) (codes "abc")
      (entry (header (codes "a/../../x") type_reg) (codes "bad") eof))

untar_keeps_outside_example :
    AllOnTheWay (clean (codes "/out")) (untar noted archive (codes "/out") []).0
untar_keeps_outside_example =
    untar_keeps_outside noted (AllOnTheWay (clean (codes "/out"))) archive (codes "/out") []
      (noted-CallsKeep (clean (codes "/out"))) tt
