-- ===== src/Archiver.antt =====
-- `Untar` of pkg/archiver/archiver.go, over a file system that is a parameter; what it uses of
-- path/filepath on Unix is written out.
use modctl.Prelude.{
  ℕ, ◌==◌, Bool, true, false, ◌||◌, List, [], ◌∷◌, ◌++◌, if◌then◌else◌, Text, codes, text_eq,
  is_empty, and_then, has_prefix,
}
use modctl.Build.{Bytes}
pub mod Inside
mod Samples

-- A clean path; its components stand with the innermost first.
pub record CleanPath : Type 0 where
  pub rooted : Bool
  pub stack : List Text

-- The components between the slashes, the outermost first; `part` is what stands before the text.
unfoldable pub split : Text → Text → List Text
split part [] = part ∷ []
split part (c ∷ cs) = if c == 47 then part ∷ split [] cs else split (part ++ (c ∷ [])) cs

-- A component `..` takes one away, but no other `..`.
unfoldable pub parent : Bool → List Text → List Text
parent rooted [] = if rooted then [] else codes ".." ∷ []
parent rooted (x ∷ xs) = if text_eq x (codes "..") then codes ".." ∷ x ∷ xs else xs

unfoldable pub push_part : Bool → Text → List Text → List Text
unfolding parent
push_part rooted part stack =
    if is_empty part || text_eq part (codes ".")
    then stack
    else if text_eq part (codes "..")
    then parent rooted stack
    else part ∷ stack

unfoldable pub push_all : Bool → List Text → List Text → List Text
unfolding push_part
push_all rooted [] stack = stack
push_all rooted (p ∷ ps) stack = push_all rooted ps (push_part rooted p stack)

-- `strings.Contains`.
unfoldable pub contains : Text → Text → Bool
unfolding has_prefix
contains [] pattern = has_prefix [] pattern
contains (c ∷ cs) pattern = has_prefix (c ∷ cs) pattern || contains cs pattern

-- `filepath.Clean`.
unfoldable pub clean : Text → CleanPath
unfolding has_prefix split push_all
clean text =
    let rooted = has_prefix text (codes "/") in
    record { rooted = rooted; stack = push_all rooted (split [] text) [] }

unfoldable pub print_stack : List Text → Text
print_stack [] = []
print_stack (x ∷ []) = x
print_stack (x ∷ y ∷ xs) = print_stack (y ∷ xs) ++ (codes "/" ++ x)

unfoldable pub print : CleanPath → Text
unfolding print_stack
print p =
    if p.rooted
    then codes "/" ++ print_stack p.stack
    else (if is_empty (print_stack p.stack) then codes "." else print_stack p.stack)

-- The components of a clean path, the outermost first, pushed on a stack.
unfoldable pub push_stack : Bool → List Text → List Text → List Text
unfolding push_part
push_stack rooted [] base = base
push_stack rooted (x ∷ xs) base = push_part rooted x (push_stack rooted xs base)

-- `filepath.Join` of two clean paths, and `filepath.Dir`.
unfoldable pub join : CleanPath → CleanPath → CleanPath
unfolding push_stack
join base p = record { rooted = base.rooted; stack = push_stack base.rooted p.stack base.stack }

unfoldable pub without_last : List Text → List Text
without_last [] = []
without_last (x ∷ xs) = xs

unfoldable pub dir : CleanPath → CleanPath
unfolding without_last
dir p = record { rooted = p.rooted; stack = without_last p.stack }

unfoldable pub is_invalid : Text → Bool
unfolding contains
is_invalid path =
    contains path (codes "..") || has_prefix path (codes "/") || has_prefix path (codes ":\\")

pub data Typeflag : Type 0 where
  type_dir type_reg type_other : Typeflag

pub record Header : Type 0 where
  pub name : Text
  pub typeflag : Typeflag
  pub mode : ℕ
  pub mod_time : ℕ

-- What `tar.Reader` yields: its end, an error, or an entry with its content.
pub data Archive : Type 0 where
  eof broken : Archive
  entry : Header → Bytes → Archive → Archive

pub record FileSystem : Type 1 where
  pub State : Type 0
  pub mkdir_all : State → CleanPath → ℕ → State × Bool
  pub open_file : State → CleanPath → ℕ → State × Bool
  pub copy : State → CleanPath → Bytes → State × Bool
  pub chmod : State → CleanPath → ℕ → State × Bool
  pub chtimes : State → CleanPath → ℕ → State × Bool

module _ (fs : FileSystem) where
  unfoldable pub restore : CleanPath → Header → fs.State → fs.State × Bool
  restore target h s = and_then (fs.chmod s target h.mode) (λ t. fs.chtimes t target h.mod_time)

  unfoldable pub extract : CleanPath → Typeflag → Header → Bytes → fs.State → fs.State × Bool
  unfolding restore
  extract target type_dir h content s = and_then (fs.mkdir_all s target h.mode) (restore target h)
  extract target type_reg h content s =
      and_then (fs.open_file s target h.mode)
        (λ t. and_then (fs.copy t target content) (restore target h))
  extract target type_other h content s = (s, true)

  -- 493 is 0755.
  unfoldable pub untar_entry : CleanPath → Header → Bytes → fs.State → fs.State × Bool
  unfolding clean print join dir is_invalid extract
  untar_entry dest h content s =
      if is_invalid (print (clean h.name))
      then (s, false)
      else and_then (fs.mkdir_all s (dir (join dest (clean h.name))) 493)
          (extract (join dest (clean h.name)) h.typeflag h content)

  unfoldable pub untar_entries : CleanPath → Archive → fs.State → fs.State × Bool
  unfolding untar_entry
  untar_entries dest eof s = (s, true)
  untar_entries dest broken s = (s, false)
  untar_entries dest (entry h content rest) s =
      and_then (untar_entry dest h content s) (untar_entries dest rest)

  -- `Untar`; without a destination no directory can be made.
  unfoldable pub untar : Archive → Text → fs.State → fs.State × Bool
  unfolding clean untar_entries
  untar archive dest_path s =
      if is_empty dest_path
      then (s, false)
      else and_then (fs.mkdir_all s (clean dest_path) 493) (untar_entries (clean dest_path) archive)
