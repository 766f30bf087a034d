-- ===== src/Archiver/Inside.antt =====
-- `Untar` writes below its destination only.
use modctl.Prelude.{
  ◌⊎◌, ℕ, ◌≡◌, refl, sym, subst, inl, inr, Bool, true, false, ◌||◌, List, [], ◌∷◌, ◌++◌, Text,
  codes, text_eq, text_eq_sound, has_prefix, is_empty, Bool-cases, arith, if◌then◌else◌, and_then,
}
use modctl.Build.{Bytes}
use modctl.Archiver.{
  CleanPath, push_part, push_stack, contains, clean, print_stack, print, join, dir, without_last,
  is_invalid, Typeflag, type_dir, type_reg, type_other, Header, Archive, eof, broken, entry,
  FileSystem, restore, extract, untar_entry, untar_entries, untar,
}

has_prefix_left : (x y p : Text) → has_prefix x p ≡ true → has_prefix (x ++ y) p ≡ true
unfolding has_prefix
has_prefix_left [] y [] h = ground arith
has_prefix_left [] y (q ∷ p) h = cc h
has_prefix_left (c ∷ x) y [] h = refl
has_prefix_left (c ∷ x) y (q ∷ p) h = ground (arith, has_prefix_left x y p)

has_prefix-contains : (x p : Text) → has_prefix x p ≡ true → contains x p ≡ true
unfolding contains
has_prefix-contains [] p h = h
has_prefix-contains (c ∷ x) p h = rw h refl

contains_left : (x y p : Text) → contains x p ≡ true → contains (x ++ y) p ≡ true
unfolding contains
contains_left [] y p h = has_prefix-contains y p (has_prefix_left [] y p h)
contains_left (c ∷ x) y p h = elim (Bool-cases (has_prefix (c ∷ x) p)) [
  | inl now ↦ has_prefix-contains ((c ∷ x) ++ y) p (has_prefix_left (c ∷ x) y p now)
  | inr later ↦ ground (arith, contains_left x y p, later)
]

contains_right : (x y p : Text) → contains y p ≡ true → contains (x ++ y) p ≡ true
unfolding contains
contains_right [] y p h = h
contains_right (c ∷ x) y p h = ground (arith, contains_right x y p h)

abbrev dots : Text
dots = codes ".."

-- Each component is another one than `..`.
unfoldable HasNoDots : List Text → Type 0
HasNoDots [] = Unit
HasNoDots (x ∷ xs) = (text_eq x dots ≡ false) × HasNoDots xs

contains-dots : contains dots dots ≡ true
unfolding contains has_prefix
contains-dots = refl

empty_none : contains [] dots ≡ false
unfolding contains has_prefix
empty_none = refl

no_dots : (x : Text) → contains x dots ≡ false → text_eq x dots ≡ false
no_dots x h = elim (Bool-cases (text_eq x dots)) [
  | inl same ↦
      cc (h, subst (λ y. contains y dots ≡ true) (sym (text_eq_sound x dots same)) contains-dots)
  | inr differ ↦ differ
]

print_stack-HasNoDots : (xs : List Text) → contains (print_stack xs) dots ≡ false → HasNoDots xs
unfolding print_stack HasNoDots
print_stack-HasNoDots [] h = tt
print_stack-HasNoDots (x ∷ []) h = (no_dots x h, tt)
print_stack-HasNoDots (x ∷ y ∷ xs) h = (
  no_dots x (
      absent x (λ t.
        contains_right (print_stack (y ∷ xs)) (codes "/" ++ x) dots
          (contains_right (codes "/") x dots t))),
  print_stack-HasNoDots (y ∷ xs) (
      absent (print_stack (y ∷ xs))
        (λ t. contains_left (print_stack (y ∷ xs)) (codes "/" ++ x) dots t)),
)
  where
    absent :
        (z : Text)
        → (contains z dots ≡ true → contains (print_stack (y ∷ xs) ++ (codes "/" ++ x)) dots ≡ true)
        → contains z dots ≡ false
    absent z into = elim (Bool-cases (contains z dots)) [ inl t ↦ cc (into t, h) | inr f ↦ f ]

valid_contains : (t : Text) → is_invalid t ≡ false → contains t dots ≡ false
unfolding is_invalid
valid_contains t h = elim (Bool-cases (contains t dots)) [ inl c ↦ cc (simp c at h) | inr c ↦ c ]

-- A path that is not invalid has no component `..`.
valid-HasNoDots : (p : CleanPath) → is_invalid (print p) ≡ false → HasNoDots p.stack
unfolding print
valid-HasNoDots p h =
    print_stack-HasNoDots p.stack
      (of_print p.rooted (print_stack p.stack) (valid_contains (print p) h))
  where
    of_print :
        (rooted : Bool) (z : Text)
        → contains (if rooted then codes "/" ++ z else (if is_empty z then codes "." else z)) dots
          ≡ false
        → contains z dots ≡ false
    of_print true z q = elim (Bool-cases (contains z dots)) [
      | inl t ↦ cc (contains_right (codes "/") z dots t, q)
      | inr f ↦ f
    ]
    of_print false [] q = empty_none
    of_print false (c ∷ z) q = q

-- The components of a path below another one.
abbrev pub Below : CleanPath → CleanPath → Type 0
Below base p = (p.rooted ≡ base.rooted) × ((extra : List Text) × (p.stack ≡ extra ++ base.stack))

push_part-Below :
    (rooted : Bool) (x : Text) (base stack : List Text)
    → text_eq x dots ≡ false
    → (extra : List Text) × (stack ≡ extra ++ base)
    → (extra : List Text) × (push_part rooted x stack ≡ extra ++ base)
unfolding push_part
push_part-Below rooted x base stack h (extra, same) =
    elim (Bool-cases (is_empty x || text_eq x (codes "."))) [
      | inl skip ↦ (extra, rw skip same)
      | inr push ↦ (x ∷ extra, rw (push, h, same) refl)
    ]

push_stack-Below :
    (rooted : Bool) (xs base : List Text)
    → HasNoDots xs
    → (extra : List Text) × (push_stack rooted xs base ≡ extra ++ base)
unfolding push_stack HasNoDots
push_stack-Below rooted [] base h = ([], refl)
push_stack-Below rooted (x ∷ xs) base (first, rest) =
    push_part-Below rooted x base (push_stack rooted xs base) first
      (push_stack-Below rooted xs base rest)

join-Below : (base p : CleanPath) → HasNoDots p.stack → Below base (join base p)
unfolding join
join-Below base p h = (refl, push_stack-Below base.rooted p.stack base.stack h)

-- A directory on the way: one that is below the other, or above it.
abbrev pub OnTheWay : CleanPath → CleanPath → Type 0
OnTheWay base p = Below base p ⊎ Below p base

dir-OnTheWay : (base p : CleanPath) → Below base p → OnTheWay base (dir p)
unfolding dir without_last
dir-OnTheWay base p (rooted, ([], same)) = inr (sym rooted, above base.stack p.stack same)
  where
    above : (b q : List Text) → q ≡ b → (extra : List Text) × (b ≡ extra ++ without_last q)
    above b [] e = ([], sym e)
    above b (x ∷ q) e = (x ∷ [], sym e)
dir-OnTheWay base p (rooted, (x ∷ extra, same)) = inl (rooted, (extra, rw same refl))

module _ (fs : FileSystem) (base : CleanPath) (P : fs.State → Type 0) where
  -- The calls on what is below the destination keep a property, and so does making a directory on
  -- the way there.
  pub record CallsKeep : Type 0 where
    pub mkdir_all :
        (s : fs.State) (p : CleanPath) (mode : ℕ)
        → OnTheWay base p
        → P s
        → P (fs.mkdir_all s p mode).0
    pub open_file :
        (s : fs.State) (p : CleanPath) (mode : ℕ) → Below base p → P s → P (fs.open_file s p mode).0
    pub copy : (s : fs.State) (p : CleanPath) (c : Bytes) → Below base p → P s → P (fs.copy s p c).0
    pub chmod :
        (s : fs.State) (p : CleanPath) (mode : ℕ) → Below base p → P s → P (fs.chmod s p mode).0
    pub chtimes :
        (s : fs.State) (p : CleanPath) (time : ℕ) → Below base p → P s → P (fs.chtimes s p time).0

  -- Two calls, one after the other.
  and_then-keeps :
      (p : fs.State × Bool) (next : fs.State → fs.State × Bool)
      → P p.0
      → ((s : fs.State) → P s → P (next s).0)
      → P (and_then p next).0
  and_then-keeps (s, true) next first later = later s first
  and_then-keeps (s, false) next first later = first

  module _ (keep : CallsKeep) where
    restore-keeps :
        (t : CleanPath) (h : Header) (s : fs.State) → Below base t → P s → P (restore fs t h s).0
    unfolding restore
    restore-keeps t h s below p =
        and_then-keeps (fs.chmod s t h.mode) (λ u. fs.chtimes u t h.mod_time)
          (keep.chmod s t h.mode below p) (λ u q. keep.chtimes u t h.mod_time below q)

    extract-keeps :
        (t : CleanPath) (kind : Typeflag) (h : Header) (c : Bytes) (s : fs.State)
        → Below base t
        → P s
        → P (extract fs t kind h c s).0
    unfolding extract
    extract-keeps t type_dir h c s below p =
        and_then-keeps (fs.mkdir_all s t h.mode) (restore fs t h)
          (keep.mkdir_all s t h.mode (inl below) p) (λ u q. restore-keeps t h u below q)
    extract-keeps t type_reg h c s below p =
        and_then-keeps (fs.open_file s t h.mode) (λ u. and_then (fs.copy u t c) (restore fs t h))
          (keep.open_file s t h.mode below p)
          (λ u q.
            and_then-keeps (fs.copy u t c) (restore fs t h) (keep.copy u t c below q)
              (λ v r. restore-keeps t h v below r))
    extract-keeps t type_other h c s below p = p

    untar_entry-keeps :
        (h : Header) (c : Bytes) (s : fs.State) → P s → P (untar_entry fs base h c s).0
    unfolding untar_entry
    untar_entry-keeps h c s p = elim (Bool-cases (is_invalid (print (clean h.name)))) [
      | inl bad ↦ rw bad p
      | inr good ↦
          let below = join-Below base (clean h.name) (valid-HasNoDots (clean h.name) good) in
          let t = join base (clean h.name) in
          rw good (
            and_then-keeps (fs.mkdir_all s (dir t) 493) (extract fs t h.typeflag h c)
              (keep.mkdir_all s (dir t) 493 (dir-OnTheWay base t below) p)
              (λ u q. extract-keeps t h.typeflag h c u below q))
    ]

    untar_entries-keeps : (a : Archive) (s : fs.State) → P s → P (untar_entries fs base a s).0
    unfolding untar_entries
    untar_entries-keeps eof s p = p
    untar_entries-keeps broken s p = p
    untar_entries-keeps (entry h c rest) s p =
        and_then-keeps (untar_entry fs base h c s) (untar_entries fs base rest)
          (untar_entry-keeps h c s p) (λ u q. untar_entries-keeps rest u q)

-- Whatever the archive and wherever it breaks off: a property of the file system that the calls on
-- paths below the destination keep, and the making of directories on the way there, is kept by
-- `Untar`.
pub untar_keeps_outside :
    (fs : FileSystem) (P : fs.State → Type 0) (archive : Archive) (dest_path : Text) (s : fs.State)
    → CallsKeep fs (clean dest_path) P
    → P s
    → P (untar fs archive dest_path s).0
unfolding untar
untar_keeps_outside fs P archive dest_path s keep p = elim (Bool-cases (is_empty dest_path)) [
  | inl none ↦ rw none p
  | inr some_path ↦
      let base = clean dest_path in
      rw some_path (
        and_then-keeps fs base P (fs.mkdir_all s base 493) (untar_entries fs base archive)
          (keep.mkdir_all s base 493 (inl (refl, ([], refl))) p)
          (λ u q. untar_entries-keeps fs base P keep archive u q))
]
