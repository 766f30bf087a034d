-- ===== src/Modelfile/Workspace/Generate.antt =====
-- `generateByWorkspace` against its specification: what is seen, within the limits, by type.
use modctl.Prelude.{
  ok-injective, ◌≡◌, refl, sym, ap, ◌∙◌, ◌↔◌, ◌⊎◌, inl, inr, Bool, true, false, ◌&&◌, ◌||◌, List,
  [], ◌∷◌, arith, ◌==◌, if◌then◌else◌, Bool-cases, any, all, Text, codes, text_eq, mem, Result,
  is_ok, ok, err, ◌>>=◌,
}
use modctl.Modelfile.FileType.{Humanize, FileType, infer_file_type}
use modctl.Modelfile.HashSet.{HashSet}
use modctl.Modelfile.Record.{Modelfile}
use modctl.Modelfile.Workspace.{
  with_files, no_files, Entry, Filter, Progress, add_file, generate_by_workspace,
}
use modctl.Modelfile.Workspace.Events.{Event, found, stop, events, run_events, walk-events}
use modctl.Modelfile.Workspace.Limits.{
  is_sized, IsWithinLimits, within, within_sound, within_complete, sorted, modelfile-grown,
  run_events-within, run_events-beyond,
}

abbrev pub same_type : FileType → FileType → Bool
same_type FileType.config FileType.config = true
same_type FileType.model FileType.model = true
same_type FileType.code FileType.code = true
same_type FileType.doc FileType.doc = true
same_type _ _ = false

-- The event is a file of the type with the relative path.
abbrev pub is_file_at : Humanize → FileType → Text → Event → Bool
is_file_at u t x (found rel name size) = text_eq x rel && same_type (infer_file_type u name size) t
is_file_at u t x (stop rel) = false

is_ok-bind :
    {E A B : Type 0} (r : Result E A) (f : A → Result E B)
    → is_ok r ≡ false
    → is_ok (r >>= f) ≡ false
is_ok-bind (ok a) f h = cc
is_ok-bind (err e) f h = refl

ok-ne : {E A : Type 0} {r : Result E A} {a : A} → is_ok r ≡ false → r ≡ ok a → ⊥
ok-ne h e = cc (h, ap is_ok e)

module _ {h : HashSet} where
  abbrev pub files_of : Modelfile h → FileType → h.Set
  files_of mf FileType.config = mf.config
  files_of mf FileType.model = mf.model
  files_of mf FileType.code = mf.code
  files_of mf FileType.doc = mf.doc

  abbrev pub is_empty_workspace : Modelfile h → Bool
  is_empty_workspace mf = h.size mf.model == 0 && h.size mf.code == 0 && h.size mf.dataset == 0

  pub with_files-eq-ok :
      (a b : Modelfile h) → with_files a ≡ ok b → (is_empty_workspace b ≡ false) × (b ≡ a)
  with_files-eq-ok a b e = go (is_empty_workspace a) refl e
    where
      go :
          (t : Bool)
          → is_empty_workspace a ≡ t
          → (if t then err no_files else ok a) ≡ ok b
          → (is_empty_workspace b ≡ false) × (b ≡ a)
      go true h e = cc
      go false h e = let same = ok-injective e in (ap is_empty_workspace (sym same) ∙ h, sym same)

  with_files-ok : (b a : Modelfile h) → is_empty_workspace b ≡ false → b ≡ a → with_files a ≡ ok b
  with_files-ok b a h e = ap with_files (sym e) ∙ ap (λ t. if t then err no_files else ok b) h

  module _ (u : Humanize) where
    mem-add_file :
        (t s : FileType) (x rel : Text) (mf : Modelfile h)
        → mem x (h.values (files_of (add_file u s rel mf) t))
          ≡ ((text_eq x rel && same_type s t) || mem x (h.values (files_of mf t)))
    unfolding add_file
    mem-add_file t s x rel mf = ground (arith, h.mem-add x rel (files_of mf t))

    pub mem-sorted :
        (t : FileType) (x : Text) (es : List Event) (mf : Modelfile h)
        → mem x (h.values (files_of (sorted u es mf) t))
          ≡ (any (is_file_at u t x) es || mem x (h.values (files_of mf t)))
    unfolding sorted
    mem-sorted t x [] mf = refl
    mem-sorted t x (stop rel ∷ es) mf = mem-sorted t x es mf
    mem-sorted t x (found rel name size ∷ es) mf =
        mem-sorted t x es (add_file u (infer_file_type u name size) rel mf)
        ∙ ground (arith, mem-add_file t (infer_file_type u name size) x rel mf)

    module _ (filter : Filter) (root : Entry) (mf : Modelfile h)
        (sized : all is_sized (events filter (codes ".") root) ≡ true) where
      abbrev seen : List Event
      seen = events filter (codes ".") root

      abbrev start : Progress h
      start = record { modelfile = mf; file_count = 0; total_size = 0 }

      limits-within : within u seen 0 0 ≡ true → IsWithinLimits u seen
      limits-within w =
          let (a, b, c) = within_sound u seen 0 0 (omega arith) (omega arith) w in
          record { small = a; few = omega (arith, b); light = omega (arith, c) }

      within-limits : IsWithinLimits u seen → within u seen 0 0 ≡ true
      within-limits l =
          within_complete u seen 0 0 l.small (omega (arith, l.few)) (omega (arith, l.light))

      generate-events :
          generate_by_workspace u filter root mf
          ≡ (run_events u seen start >>= (λ p. with_files p.modelfile))
      unfolding generate_by_workspace
      generate-events =
          ap (λ r. r >>= (λ p. with_files p.modelfile))
            (walk-events u filter (codes ".") root start)

      generate-within :
          within u seen 0 0 ≡ true
          → generate_by_workspace u filter root mf ≡ with_files (sorted u seen mf)
      generate-within w =
          generate-events
          ∙ ap (λ r. r >>= (λ p. with_files p.modelfile))
              (run_events-within u seen start (sized) (omega arith) w)
          ∙ ap with_files (modelfile-grown u seen start)

      generate-beyond :
          within u seen 0 0 ≡ false → is_ok (generate_by_workspace u filter root mf) ≡ false
      generate-beyond w =
          ap is_ok generate-events
          ∙ is_ok-bind (run_events u seen start) (λ p. with_files p.modelfile)
              (run_events-beyond u seen start (sized) (omega arith) w)

      generate_by_workspace_iff :
          (mf' : Modelfile h)
          → (generate_by_workspace u filter root mf ≡ ok mf')
            ↔ IsWithinLimits u (events filter (codes ".") root)
              × (is_empty_workspace mf' ≡ false)
              × (mf' ≡ sorted u (events filter (codes ".") root) mf)
      generate_by_workspace_iff mf' = elim (Bool-cases (within u seen 0 0)) [
        | inl w ↦
            let e = generate-within w in
            (
              λ g.
                  let (ne, same) = with_files-eq-ok _ mf' (sym e ∙ g) in
                  (limits-within w, ne, same),
              λ p. e ∙ with_files-ok mf' _ p.1 p.2,
            )
        | inr w ↦
            (λ g. absurd (ok-ne (generate-beyond w) g), λ p. absurd (cc (w, within-limits p.0)))
      ]

-- What the walk of a workspace comes to: a Modelfile with the files that are seen, or an error.
abbrev pub GenerateOutcome :
    (u : Humanize) (h : HashSet) (filter : Filter) (root : Entry) (mf : Modelfile h) → Type 0
GenerateOutcome u h filter root mf =
    ((mf' : Modelfile h) × (generate_by_workspace u filter root mf ≡ ok mf')
      × IsWithinLimits u (events filter (codes ".") root)
      × (is_empty_workspace mf' ≡ false)
      × ((t : FileType) (x : Text)
          → mem x (h.values (files_of mf' t)) ≡ (
              any (is_file_at u t x) (events filter (codes ".") root)
              || mem x (h.values (files_of mf t)))))
    ⊎ ((is_ok (generate_by_workspace u filter root mf) ≡ false)
        × (IsWithinLimits u (events filter (codes ".") root)
            → is_empty_workspace (sorted u (events filter (codes ".") root) mf) ≡ true))

-- The walk of a workspace whose file sizes are int64 ends well if and only if what it sees stays
-- within the limits (no entry that cannot be read, no file above 128 GB, at most 2048 files, at most
-- 8 TB in all) and a model, code or dataset file is among the result; the result then holds, beside
-- what was there, in the set of each type exactly the relative paths of the files seen whose inferred
-- type it is.
pub generate_by_workspace-sets :
    (u : Humanize) (h : HashSet) (filter : Filter) (root : Entry) (mf : Modelfile h)
    → all is_sized (events filter (codes ".") root) ≡ true
    → GenerateOutcome u h filter root mf
generate_by_workspace-sets u h filter root mf sized =
    let es = events filter (codes ".") root in
    elim (Bool-cases (within u es 0 0)) [
      | inr w ↦ inr (
        generate-beyond u filter root mf sized w,
        λ l. absurd (cc (w, within-limits u filter root mf sized l)),
      )
      | inl w ↦ elim (Bool-cases (is_empty_workspace (sorted u es mf))) [
        | inl e ↦ inr (
          ap is_ok (
              generate-within u filter root mf sized w
              ∙ ap (λ t. if t then err no_files else ok (sorted u es mf)) e),
          λ l. e,
        )
        | inr ne ↦ inl (
          sorted u es mf,
          (generate_by_workspace_iff u filter root mf sized (sorted u es mf)).1
              (limits-within u filter root mf sized w, ne, refl),
          limits-within u filter root mf sized w,
          ne,
          λ t x. mem-sorted u t x es mf,
        )
      ]
    ]
