-- ===== src/Modelfile/Workspace/Events.antt =====
-- The walk is a run over the list of what it finds, which the filter alone decides.
use modctl.Prelude.{
  ℕ, ◌≡◌, refl, sym, ap, ◌∙◌, Bool, not, ◌&&◌, ◌||◌, List, [], ◌∷◌, ◌++◌, arith, if◌then◌else◌,
  Text, Result, ok, err, ◌>>=◌,
}
use modctl.Modelfile.FileType.{Humanize, is_skippable}
use modctl.Modelfile.HashSet.{HashSet}
use modctl.Modelfile.Workspace.{
  Entry, Entries, file, dir, blocked, nil, cons, entry_name, Filter, WalkError, walk_error,
  Progress, join_rel, take_file, visit_file, visit_dir, walk, walk_entries,
}

-- A file that is taken, by its relative path, name and size, or an entry that ends the walk.
pub data Event : Type 0 where
  found : Text → Text → ℕ → Event
  stop : Text → Event

-- A directory is seen if it is not excluded, and not hidden or included; a file if it is not hidden
-- or included, and not excluded.
abbrev pub is_seen_dir : Filter → Text → Text → Bool
is_seen_dir filter rel name =
    not (filter.matches rel) && (not (is_skippable name) || filter.should_descend rel)

abbrev pub is_seen_file : Filter → Text → Text → Bool
is_seen_file filter rel name =
    not (filter.matches rel) && (not (is_skippable name) || filter.match_include rel)

unfoldable mutual
  pub events : Filter → Text → Entry → List Event
  events filter rel (file name size) =
      if is_seen_file filter rel name then found rel name size ∷ [] else []
  events filter rel (blocked name) = stop rel ∷ []
  events filter rel (dir name entries) =
      let below = events_below filter rel entries in
      if is_seen_dir filter rel name then below else []

  events_below : Filter → Text → Entries → List Event
  events_below filter rel nil = []
  events_below filter rel (cons e es) =
      events filter (join_rel rel (entry_name e)) e ++ events_below filter rel es

bind-ok : {E A : Type 0} (r : Result E A) → (r >>= ok) ≡ r
bind-ok (ok a) = refl
bind-ok (err e) = refl

bind-bind :
    {E A B C : Type 0} (r : Result E A) (f : A → Result E B) (g : B → Result E C)
    (k : A → Result E C)
    → ((a : A) → k a ≡ (f a >>= g))
    → (r >>= k) ≡ ((r >>= f) >>= g)
bind-bind (ok a) f g k h = h a
bind-bind (err e) f g k h = refl

bind-same :
    {E A B : Type 0} (r : Result E A) (f g : A → Result E B)
    → ((a : A) → f a ≡ g a)
    → (r >>= f) ≡ (r >>= g)
bind-same (ok a) f g h = h a
bind-same (err e) f g h = refl

module _ (u : Humanize) {h : HashSet} where
  unfoldable pub run_events : List Event → Progress h → Result WalkError (Progress h)
  run_events [] p = ok p
  run_events (found rel name size ∷ es) p = do p' ← take_file u rel name size p; run_events es p'
  run_events (stop rel ∷ es) p = err (walk_error rel)

  run_events-append :
      (xs ys : List Event) (p : Progress h)
      → run_events (xs ++ ys) p ≡ (run_events xs p >>= run_events ys)
  unfolding run_events
  run_events-append [] ys p = refl
  run_events-append (stop rel ∷ xs) ys p = refl
  run_events-append (found rel name size ∷ xs) ys p =
      bind-bind (take_file u rel name size p) (run_events xs) (run_events ys)
        (run_events (xs ++ ys)) (λ p'. run_events-append xs ys p')

  visit_file-events :
      (filter : Filter) (rel name : Text) (size : ℕ) (p : Progress h)
      → visit_file u filter rel name size p
        ≡ run_events (if is_seen_file filter rel name then found rel name size ∷ [] else []) p
  unfolding run_events visit_file
  visit_file-events filter rel name size p = ground (arith, bind-ok (take_file u rel name size p))

  mutual
    unfolding walk events run_events visit_dir

    pub walk-events :
        (filter : Filter) (rel : Text) (e : Entry) (p : Progress h)
        → walk u filter rel e p ≡ run_events (events filter rel e) p
    walk-events filter rel (file name size) p = visit_file-events filter rel name size p
    walk-events filter rel (blocked name) p = refl
    walk-events filter rel (dir name entries) p =
        ground (arith, walk_entries-events filter rel entries p)

    walk_entries-events :
        (filter : Filter) (rel : Text) (es : Entries) (p : Progress h)
        → walk_entries u filter rel es p ≡ run_events (events_below filter rel es) p
    walk_entries-events filter rel nil p = refl
    walk_entries-events filter rel (cons e es) p =
        bind-same (walk u filter (join_rel rel (entry_name e)) e p) (walk_entries u filter rel es)
          (run_events (events_below filter rel es)) (walk_entries-events filter rel es)
        ∙ ap (λ r. r >>= run_events (events_below filter rel es))
            (walk-events filter (join_rel rel (entry_name e)) e p)
        ∙ sym (
            run_events-append (events filter (join_rel rel (entry_name e)) e)
              (events_below filter rel es) p)

-- The walk with the callback is, from any state, a run over the list of the files that are seen, in
-- the order of the walk: what it visits depends on the tree and the filter alone. A directory below
-- one that is not seen is not seen either, and an entry that cannot be read ends the run with an
-- error.
pub walk-run_events :
    (u : Humanize) (h : HashSet) (filter : Filter) (rel : Text) (e : Entry) (p : Progress h)
    → walk u filter rel e p ≡ run_events u (events filter rel e) p
walk-run_events u h filter rel e p = walk-events u filter rel e p
