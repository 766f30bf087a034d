-- ===== src/Modelfile/Content/Sorting.antt =====
-- `sort.Strings` keeps the elements.
use modctl.Prelude.{
  Text, text_eq, text_lt, mem, List, [], ◌∷◌, All, ◌≡◌, refl, ◌||◌, arith, Bool-cases, inl, inr,
}
use modctl.Modelfile.Content.{insert_sorted, sort_strings}

mem-insert_sorted :
    (z x : Text) (ys : List Text) → mem z (insert_sorted x ys) ≡ (text_eq z x || mem z ys)
unfolding insert_sorted
mem-insert_sorted z x [] = refl
mem-insert_sorted z x (y ∷ ys) = ground (arith, mem-insert_sorted z x ys)

pub mem-sort_strings : (z : Text) (xs : List Text) → mem z (sort_strings xs) ≡ mem z xs
unfolding sort_strings
mem-sort_strings z [] = refl
mem-sort_strings z (x ∷ xs) =
    ground (arith, mem-insert_sorted z x (sort_strings xs), mem-sort_strings z xs)

All-insert_sorted :
    (P : Text → Type 0) (x : Text) (ys : List Text) → P x → All P ys → All P (insert_sorted x ys)
unfolding insert_sorted
All-insert_sorted P x [] p h = (p, tt)
All-insert_sorted P x (y ∷ ys) p (q, h) = elim (Bool-cases (text_lt y x)) [
  | inl e ↦ rw e (q, All-insert_sorted P x ys p h)
  | inr e ↦ rw e (p, (q, h))
]

pub All-sort_strings : (P : Text → Type 0) (xs : List Text) → All P xs → All P (sort_strings xs)
unfolding sort_strings
All-sort_strings P [] h = tt
All-sort_strings P (x ∷ xs) (p, h) =
    All-insert_sorted P x (sort_strings xs) p (All-sort_strings P xs h)
