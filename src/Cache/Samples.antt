-- ===== src/Cache/Samples.antt =====
-- A put and a get of internal/cache at concrete values.
use modctl.Prelude.{
  ◌≡◌, refl, ◌∙◌, true, false, Option, none, some, List, [], arith, if◌then◌else◌, codes, text_eq,
  ok,
}
use modctl.Cache.{
  Item, Outcomes, no_file, stored, find, fresh, get, put, prune, insert, store, read_items,
}
use modctl.Cache.Items.{find-insert_all}
use modctl.Cache.PutGet.{IsRange, get-put}

abbrev pub live : Outcomes
live = record { cancelled = false; locked = true; written = true }

abbrev weights : Item
weights = record {
  path = codes "/data/w.bin";
  mod_time = 5;
  size = 100;
  digest = codes "sha256:00";
  created_at = 10;
}

abbrev pub listing : List Item → List Item
listing is = is

pub listing-IsRange : IsRange listing
listing-IsRange is m k = find-insert_all k is [] m ∙ option_eta (find k is)
  where
    option_eta : (o : Option Item) → (elim o [ none ↦ none | some j ↦ some j ]) ≡ o
    option_eta none = refl
    option_eta (some j) = refl

weights-put :
    put listing live 20 no_file weights ≡ ok (stored (listing (prune 20 (insert weights []))))
unfolding put store read_items
weights-put = refl

get-put_example :
    get live 30 (stored (listing (prune 20 (insert weights [])))) (codes "/data/w.bin") ≡ (
      if text_eq (codes "/data/w.bin") (codes "/data/w.bin")
      then fresh 30 (some weights)
      else get live 30 no_file (codes "/data/w.bin"))
get-put_example =
    get-put listing live live 20 30 no_file (stored (listing (prune 20 (insert weights []))))
      weights (codes "/data/w.bin") listing-IsRange (refl, refl) (omega arith) weights-put
