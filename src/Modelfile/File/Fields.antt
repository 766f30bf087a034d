-- ===== src/Modelfile/File/Fields.antt =====
-- What one node adds to the fields of a Modelfile, as `parseFile` takes it in.
use modctl.Prelude.{
  is_empty, append-nil, mem-append, inr, subst, text_eq_sound, append_assoc, inl, Bool-cases, sym,
  text_eq_refl, ◌∙◌, ap, ℕ, ◌≤◌, ◌≡◌, ◌≢◌, refl, Text, text_eq, mem, List, [], ◌∷◌, ◌++◌, length,
  if◌then◌else◌, Option, none, some, arith, true, false,
}
use modctl.Modelfile.Ast.{Node, get_value, get_next}
use modctl.Modelfile.File.{FileError, duplicate}
use modctl.Modelfile.HashSet.{HashSet}
use modctl.Modelfile.Record.{
  Many, One, Field, many, one, Modelfile, get_many, set_many, get_one, set_one, field_of,
  command_of, field_of-command_of, field_of_sound,
}

argument_list : Option Node → List Text
argument_list none = []
argument_list (some a) = get_value a ∷ []

node_args : Field → Node → List Text
node_args f n = if text_eq (get_value n) (command_of f) then argument_list (get_next n) else []

-- The arguments of one command, in the order of the nodes.
unfoldable pub args_of : Field → List Node → List Text
unfolding node_args argument_list
args_of f [] = []
args_of f (n ∷ ns) = node_args f n ++ args_of f ns

abbrev pub optional : Text → List Text
optional [] = []
optional (c ∷ s) = (c ∷ s) ∷ []

optional_of_ne_nil : (v : Text) → v ≢ [] → optional v ≡ v ∷ []
optional_of_ne_nil [] h = absurd (h refl)
optional_of_ne_nil (c ∷ s) h = refl

pub is_empty-eq-nil : (v : Text) → is_empty v ≡ true → v ≡ []
is_empty-eq-nil [] h = refl
is_empty-eq-nil (c ∷ s) h = cc

length-optional : (v w : Text) → is_empty v ≡ false → 2 ≤ length (optional v ++ w ∷ [])
length-optional [] w h = cc
length-optional (c ∷ s) w h = omega arith

-- A set holds the arguments of its command, and a single value is the one argument of its command,
-- if there is one.
pub record Describes {h : HashSet} (mf : Modelfile h) (nodes : List Node) : Type 0 where
  pub many_args :
      (m : Many) (x : Text) → mem x (h.values (get_many mf m)) ≡ mem x (args_of (many m) nodes)
  pub one_args : (o : One) → args_of (one o) nodes ≡ optional (get_one mf o)

-- A single-valued command that stands twice among the nodes.
abbrev pub IsRepeated : FileError → List Node → Type 0
IsRepeated e nodes =
    (o : One) × (l : ℕ) × (e ≡ duplicate o l) × (2 ≤ length (args_of (one o) nodes))

Many-discrete : Discrete Many
Many-discrete = hlevel

One-discrete : Discrete One
One-discrete = hlevel

module _ {h : HashSet} where
  get_many-set_many_self :
      (mf : Modelfile h) (m : Many) (s : h.Set) → get_many (set_many mf m s) m ≡ s
  get_many-set_many_self mf m s = ground arith

  get_many-set_many_ne :
      (mf : Modelfile h) (m m' : Many) (s : h.Set)
      → m ≢ m'
      → get_many (set_many mf m s) m' ≡ get_many mf m'
  get_many-set_many_ne mf m m' s ne = ground arith

  get_one-set_one_self : (mf : Modelfile h) (o : One) (v : Text) → get_one (set_one mf o v) o ≡ v
  get_one-set_one_self mf o v = ground arith

  get_one-set_one_ne :
      (mf : Modelfile h) (o o' : One) (v : Text)
      → o ≢ o'
      → get_one (set_one mf o v) o' ≡ get_one mf o'
  get_one-set_one_ne mf o o' v ne = ground arith

  get_one-set_many :
      (mf : Modelfile h) (m : Many) (s : h.Set) (o : One)
      → get_one (set_many mf m s) o ≡ get_one mf o
  get_one-set_many mf m s o = ground arith

  get_many-set_one :
      (mf : Modelfile h) (o : One) (v : Text) (m : Many)
      → get_many (set_one mf o v) m ≡ get_many mf m
  get_many-set_one mf o v m = ground arith

pub args_of-append :
    (f : Field) (xs ys : List Node) → args_of f (xs ++ ys) ≡ args_of f xs ++ args_of f ys
unfolding args_of
args_of-append f [] ys = refl
args_of-append f (x ∷ xs) ys =
    ap (λ zs. node_args f x ++ zs) (args_of-append f xs ys)
    ∙ sym (append_assoc (node_args f x) (args_of f xs) (args_of f ys))

-- One more node, of the field `g` and with the argument node `a`.
module _ (done : List Node) (n a : Node) (g : Field) (is_g : field_of (get_value n) ≡ some g)
    (has_a : get_next n ≡ some a) where
  args_of-snoc_self : args_of g (done ++ n ∷ []) ≡ args_of g done ++ get_value a ∷ []
  args_of-snoc_self =
      args_of-append g done (n ∷ [])
      ∙ ap (λ zs. args_of g done ++ zs)
          (unfold args_of in
            rw (field_of_sound (get_value n) g is_g, text_eq_refl (command_of g), has_a) refl)

  args_of-snoc_ne : (f : Field) → f ≢ g → args_of f (done ++ n ∷ []) ≡ args_of f done
  args_of-snoc_ne f ne =
      args_of-append f done (n ∷ []) ∙ (elim (Bool-cases (text_eq (get_value n) (command_of f))) [
        | inl e ↦ absurd (
            ne (
              cc (
                is_g,
                ap field_of (text_eq_sound (get_value n) (command_of f) e),
                field_of-command_of f,
              )))
        | inr e ↦ unfold args_of in rw e (append-nil (args_of f done))
      ])

-- Several nodes that keep what is said of the fields, one argument of the node more.
module _ {h : HashSet} (mf : Modelfile h) (done : List Node) (n a : Node)
    (has_a : get_next n ≡ some a) (d : Describes mf done) where
  pub Describes-many :
      (m : Many)
      → field_of (get_value n) ≡ some (many m)
      → Describes (set_many mf m (h.add (get_many mf m) (get_value a))) (done ++ n ∷ [])
  Describes-many m is_m = record {
    many_args = λ m' x. elim (Many-discrete m m') [
      | yes e ↦
          subst
            (λ k.
              mem x (h.values (get_many (set_many mf m (h.add (get_many mf m) (get_value a))) k))
              ≡ mem x (args_of (many k) (done ++ n ∷ [])))
            e
            (rw (args_of-snoc_self done n a (many m) is_m has_a) (
              rw (get_many-set_many_self mf m (h.add (get_many mf m) (get_value a))) (
                rw (h.mem-add x (get_value a) (get_many mf m), mem-append)
                  (ground (arith, d.many_args m x)))))
      | no ne ↦ rw (args_of-snoc_ne done n a (many m) is_m has_a (many m') (λ e. ne (cc e))) (
          rw (get_many-set_many_ne mf m m' (h.add (get_many mf m) (get_value a)) ne)
            (d.many_args m' x))
    ];
    one_args = λ o.
        rw (args_of-snoc_ne done n a (many m) is_m has_a (one o) (λ e. cc e))
          (rw get_one-set_many (d.one_args o));
  }

  pub Describes-one :
      (o : One)
      → field_of (get_value n) ≡ some (one o)
      → get_one mf o ≡ []
      → get_value a ≢ []
      → Describes (set_one mf o (get_value a)) (done ++ n ∷ [])
  Describes-one o is_o unset ne_nil = record {
    many_args = λ m x.
        rw (args_of-snoc_ne done n a (one o) is_o has_a (many m) (λ e. cc e))
          (rw get_many-set_one (d.many_args m x));
    one_args = λ o'. elim (One-discrete o o') [
      | yes e ↦
          subst
            (λ k.
              args_of (one k) (done ++ n ∷ []) ≡ optional (get_one (set_one mf o (get_value a)) k))
            e
            (rw (args_of-snoc_self done n a (one o) is_o has_a) (
              rw (d.one_args o, unset)
                (rw (get_one-set_one_self mf o (get_value a)) (sym (optional_of_ne_nil _ ne_nil)))))
      | no ne ↦
          rw (args_of-snoc_ne done n a (one o) is_o has_a (one o') (λ e. ne (cc e)))
            (rw (get_one-set_one_ne mf o o' (get_value a) ne) (d.one_args o'))
    ];
  }

  pub repeated :
      (o : One)
      → field_of (get_value n) ≡ some (one o)
      → is_empty (get_one mf o) ≡ false
      → 2 ≤ length (args_of (one o) (done ++ n ∷ []))
  repeated o is_o set =
      rw (args_of-snoc_self done n a (one o) is_o has_a)
        (rw (d.one_args o) (length-optional _ _ set))
