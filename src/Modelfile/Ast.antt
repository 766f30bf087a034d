-- ===== src/Modelfile/Ast.antt =====
-- pkg/modelfile/parser/ast.go: the syntax tree. A method that changes `*node` returns the new node;
-- a nil interface or map is `none`.
use modctl.Prelude.{
  ℕ, Text, text_eq, List, [], ◌∷◌, ◌++◌, Option, none, some, if◌then◌else◌, ◌≡◌, refl, ap,
}

-- A Go map, as an association list with one entry for a key.
abbrev pub Attributes : Type 0
Attributes = List (Text × Text)

mutual
  pub data Node : Type 0 where
    node : Text → Next → Nodes → ℕ → ℕ → Option Attributes → Node

  pub data Next : Type 0 where
    no_next : Next
    next : Node → Next

  pub data Nodes : Type 0 where
    nil : Nodes
    cons : Node → Nodes → Nodes

unfoldable pub new_root_node : Node
new_root_node = node [] no_next nil 0 0 none

unfoldable pub new_node : Text → ℕ → ℕ → Node
new_node value start end = node value no_next nil start end none

unfoldable pub get_next : Node → Option Node
get_next (node v no_next cs s e a) = none
get_next (node v (next n) cs s e a) = some n

to_list : Nodes → List Node
to_list nil = []
to_list (cons n ns) = n ∷ to_list ns

unfoldable pub get_children : Node → List Node
unfolding to_list
get_children (node v n cs s e a) = to_list cs

unfoldable pub get_value : Node → Text
get_value (node v n cs s e a) = v

unfoldable pub get_start_line : Node → ℕ
get_start_line (node v n cs s e a) = s

unfoldable pub get_end_line : Node → ℕ
get_end_line (node v n cs s e a) = e

unfoldable pub get_attributes : Node → Option Attributes
get_attributes (node v n cs s e a) = a

-- `append(n.children, child)`.
append_child : Nodes → Node → Nodes
append_child nil child = cons child nil
append_child (cons n ns) child = cons n (append_child ns child)

unfoldable pub add_child : Node → Node → Node
unfolding append_child
add_child (node v n cs s e a) child = node v n (append_child cs child) s e a

unfoldable pub add_next : Node → Node → Node
add_next (node v _ cs s e a) n = node v (next n) cs s e a

-- `m[key] = value`.
put_attribute : Text → Text → Attributes → Attributes
put_attribute key value [] = (key, value) ∷ []
put_attribute key value ((k, w) ∷ rest) =
    if text_eq k key then (k, value) ∷ rest else (k, w) ∷ put_attribute key value rest

-- `make(map[string]string)` if the map is nil.
or_made : Option Attributes → Attributes
or_made none = []
or_made (some m) = m

unfoldable pub add_attribute : Text → Text → Node → Node
unfolding put_attribute or_made
add_attribute key value (node v n cs s e a) =
    node v n cs s e (some (put_attribute key value (or_made a)))

to_list-append_child : (cs : Nodes) (n : Node) → to_list (append_child cs n) ≡ to_list cs ++ n ∷ []
unfolding to_list append_child
to_list-append_child nil n = refl
to_list-append_child (cons m ms) n = ap (λ ns. m ∷ ns) (to_list-append_child ms n)

-- A child is added behind the others.
pub get_children-add_child :
    (parent child : Node)
    → get_children (add_child parent child) ≡ get_children parent ++ child ∷ []
unfolding get_children add_child
get_children-add_child (node v n cs s e a) child = to_list-append_child cs child
