-- ===== src/Source/Graph.antt =====
-- internal/source/chatgpt/parser.go: the nodes of a conversation and their parents and children.
use gpt_owu_bridge.Base.{
  ℕ, zero, suc, String, List, [], ◌∷◌, Map, lookup, Option, none, some, not, ◌||◌, ◌==◌, text_eq,
  nat_eq, if◌then◌else◌, contains, Result, ok, err, ◌>>=◌, ◌>>◌, refuse_if,
}
use gpt_owu_bridge.Source.Values.{
  Value, Library, as_text, as_object, at, text_at, is_null, string_slice,
}

-- A value, or the error of the format.
abbrev pub or_refuse {ℓ} : {A : Type ℓ} → Option A → String → Result String A
or_refuse none message = err message
or_refuse (some a) message = ok a

-- The check of each node in `buildSnapshot`.
abbrev check_node : String → Value → Result String (Unit {0})
check_node key raw = do
  node ← or_refuse (as_object raw) "mapping contains a non-object node"
  refuse_if (text_at node "id" == "" || not (text_at node "id" == key))
      "mapping key and node id differ"

unfoldable pub check_nodes : Map Value → Result String (Unit {0})
check_nodes [] = ok tt
check_nodes ((key, raw) ∷ rest) = do check_node key raw; check_nodes rest

unfoldable pub validate_linear_node : Library → Map Value → Map Value → Result String (Unit {0})
validate_linear_node l mapped linear = do
  refuse_if (not (l.deep_equal (at mapped "parent") (at linear "parent")))
      "linear conversation node parent differs from mapping"
  refuse_if (not (l.deep_equal (at mapped "children") (at linear "children")))
      "linear conversation node children differ from mapping"
  refuse_if (not (l.deep_equal (at mapped "message") (at linear "message")))
      "linear conversation node message differs from mapping"

-- One entry of the linear conversation: its id and the node that the mapping has for it.
abbrev linear_node : Library → Map Value → Value → Result String (String × Map Value)
linear_node l mapping raw = do
  node ← or_refuse (as_object raw) "linear conversation contains a non-object node"
  id ← or_refuse (as_text (at node "id")) "conversation node has no id"
  refuse_if (id == "") "conversation node has no id"
  mapped ← or_refuse (as_object (at mapping id)) "linear conversation node is absent from mapping"
  refuse_if (not (text_at mapped "id" == id)) "mapping key and node id differ"
  validate_linear_node l mapped node
  ok (id, mapped)

-- The loop over the linear conversation.
unfoldable pub linear_nodes :
    Library → Map Value → List Value → Result String (List (String × Map Value))
linear_nodes l mapping [] = ok []
linear_nodes l mapping (raw ∷ rest) = do
  here ← linear_node l mapping raw
  others ← linear_nodes l mapping rest
  ok (here ∷ others)

-- A parent that is missing or null is the empty id.
abbrev parent_id : Map Value → Result String String
parent_id node =
    if is_null (at node "parent")
    then ok ""
    else or_refuse (as_text (at node "parent")) "node parent is not a string or null"

-- The checks of a node on the chain, and its parent.
unfoldable pub parent_of : Map Value → String → Result String String
parent_of mapping current = do
  raw ← or_refuse (lookup current mapping) "parent chain references a missing node"
  node ← or_refuse (as_object raw) "mapping contains a non-object node"
  refuse_if (not (text_at node "id" == current)) "mapping key and node id differ"
  parent_id node

-- The loop of `ancestry`: the ids so far, the last one first, and how many more it takes.
unfoldable pub ancestors : Map Value → List String → ℕ → String → Result String (List String)
ancestors mapping chain zero current =
    if current == "" then ok chain else err "parent chain exceeds depth limit"
ancestors mapping chain (suc left) current =
    if current == ""
    then ok chain
    else if contains chain current
    then err "cyclic parent chain"
    else (parent_of mapping current >>= λ parent. ancestors mapping (current ∷ chain) left parent)

-- `ancestry`.
unfoldable pub ancestry : Map Value → String → ℕ → Result String (List String)
unfolding ancestors
ancestry mapping current max_depth = ancestors mapping [] (suc max_depth) current

-- The first loop of `validateChildren`: a child names its parent.
abbrev check_children : Map Value → String → List String → Result String (Unit {0})
check_children mapping id [] = ok tt
check_children mapping id (child ∷ rest) = do
  raw ← or_refuse (lookup child mapping) "node child references a missing node"
  node ← or_refuse (as_object raw) "mapping contains a non-object node"
  refuse_if (not (text_at node "parent" == id)) "child and parent references disagree"
  check_children mapping id rest

abbrev children_of : Map Value → String → Map Value → Result String (Unit {0})
children_of mapping id node =
    if is_null (at node "children")
    then ok tt
    else (or_refuse (string_slice (at node "children")) "node children are not strings"
        >>= check_children mapping id)

unfoldable pub each_children : Map Value → Map Value → Result String (Unit {0})
each_children mapping [] = ok tt
each_children mapping ((id, raw) ∷ rest) = do
  node ← or_refuse (as_object raw) "mapping contains a non-object node"
  children_of mapping id node
  each_children mapping rest

-- The second loop: a parent lists its child.
abbrev check_parent : Map Value → String → String → Result String (Unit {0})
check_parent mapping id parent = do
  raw ← or_refuse (lookup parent mapping) "node parent references a missing node"
  node ← or_refuse (as_object raw) "mapping contains a non-object node"
  children ← or_refuse (string_slice (at node "children")) "parent does not reference its child"
  refuse_if (not (contains children id)) "parent does not reference its child"

abbrev parent_lists : Map Value → String → Map Value → Result String (Unit {0})
parent_lists mapping id node =
    if is_null (at node "parent")
    then ok tt
    else (or_refuse (as_text (at node "parent")) "node parent is not a non-empty string or null"
        >>= λ parent.
            (refuse_if (parent == "") "node parent is not a non-empty string or null"
              >> check_parent mapping id parent))

unfoldable pub each_parent : Map Value → Map Value → Result String (Unit {0})
each_parent mapping [] = ok tt
each_parent mapping ((id, raw) ∷ rest) = do
  node ← or_refuse (as_object raw) "mapping contains a non-object node"
  parent_lists mapping id node
  each_parent mapping rest

-- `validateChildren`.
unfoldable pub validate_children : Map Value → Result String (Unit {0})
validate_children mapping = do each_children mapping mapping; each_parent mapping mapping
