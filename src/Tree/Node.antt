-- ===== src/Tree/Node.antt =====
-- `RadixNode` and `RadixTree` of include/radixforge/radix_tree.h, and access to a node by its
-- address.
--
-- A `RadixNode*` is a number, the address of the object: 0 is the null pointer and 1 the root.
-- A node's `children`, which own their nodes, are the second argument of its `child` entry. The
-- back pointer `parent` is the entry above.
use radixforge.Common.{
  ℕ, ◌+◌, Bool, false, ◌||◌, List, [], ◌∷◌, ◌++◌, Option, none, some, ◌==◌, if◌then◌else◌, length,
  indicator, count,
}

pub record RadixNode : Type 0 where
  pub address : ℕ
  pub tokens : List ℕ
  pub ref_count : ℕ
  pub seq_ids : List ℕ
  pub ready_seq_ids : List ℕ
  pub last_access_tick : ℕ
  pub canonical_len : ℕ

-- `std::unordered_map<llama_token, std::unique_ptr<RadixNode>>`: an entry has its key, its node,
-- the node's own children, and the entries behind it.
pub data Children : Type 0 where
  nil : Children
  child : ℕ → RadixNode → Children → Children → Children

-- `nodes` is the root's entry alone; `next_address` is the address that `new` returns next.
pub record RadixTree : Type 0 where
  pub nodes : Children
  pub tick : ℕ
  pub next_address : ℕ

abbrev pub null : ℕ
null = 0

abbrev pub root_address : ℕ
root_address = 1

-- A node that `std::make_unique<RadixNode>()` made, with its tokens and tick filled in.
abbrev pub new_node : ℕ → List ℕ → ℕ → RadixNode
new_node address tokens tick = record {
  address = address;
  tokens = tokens;
  ref_count = 0;
  seq_ids = [];
  ready_seq_ids = [];
  last_access_tick = tick;
  canonical_len = 0;
}

-- The constructor `RadixTree()`.
unfoldable pub empty_tree : RadixTree
empty_tree = record {
  nodes = child 0 (record (new_node root_address [] 0) { ref_count = 1 }) nil nil;
  tick = 0;
  next_address = 2;
}

abbrev pub or_else {ℓ} : {A : Type ℓ} → Option A → Option A → Option A
or_else none o = o
or_else (some a) o = some a

-- `*node`; `none` for the null pointer.
unfoldable pub get : ℕ → Children → Option RadixNode
get i nil = none
get i (child k n ks sibs) = if n.address == i then some n else or_else (get i ks) (get i sibs)

-- `node->children`.
unfoldable pub children_of : ℕ → Children → Children
children_of i nil = nil
children_of i (child k n ks sibs) =
    if n.address == i
    then ks
    else elim (children_of i ks) [ nil ↦ children_of i sibs | child j m a b ↦ child j m a b ]

-- Assignments to fields of `*node`.
unfoldable pub modify : ℕ → (RadixNode → RadixNode) → Children → Children
modify i f nil = nil
modify i f (child k n ks sibs) =
    child k (if n.address == i then f n else n) (modify i f ks) (modify i f sibs)

unfoldable pub has_key : ℕ → Children → Bool
has_key key nil = false
has_key key (child k n ks sibs) = k == key || has_key key sibs

-- `children[key] = std::move(node)`, for a node with no children.
unfoldable pub set_child : ℕ → RadixNode → Children → Children
set_child key leaf nil = child key leaf nil nil
set_child key leaf (child k n ks sibs) =
    if k == key then child key leaf nil sibs else child k n ks (set_child key leaf sibs)

-- `children.erase(key)`.
unfoldable pub erase_key : ℕ → Children → Children
erase_key key nil = nil
erase_key key (child k n ks sibs) = if k == key then sibs else child k n ks (erase_key key sibs)

-- `node->children[key] = std::move(leaf)`.
unfoldable pub add_child : ℕ → ℕ → RadixNode → Children → Children
add_child i key leaf nil = nil
add_child i key leaf (child k n ks sibs) =
    let ks' = add_child i key leaf ks in
    child k n (if n.address == i then set_child key leaf ks' else ks') (add_child i key leaf sibs)

-- Pointers from a node up to the root, the node first: `node`, `node->parent`, ...; `[]` for null.
unfoldable pub chain : ℕ → Children → List RadixNode
chain i nil = []
chain i (child k n ks sibs) =
    if n.address == i
    then n ∷ []
    else elim (chain i ks) [ [] ↦ chain i sibs | a ∷ up ↦ (a ∷ up) ++ n ∷ [] ]

-- A sum over all nodes. The loops that count nodes or sequences visit each node once, so that
-- their order does not matter.
unfoldable pub total : (RadixNode → ℕ) → Children → ℕ
total w nil = 0
total w (child k n ks sibs) = w n + total w ks + total w sibs

-- How many nodes have the address `i`.
abbrev pub at : ℕ → RadixNode → ℕ
at i n = indicator n.address i

-- 1 where the node owns the sequence `s`.
abbrev pub owns : ℕ → RadixNode → ℕ
owns s n = count s n.seq_ids

unfoldable pub active_sequence_count : RadixTree → ℕ
active_sequence_count t = total (λ n. length n.seq_ids) t.nodes

unfoldable pub retained_sequence_count : RadixTree → ℕ
retained_sequence_count t =
    total (λ n. if n.ref_count == 0 then length n.ready_seq_ids else 0) t.nodes

unfoldable pub node_count : RadixTree → ℕ
node_count t = total (λ n. 1) t.nodes
