-- ===== src/Nodes.antt =====
-- node/node.c and node/node.h: the live nodes, packed in an array, and the directory from a node's
-- id to its slot. `data_` is the live part of the C array (its length is `len`), `slots` the number
-- of nodes that its block holds; `by_id` is the whole directory (its length is `by_id.cap`), with
-- SIZE_MAX for an id that is not in use. An allocation's outcome is an argument.
pub mod Index
pub mod Invariant
pub mod Push
pub mod Remove
mod Tests
use resonance.Prelude.{
  ℕ, zero, suc, ◌+◌, ◌-◌, ◌*◌, ◌/◌, ◌%◌, Bool, true, false, Option, none, some, List, [], ◌∷◌, ◌++◌,
  if◌then◌else◌, ltb, leb, ◌==◌, length, get_elem?, set, take, replicate, u64_mod, size_max, Run,
  ok, out_of_bounds, out_of_fuel, ◌>>=◌, in_bounds,
}
use resonance.Prelude.Int.{ℤ}

pub record Node : Type 0 where
  pub id : ℕ
  pub x_nm : ℤ
  pub y_nm : ℤ
  pub vx_nm_per_ns : ℤ
  pub vy_nm_per_ns : ℤ

pub record NodeList : Type 0 where
  pub data_ : List Node
  pub cap : ℕ
  pub slots : ℕ
  pub by_id : List ℕ

abbrev pub node_size : ℕ
node_size = 40

-- `sizeof(size_t)`
abbrev pub index_size : ℕ
index_size = 8

-- What a block of `n` objects of `size` bytes really holds: the product wraps.
abbrev pub allocated : ℕ → ℕ → ℕ
allocated n size = (n * size) % u64_mod / size

-- The loop of `ensure_index_cap`. It gives up (the inner `none`) rather than wrap.
pub double_until : ℕ → ℕ → ℕ → Run (Option ℕ)
double_until zero new_cap id = out_of_fuel
double_until (suc k) new_cap id =
    let again = double_until k (new_cap * 2) id in
    if leb new_cap id
    then (if ltb (size_max / 2) new_cap then ok none else again)
    else ok (some new_cap)

-- The filling loop writes the slots from the old capacity to the new one.
pub fill_unused : List ℕ → ℕ → Run (Option (List ℕ))
fill_unused by_id new_cap =
    if ltb (allocated new_cap index_size) new_cap
    then out_of_bounds
    else ok (some (by_id ++ replicate (new_cap - length by_id) size_max))

-- 65 rounds double the least capacity past every `size_t`.
pub ensure_index_cap : Bool → List ℕ → ℕ → Run (Option (List ℕ))
ensure_index_cap realloc_ok by_id id =
    if leb size_max id then ok none else if ltb id (length by_id) then ok (some by_id) else (do
      grown ← double_until 65 (if length by_id == 0 then 1 else length by_id) id
      elim grown [
        | none ↦ ok none
        | some new_cap ↦ if realloc_ok then fill_unused by_id new_cap else ok none
      ])

unfoldable pub nodelist_init : Bool → ℕ → Option NodeList
nodelist_init malloc_ok initial_cap =
    let cap = if initial_cap == 0 then 1 else initial_cap in
    if malloc_ok
    then some (record { data_ = []; cap = cap; slots = allocated cap node_size; by_id = [] })
    else none

unfoldable pub nodelist_free : NodeList → NodeList
nodelist_free list = record { data_ = []; cap = 0; slots = 0; by_id = [] }

-- Room for one more node, or `none`.
pub reserve : Bool → NodeList → Option NodeList
reserve realloc_ok list =
    if ltb (length list.data_) list.cap
    then some list
    else if list.cap == 0
    then grow 1
    else if ltb (size_max / 2) list.cap
    then none
    else grow (list.cap * 2)
  where
    grow : ℕ → Option NodeList
    grow n =
        if ltb (size_max / node_size) n
        then none
        else if realloc_ok
        then some (record list { cap = n; slots = n })
        else none

-- `list->data[list->len] = node` and its directory entry.
pub place : NodeList → Node → Run (Bool × NodeList)
place list node =
    if ltb (length list.data_) list.slots
    then ok (
      true,
      record list {
        data_ = list.data_ ++ node ∷ [];
        by_id = set list.by_id node.id (length list.data_);
      },
    )
    else out_of_bounds

-- The rest of `nodelist_push` once the id is known to be free.
pub place_grown : Bool → NodeList → Node → Run (Bool × NodeList)
place_grown data_ok list node = elim (reserve data_ok list) [
  | none ↦ ok (false, list)
  | some roomy ↦ place roomy node
]

-- A push that is refused leaves the directory as it has grown.
unfoldable pub nodelist_push : Bool → Bool → NodeList → Node → Run (Bool × NodeList)
nodelist_push index_ok data_ok list node = do
  ensured ← ensure_index_cap index_ok list.by_id node.id
  elim ensured [
    | none ↦ ok (false, list)
    | some by_id ↦ do
      let indexed = record list { by_id = by_id }
      slot ← in_bounds (get_elem? by_id node.id)
      if slot == size_max then place_grown data_ok indexed node else ok (false, indexed)
  ]

-- The node behind the returned pointer, `none` for `nullptr`. An empty directory is the C code's
-- `by_id.data == nullptr`.
unfoldable pub nodelist_find : NodeList → ℕ → Run (Option Node)
nodelist_find list id = if leb (length list.by_id) id then ok none else (do
  i ← in_bounds (get_elem? list.by_id id)
  if i == size_max then ok none else in_bounds (get_elem? list.data_ i) >>= λ node. ok (some node))

-- A write into the directory.
pub write_index : List ℕ → ℕ → ℕ → Run (List ℕ)
write_index by_id id i = if ltb id (length by_id) then ok (set by_id id i) else out_of_bounds

-- The last node fills the gap.
pub fill_gap : NodeList → ℕ → ℕ → List ℕ → Run (Bool × NodeList)
fill_gap list index last by_id =
    if index == last
    then ok (true, record list { data_ = take last list.data_; by_id = by_id })
    else (do
      moved ← in_bounds (get_elem? list.data_ last)
      moved_index ← write_index by_id moved.id index
      ok (
        true,
        record list { data_ = take last (set list.data_ index moved); by_id = moved_index },
      ))

unfoldable pub nodelist_remove_unordered : NodeList → ℕ → Run (Bool × NodeList)
nodelist_remove_unordered list index =
    if leb (length list.data_) index then ok (false, list) else (do
      gone ← in_bounds (get_elem? list.data_ index)
      by_id ← write_index list.by_id gone.id size_max
      fill_gap list index (length list.data_ - 1) by_id)

unfoldable pub nodelist_remove_by_id : NodeList → ℕ → Run (Bool × NodeList)
nodelist_remove_by_id list id = if leb (length list.by_id) id then ok (false, list) else (do
  i ← in_bounds (get_elem? list.by_id id)
  if i == size_max then ok (false, list) else nodelist_remove_unordered list i)
