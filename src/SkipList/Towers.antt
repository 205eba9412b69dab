-- ===== src/SkipList/Towers.antt =====
-- common/cf_skiplist.c: the levels of a skip list. Each level is a linked list of its own; a node of
-- depth d stands in the lowest d of them.
use lmp.Prelude.{ℕ, zero, suc, Option, none, some, List, [], ◌∷◌, ltb, ◌==◌, if◌then◌else◌, length}
use lmp.SkipList.{SkipList}

-- A linked list of nodes with key, value and depth.
abbrev pub Level : Type 0 → Type 0
Level V = SkipList (V × ℕ)

-- Levels from the top one to the bottom. A pointer to a pointer of level i, as `iterp`, is the key of the
-- node whose `next[i]` it points to, or `none` for `entries[i]`; `iterp--` is the same of the level below.
module _ {A : Type 0} where
  -- `*iterp`: what is linked there.
  unfoldable pub after : Option ℕ → SkipList A → SkipList A
  after none nodes = nodes
  after (some p) [] = []
  after (some p) ((k, a) ∷ nodes) =
      let rest = after (some p) nodes in if k == p then nodes else rest

  -- `*iterp = rest`
  unfoldable pub write : Option ℕ → SkipList A → SkipList A → SkipList A
  write none rest nodes = rest
  write (some p) rest [] = []
  write (some p) rest ((k, a) ∷ nodes) =
      let next = write (some p) rest nodes in if k == p then (k, a) ∷ rest else (k, a) ∷ next

  -- The loops along one level, from `*iterp` on: the node with the key, if it is met, and where the
  -- loop leaves the level.
  unfoldable pub walk : Option ℕ → ℕ → SkipList A → Option A × Option ℕ
  walk from key [] = (none, from)
  walk from key ((k, a) ∷ nodes) =
      let rest = walk (some k) key nodes in
      if k == key then (some a, from) else if ltb key k then (none, from) else rest

  -- A node that is met ends the search.
  unfoldable pub found_or : Option A → Option A → Option A
  found_or (some a) rest = some a
  found_or none rest = rest

  -- The stack of an insertion; `none` is the key that is there.
  unfoldable pub push_stack :
      Option A → Option ℕ → Option (List (Option ℕ)) → Option (List (Option ℕ))
  push_stack (some a) from rest = none
  push_stack none from none = none
  push_stack none from (some stack) = some (from ∷ stack)

module _ {V : Type 0} where
  -- `skiplist_search_iter`
  unfoldable pub search_from : List (Level V) → Option ℕ → ℕ → Option (V × ℕ)
  unfolding after walk found_or
  search_from [] from key = none
  search_from (level ∷ levels) from key =
      let r = walk from key (after from level) in found_or r.0 (search_from levels r.1 key)

  -- `skiplist_insert_stack`
  unfoldable pub insert_stack : List (Level V) → Option ℕ → ℕ → Option (List (Option ℕ))
  unfolding after walk push_stack
  insert_stack [] from key = some []
  insert_stack (level ∷ levels) from key =
      let r = walk from key (after from level) in push_stack r.0 r.1 (insert_stack levels r.1 key)

  -- `iter->next[i] = *stack[i]; *stack[i] = iter`, in the lowest `depth` levels.
  unfoldable pub link : ℕ → V → ℕ → List (Option ℕ) → List (Level V) → List (Level V)
  unfolding after write
  link key val depth (from ∷ stack) (level ∷ levels) =
      (if ltb (length levels) depth
        then write from ((key, (val, depth)) ∷ after from level) level
        else level)
      ∷ link key val depth stack levels
  link key val depth [] levels = levels
  link key val depth (from ∷ stack) [] = []

  -- `skiplist_insert`, with the depth that `wb_skip_depth` gives.
  unfoldable pub link_at : ℕ → V → ℕ → Option (List (Option ℕ)) → List (Level V) → List (Level V)
  unfolding link
  link_at key val depth none levels = levels
  link_at key val depth (some stack) levels = link key val depth stack levels

  unfoldable pub insert_node : List (Level V) → ℕ → V → ℕ → List (Level V)
  unfolding insert_stack link_at
  insert_node levels key val depth = link_at key val depth (insert_stack levels none key) levels

  -- `skip_remove_stack`: the node, which is met again in each level below, and the stack.
  unfoldable pub remove_stack : List (Level V) → Option ℕ → ℕ → Option (V × ℕ) × List (Option ℕ)
  unfolding after walk found_or
  remove_stack [] from key = (none, [])
  remove_stack (level ∷ levels) from key =
      let r = walk from key (after from level) in
      let rest = remove_stack levels r.1 key in (found_or rest.0 r.0, r.1 ∷ rest.1)

  -- `*stack[i] = iter->next[i]`, in the lowest `depth` levels.
  unfoldable pub unlink : ℕ → ℕ → List (Option ℕ) → List (Level V) → List (Level V)
  unfolding after write
  unlink key depth (from ∷ stack) (level ∷ levels) =
      (if ltb (length levels) depth then write from (after (some key) level) level else level)
      ∷ unlink key depth stack levels
  unlink key depth [] levels = levels
  unlink key depth (from ∷ stack) [] = []

  -- `skiplist_remove`, without the node after it that it returns.
  unfoldable pub unlink_at : ℕ → Option (V × ℕ) → List (Option ℕ) → List (Level V) → List (Level V)
  unfolding unlink
  unlink_at key none stack levels = levels
  unlink_at key (some (val, depth)) stack levels = unlink key depth stack levels

  unfoldable pub remove_node : List (Level V) → ℕ → List (Level V)
  unfolding remove_stack unlink_at
  remove_node levels key = let r = remove_stack levels none key in unlink_at key r.0 r.1 levels

  -- The levels of a skip list with the given nodes: `towers n` is the lowest n of them.
  unfoldable pub above : ℕ → Level V → Level V
  above i [] = []
  above i ((k, (v, depth)) ∷ nodes) =
      let rest = above i nodes in if ltb i depth then (k, (v, depth)) ∷ rest else rest

  unfoldable pub towers : ℕ → Level V → List (Level V)
  unfolding above
  towers zero nodes = []
  towers (suc n) nodes = above n nodes ∷ towers n nodes
