-- ===== src/SkipList/Tests.antt =====
-- A skip list of three nodes, in three levels.
use lmp.Prelude.{ℕ, ◌≡◌, refl, none, [], ◌∷◌, arith}
use lmp.SkipList.{search, insert, remove}
use lmp.SkipList.Laws.{IsSorted}
use lmp.SkipList.Towers.{
  Level, search_from, insert_node, remove_node, towers, above, insert_stack, link, link_at, walk,
  after, write, push_stack,
}
use lmp.SkipList.Refines.{IsDeep, search_from-search}
use lmp.SkipList.Inserts.{insert_node-insert}
use lmp.SkipList.Removes.{remove_node-remove}

abbrev nodes : Level ℕ
nodes = (3, (30, 1)) ∷ (5, (50, 3)) ∷ (9, (90, 2)) ∷ []

nodes-IsSorted : IsSorted nodes
nodes-IsSorted = ((omega arith, (omega arith, tt)), ((omega arith, tt), (tt, tt)))

nodes-IsDeep : IsDeep nodes
nodes-IsDeep = (omega arith, (omega arith, (omega arith, tt)))

-- 7 comes after 5 in its two levels.
insert_run :
    insert_node (towers 3 nodes) 7 70 2
    ≡ ((5, (50, 3)) ∷ [])
      ∷ ((5, (50, 3)) ∷ (7, (70, 2)) ∷ (9, (90, 2)) ∷ [])
      ∷ ((3, (30, 1)) ∷ (5, (50, 3)) ∷ (7, (70, 2)) ∷ (9, (90, 2)) ∷ [])
      ∷ []
unfolding insert_node towers above insert_stack link link_at walk after write push_stack
insert_run = refl

search_from-search_example : search_from (towers 3 nodes) none 9 ≡ search nodes 9
search_from-search_example = search_from-search 2 9 nodes nodes-IsSorted nodes-IsDeep

insert_node-insert_example : insert_node (towers 3 nodes) 7 70 2 ≡ towers 3 (insert nodes 7 (70, 2))
insert_node-insert_example = insert_node-insert 2 7 2 70 nodes nodes-IsSorted nodes-IsDeep

remove_node-remove_example : remove_node (towers 3 nodes) 5 ≡ towers 3 (remove nodes 5)
remove_node-remove_example = remove_node-remove 2 5 nodes nodes-IsSorted nodes-IsDeep
