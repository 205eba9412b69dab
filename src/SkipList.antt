-- ===== src/SkipList.antt =====
-- common/cf_skiplist.c: a skip list as its clients use it, the nodes in order, as they stand in the
-- bottom level. Towers has all the levels; Ways, Levels, Refines, Inserts and Removes
-- hold the proofs about them.
pub mod Laws
pub mod Towers
pub mod Ways
pub mod Levels
pub mod Refines
pub mod Inserts
pub mod Removes
mod Tests
use lmp.Prelude.{ℕ, Option, none, some, List, [], ◌∷◌, ltb, ◌==◌, if◌then◌else◌, length}

-- The nodes, a key and a value each; keys are compared as unsigned numbers (`idu32_compare`).
abbrev pub SkipList : Type 0 → Type 0
SkipList V = List (ℕ × V)

module _ {V : Type 0} where
  -- `skiplist_search`; the way ends at the first key that is greater.
  unfoldable pub search : SkipList V → ℕ → Option V
  search [] key = none
  search ((k, v) ∷ nodes) key =
      let rest = search nodes key in if k == key then some v else (if ltb key k then none else rest)

  -- `skiplist_insert`; a key that is there keeps its value.
  unfoldable pub insert : SkipList V → ℕ → V → SkipList V
  insert [] key val = (key, val) ∷ []
  insert ((k, v) ∷ nodes) key val =
      let rest = insert nodes key val in
      if k == key
      then (k, v) ∷ nodes
      else (if ltb key k then (key, val) ∷ (k, v) ∷ nodes else (k, v) ∷ rest)

  -- `skiplist_remove`
  unfoldable pub remove : SkipList V → ℕ → SkipList V
  remove [] key = []
  remove ((k, v) ∷ nodes) key =
      let rest = remove nodes key in
      if k == key then nodes else (if ltb key k then (k, v) ∷ nodes else (k, v) ∷ rest)

  -- A write through the value of the node that is found.
  unfoldable pub modify : SkipList V → ℕ → (V → V) → SkipList V
  modify [] key f = []
  modify ((k, v) ∷ nodes) key f =
      let rest = modify nodes key f in
      if k == key then (k, f v) ∷ nodes else (if ltb key k then (k, v) ∷ nodes else (k, v) ∷ rest)

  -- `skiplist_clear` and `skiplist_size`
  abbrev pub clear : SkipList V → SkipList V
  clear nodes = []

  abbrev pub size : SkipList V → ℕ
  size nodes = length nodes
