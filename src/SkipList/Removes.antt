-- ===== src/SkipList/Removes.antt =====
-- common/cf_skiplist.c: a removal from all levels is that from one sorted level.
use lmp.Prelude.{
  ℕ, zero, suc, ◌≡◌, refl, sym, ap, ◌∙◌, Bool, true, false, Option, none, some, [], ◌∷◌, ltb,
  if◌then◌else◌, arith,
}
use lmp.SkipList.{search, remove}
use lmp.SkipList.Laws.{IsSorted}
use lmp.SkipList.Towers.{
  Level, found_or, remove_stack, unlink, unlink_at, remove_node, above, towers,
}
use lmp.SkipList.Ways.{walk-search, write-remove, walk-after}
use lmp.SkipList.Levels.{above-IsSorted, keep, search-above, above-remove}
use lmp.SkipList.Refines.{
  IsDeep, above-zero, length-towers, Fits, leave, leave-Fits, start-Fits, low-found, stack_of,
}

module _ {V : Type 0} where
  if-same :
      (b : Bool) (x y : Level V)
      → (b ≡ true → x ≡ y)
      → (z : Level V) → (if b then x else z) ≡ (if b then y else z)
  if-same true x y e z = e refl
  if-same false x y e z = refl

  remove-absent : (key : ℕ) (nodes : Level V) → search nodes key ≡ none → remove nodes key ≡ nodes
  unfolding search remove
  remove-absent key [] e = refl
  remove-absent key ((k, z) ∷ nodes) e = ground (arith, remove-absent key nodes)

  -- What a removal meets in the n lowest levels.
  unfoldable met : ℕ → ℕ → Level V → Option (V × ℕ)
  unfolding found_or
  met zero key nodes = none
  met (suc n) key nodes = found_or (met n key nodes) (search (above n nodes) key)

  remove_stack-towers :
      (n key : ℕ) (f : Option ℕ) (nodes : Level V)
      → IsSorted nodes
      → Fits n f key nodes
      → remove_stack (towers n nodes) f key ≡ (met n key nodes, stack_of n key nodes)
  unfolding remove_stack towers stack_of met
  remove_stack-towers zero key f nodes s h = refl
  remove_stack-towers (suc n) key f nodes s h =
      rw
        (
          walk-after f key (above n nodes) (above-IsSorted n nodes s) h,
          remove_stack-towers n key (leave n key nodes) nodes s (leave-Fits n key nodes),
          walk-search none key (above n nodes),
        )
        refl

  met-search :
      (n key : ℕ) (nodes : Level V)
      → IsSorted nodes
      → met (suc n) key nodes ≡ keep 0 (search nodes key)
  unfolding met found_or
  met-search zero key nodes s = search-above 0 key nodes s
  met-search (suc n) key nodes s =
      rw (met-search n key nodes s, search-above (suc n) key nodes s)
        (low-found (suc n) (search nodes key))

  keep-in : (n : ℕ) (x : V × ℕ) → ltb n x.1 ≡ true → keep n (some x) ≡ some x
  unfolding keep
  keep-in n (v, d) e = rw e refl

  unlink-towers :
      (n key depth : ℕ) (val : V) (nodes : Level V)
      → IsSorted nodes
      → search nodes key ≡ some (val, depth)
      → unlink key depth (stack_of n key nodes) (towers n nodes) ≡ towers n (remove nodes key)
  unfolding unlink towers stack_of
  unlink-towers zero key depth val nodes s e = refl
  unlink-towers (suc n) key depth val nodes s e =
      rw
        (
          length-towers n nodes,
          unlink-towers n key depth val nodes s e,
          above-remove n key depth val nodes s e,
        )
        (ap (λ level. level ∷ towers n (remove nodes key))
          (if-same (ltb n depth) _ _
            (λ in_level.
              write-remove key (val, depth) (above n nodes) (above-IsSorted n nodes s)
                (in_it in_level))
            (above n nodes)))
    where
      in_it : ltb n depth ≡ true → search (above n nodes) key ≡ some (val, depth)
      in_it b = search-above n key nodes s ∙ ap (keep n) e ∙ keep-in n (val, depth) b

  -- Where the nodes are sorted and each is in the bottom level at least, a removal takes the node out
  -- of all levels that it stands in, so that they are those of the other nodes; a key that is not there
  -- changes nothing.
  pub remove_node-remove :
      (n key : ℕ) (nodes : Level V)
      → IsSorted nodes
      → IsDeep nodes
      → remove_node (towers (suc n) nodes) key ≡ towers (suc n) (remove nodes key)
  unfolding remove_node unlink_at
  remove_node-remove n key nodes s h = by_search (search nodes key) refl
    where
      meets : met (suc n) key nodes ≡ search nodes key
      meets =
          met-search n key nodes s
          ∙ sym (search-above 0 key nodes s)
          ∙ ap (λ ns. search ns key) (above-zero nodes h)

      by_search :
          (o : Option (V × ℕ))
          → search nodes key ≡ o
          → remove_node (towers (suc n) nodes) key ≡ towers (suc n) (remove nodes key)
      by_search none e =
          rw
            (
              remove_stack-towers (suc n) key none nodes s (start-Fits (suc n) key nodes),
              meets,
              e,
              remove-absent key nodes e,
            )
            refl
      by_search (some (val, depth)) e =
          rw (remove_stack-towers (suc n) key none nodes s (start-Fits (suc n) key nodes), meets, e)
            (unlink-towers (suc n) key depth val nodes s e)
