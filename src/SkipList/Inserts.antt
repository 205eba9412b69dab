-- ===== src/SkipList/Inserts.antt =====
-- common/cf_skiplist.c: an insertion in all levels is that in one sorted level.
use lmp.Prelude.{ℕ, zero, suc, ◌≡◌, refl, ap, ◌∙◌, Option, none, some, List, [], ◌∷◌, arith}
use lmp.SkipList.{search, insert}
use lmp.SkipList.Laws.{IsSorted}
use lmp.SkipList.Towers.{
  Level, walk, push_stack, insert_stack, link, link_at, insert_node, above, towers,
}
use lmp.SkipList.Ways.{walk-search, write-insert, walk-after}
use lmp.SkipList.Levels.{above-IsSorted, above-insert}
use lmp.SkipList.Refines.{
  IsDeep, above-zero, length-towers, Fits, leave, leave-Fits, start-Fits, stack_of, search-none,
}

module _ {V : Type 0} where
  insert_stack-new :
      (n key : ℕ) (f : Option ℕ) (nodes : Level V)
      → IsSorted nodes
      → search nodes key ≡ none
      → Fits n f key nodes
      → insert_stack (towers n nodes) f key ≡ some (stack_of n key nodes)
  unfolding insert_stack towers stack_of push_stack
  insert_stack-new zero key f nodes s e h = refl
  insert_stack-new (suc n) key f nodes s e h =
      rw
        (
          walk-after f key (above n nodes) (above-IsSorted n nodes s) h,
          insert_stack-new n key (leave n key nodes) nodes s e (leave-Fits n key nodes),
          walk-search none key (above n nodes),
          search-none n key nodes s e,
        )
        refl

  push-none :
      (o : Option (V × ℕ)) (f : Option ℕ) (x : V × ℕ) (rest : Option (List (Option ℕ)))
      → o ≡ some x
      → push_stack o f rest ≡ none
  unfolding push_stack
  push-none none f x rest e = absurd (cc e)
  push-none (some y) f x rest e = refl

  push-rest : (o : Option (V × ℕ)) (f : Option ℕ) → push_stack o f none ≡ none
  unfolding push_stack
  push-rest none f = refl
  push-rest (some y) f = refl

  insert_stack-there :
      (n key : ℕ) (x : V × ℕ) (f : Option ℕ) (nodes : Level V)
      → IsSorted nodes
      → search (above 0 nodes) key ≡ some x
      → Fits (suc n) f key nodes
      → insert_stack (towers (suc n) nodes) f key ≡ none
  unfolding insert_stack towers
  insert_stack-there zero key x f nodes s e h =
      rw (walk-after f key (above 0 nodes) (above-IsSorted 0 nodes s) h) (
        push-none (walk none key (above 0 nodes)).0 (leave 0 key nodes) x (some [])
          (walk-search none key (above 0 nodes) ∙ e))
  insert_stack-there (suc n) key x f nodes s e h =
      rw
        (
          walk-after f key (above (suc n) nodes) (above-IsSorted (suc n) nodes s) h,
          insert_stack-there n key x (leave (suc n) key nodes) nodes s e
              (leave-Fits (suc n) key nodes),
        )
        (push-rest (walk none key (above (suc n) nodes)).0 (leave (suc n) key nodes))

  link-towers :
      (n key depth : ℕ) (val : V) (nodes : Level V)
      → IsSorted nodes
      → search nodes key ≡ none
      → link key val depth (stack_of n key nodes) (towers n nodes)
        ≡ towers n (insert nodes key (val, depth))
  unfolding link towers stack_of
  link-towers zero key depth val nodes s e = refl
  link-towers (suc n) key depth val nodes s e =
      rw
        (
          length-towers n nodes,
          link-towers n key depth val nodes s e,
          write-insert key (val, depth) (above n nodes) (above-IsSorted n nodes s)
              (search-none n key nodes s e),
          above-insert n key depth val nodes s e,
        )
        refl

  insert-there :
      (key : ℕ) (x y : V × ℕ) (nodes : Level V)
      → search nodes key ≡ some x
      → insert nodes key y ≡ nodes
  unfolding search insert
  insert-there key x y [] e = absurd (cc e)
  insert-there key x y ((k, z) ∷ nodes) e = ground (arith, insert-there key x y nodes)

  -- Where the nodes are sorted and each is in the bottom level at least, an insertion links the new
  -- node in its lowest levels, so that all levels are again those of the nodes with the new one among
  -- them; a key that is there changes nothing.
  pub insert_node-insert :
      (n key depth : ℕ) (val : V) (nodes : Level V)
      → IsSorted nodes
      → IsDeep nodes
      → insert_node (towers (suc n) nodes) key val depth
        ≡ towers (suc n) (insert nodes key (val, depth))
  unfolding insert_node link_at
  insert_node-insert n key depth val nodes s h = by_search (search nodes key) refl
    where
      by_search :
          (o : Option (V × ℕ))
          → search nodes key ≡ o
          → insert_node (towers (suc n) nodes) key val depth
            ≡ towers (suc n) (insert nodes key (val, depth))
      by_search none e =
          rw (insert_stack-new (suc n) key none nodes s e (start-Fits (suc n) key nodes))
            (link-towers (suc n) key depth val nodes s e)
      by_search (some x) e =
          rw
            (
              insert_stack-there n key x none nodes s
                  (ap (λ ns. search ns key) (above-zero nodes h) ∙ e)
                  (start-Fits (suc n) key nodes),
              insert-there key x (val, depth) nodes e,
            )
            refl
