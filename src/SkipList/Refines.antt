-- ===== src/SkipList/Refines.antt =====
-- common/cf_skiplist.c: a search over all levels is that of one sorted level.
use lmp.Prelude.{
  ℕ, zero, suc, ◌<◌, ◌≡◌, refl, ap, ◌∙◌, true, false, Option, none, some, List, [], ◌∷◌, ltb,
  length, arith, Bool-cases, inl, inr,
}
use lmp.SkipList.{search}
use lmp.SkipList.Laws.{IsSorted}
use lmp.SkipList.Towers.{Level, walk, found_or, search_from, above, towers}
use lmp.SkipList.Ways.{walk-search, IsAt, walk-IsAt, walk-after}
use lmp.SkipList.Levels.{above-IsSorted, keep, search-above, HasKey-above}

module _ {V : Type 0} where
  -- Each node stands in one level at least.
  abbrev pub IsDeep : Level V → Type 0
  IsDeep [] = Unit
  IsDeep ((k, (v, depth)) ∷ nodes) = (0 < depth) × IsDeep nodes

  pub above-zero : (nodes : Level V) → IsDeep nodes → above 0 nodes ≡ nodes
  unfolding above
  above-zero [] h = refl
  above-zero ((k, (v, depth)) ∷ nodes) (p, h) =
      let e : ltb 0 depth ≡ true = ground arith in
      rw e (ap (λ ns. (k, (v, depth)) ∷ ns) (above-zero nodes h))

  pub length-towers : (n : ℕ) (nodes : Level V) → length (towers n nodes) ≡ n
  unfolding towers
  length-towers zero nodes = refl
  length-towers (suc n) nodes = omega (arith, length-towers n nodes)

  IsAt-above :
      (i key : ℕ) (f : Option ℕ) (nodes : Level V)
      → IsAt f key (above (suc i) nodes)
      → IsAt f key (above i nodes)
  unfolding IsAt
  IsAt-above i key none nodes h = tt
  IsAt-above i key (some p) nodes (l, h) = (l, HasKey-above i p nodes h)

  -- A place in the top one of the n lowest levels.
  abbrev pub Fits : ℕ → Option ℕ → ℕ → Level V → Type 0
  Fits zero f key nodes = Unit
  Fits (suc n) f key nodes = IsAt f key (above n nodes)

  -- Where a way leaves level n.
  abbrev pub leave : ℕ → ℕ → Level V → Option ℕ
  leave n key nodes = (walk none key (above n nodes)).1

  pub leave-Fits : (n key : ℕ) (nodes : Level V) → Fits n (leave n key nodes) key nodes
  leave-Fits zero key nodes = tt
  leave-Fits (suc n) key nodes =
      IsAt-above n key (leave (suc n) key nodes) nodes (walk-IsAt key (above (suc n) nodes))

  pub start-Fits : (n key : ℕ) (nodes : Level V) → Fits n none key nodes
  unfolding IsAt
  start-Fits zero key nodes = tt
  start-Fits (suc n) key nodes = tt

  found-none : (o : Option (V × ℕ)) → found_or o none ≡ o
  unfolding found_or
  found-none none = refl
  found-none (some x) = refl

  high-found : (i : ℕ) (o : Option (V × ℕ)) → found_or (keep i o) (keep 0 o) ≡ keep 0 o
  unfolding found_or keep
  high-found i none = refl
  high-found i (some (v, d)) = elim (Bool-cases (ltb i d)) [
    | inl e ↦ let low : ltb 0 d ≡ true = ground (arith, e) in rw (e, low) refl
    | inr e ↦ rw e refl
  ]

  pub low-found : (i : ℕ) (o : Option (V × ℕ)) → found_or (keep 0 o) (keep i o) ≡ keep 0 o
  unfolding found_or keep
  low-found i none = refl
  low-found i (some (v, d)) = elim (Bool-cases (ltb 0 d)) [
    | inl e ↦ rw e refl
    | inr e ↦ let high : ltb i d ≡ false = ground (arith, e) in rw (e, high) refl
  ]

  search_from-towers :
      (n key : ℕ) (f : Option ℕ) (nodes : Level V)
      → IsSorted nodes
      → Fits (suc n) f key nodes
      → search_from (towers (suc n) nodes) f key ≡ search (above 0 nodes) key
  unfolding search_from towers
  search_from-towers zero key f nodes s h =
      rw
        (
          walk-after f key (above 0 nodes) (above-IsSorted 0 nodes s) h,
          walk-search none key (above 0 nodes),
        )
        (found-none (search (above 0 nodes) key))
  search_from-towers (suc n) key f nodes s h =
      rw
        (
          walk-after f key (above (suc n) nodes) (above-IsSorted (suc n) nodes s) h,
          search_from-towers n key (leave (suc n) key nodes) nodes s (leave-Fits (suc n) key nodes),
          walk-search none key (above (suc n) nodes),
          search-above (suc n) key nodes s,
          search-above 0 key nodes s,
        )
        (high-found (suc n) (search nodes key))

  -- Where the nodes are sorted and each is in the bottom level at least, a search through all levels,
  -- from the top one on, finds what a search among the sorted nodes finds.
  pub search_from-search :
      (n key : ℕ) (nodes : Level V)
      → IsSorted nodes
      → IsDeep nodes
      → search_from (towers (suc n) nodes) none key ≡ search nodes key
  search_from-search n key nodes s h =
      search_from-towers n key none nodes s (start-Fits (suc n) key nodes)
      ∙ ap (λ ns. search ns key) (above-zero nodes h)

  -- The stack of a walk through the n lowest levels.
  unfoldable pub stack_of : ℕ → ℕ → Level V → List (Option ℕ)
  stack_of zero key nodes = []
  stack_of (suc n) key nodes = leave n key nodes ∷ stack_of n key nodes

  pub search-none :
      (i key : ℕ) (nodes : Level V)
      → IsSorted nodes
      → search nodes key ≡ none
      → search (above i nodes) key ≡ none
  unfolding keep
  search-none i key nodes s e = search-above i key nodes s ∙ ap (keep i) e
