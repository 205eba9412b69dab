-- ===== src/SkipList/Laws.antt =====
-- The operations on a sorted level are those of a finite map.
use lmp.Prelude.{ℕ, ◌+◌, ◌<◌, ◌≤◌, ◌≡◌, ◌≢◌, refl, none, some, [], ◌∷◌, ◌==◌, if◌then◌else◌, arith}
use lmp.SkipList.{SkipList, search, insert, remove, modify}

module _ {V : Type 0} where
  -- Every key is greater than `k`.
  abbrev pub Above : ℕ → SkipList V → Type 0
  Above k [] = Unit
  Above k ((k₁, v) ∷ nodes) = (k < k₁) × Above k nodes

  abbrev pub IsSorted : SkipList V → Type 0
  IsSorted [] = Unit
  IsSorted ((k, v) ∷ nodes) = Above k nodes × IsSorted nodes

  pub Above-trans : (j k : ℕ) (nodes : SkipList V) → j < k → Above k nodes → Above j nodes
  Above-trans j k [] h a = tt
  Above-trans j k ((k₁, v) ∷ nodes) h (p, a) = (omega arith, Above-trans j k nodes h a)

  pub search-Above : (k j : ℕ) (nodes : SkipList V) → Above k nodes → j ≤ k → search nodes j ≡ none
  unfolding search
  search-Above k j [] a h = refl
  search-Above k j ((k₁, v) ∷ nodes) (p, a) h = ground arith

  pub search-head : (k : ℕ) (val : V) (nodes : SkipList V) → search ((k, val) ∷ nodes) k ≡ some val
  unfolding search
  search-head k val nodes = ground arith

  Above-insert :
      (j key : ℕ) (val : V) (nodes : SkipList V)
      → j < key
      → Above j nodes
      → Above j (insert nodes key val)
  unfolding insert
  Above-insert j key val [] h a = (h, tt)
  Above-insert j key val ((k, v) ∷ nodes) h (p, a) =
      ground (arith, Above-insert j key val nodes h a)

  pub insert-IsSorted :
      (nodes : SkipList V) (key : ℕ) (val : V) → IsSorted nodes → IsSorted (insert nodes key val)
  unfolding insert
  insert-IsSorted [] key val s = (tt, tt)
  insert-IsSorted ((k, v) ∷ nodes) key val (a, s) = ground (
    arith,
    insert-IsSorted nodes key val s,
    Above-insert k key val nodes,
    Above-trans key k nodes,
  )

  pub Above-remove : (j key : ℕ) (nodes : SkipList V) → Above j nodes → Above j (remove nodes key)
  unfolding remove
  Above-remove j key [] a = tt
  Above-remove j key ((k, v) ∷ nodes) (p, a) = ground (arith, Above-remove j key nodes a)

  pub remove-IsSorted :
      (nodes : SkipList V) (key : ℕ) → IsSorted nodes → IsSorted (remove nodes key)
  unfolding remove
  remove-IsSorted [] key s = tt
  remove-IsSorted ((k, v) ∷ nodes) key (a, s) =
      ground (arith, remove-IsSorted nodes key s, Above-remove k key nodes a)

  Above-modify :
      (j key : ℕ) (f : V → V) (nodes : SkipList V) → Above j nodes → Above j (modify nodes key f)
  unfolding modify
  Above-modify j key f [] a = tt
  Above-modify j key f ((k, v) ∷ nodes) (p, a) = ground (arith, Above-modify j key f nodes a)

  pub modify-IsSorted :
      (nodes : SkipList V) (key : ℕ) (f : V → V) → IsSorted nodes → IsSorted (modify nodes key f)
  unfolding modify
  modify-IsSorted [] key f s = tt
  modify-IsSorted ((k, v) ∷ nodes) key f (a, s) =
      ground (arith, modify-IsSorted nodes key f s, Above-modify k key f nodes a)

  -- In a sorted skip list, a key that is removed is not found, and any other as before.
  pub search-remove :
      (nodes : SkipList V) (key k : ℕ)
      → IsSorted nodes
      → search (remove nodes key) k ≡ (if k == key then none else search nodes k)
  unfolding search remove
  search-remove [] key k s = ground arith
  search-remove ((k₁, v) ∷ nodes) key k (a, s) =
      ground (arith, search-remove nodes key k s, search-Above k₁ k nodes a)

  -- In a sorted skip list, a value inserted under a key that was not there is found under it, and
  -- any other key as before.
  pub search-insert :
      (nodes : SkipList V) (key k : ℕ) (val : V)
      → IsSorted nodes
      → search nodes key ≡ none
      → search (insert nodes key val) k ≡ (if k == key then some val else search nodes k)
  unfolding search insert
  search-insert [] key k val s e = ground arith
  search-insert ((k₁, v) ∷ nodes) key k val (a, s) e =
      ground (arith, search-insert nodes key k val s, search-Above k₁ k nodes a)

  -- Sums over the values: what an operation adds to the sum, and what it takes away.
  unfoldable pub sum : (V → ℕ) → SkipList V → ℕ
  sum w [] = 0
  sum w ((k, v) ∷ nodes) = w v + sum w nodes

  pub sum-insert :
      (w : V → ℕ) (nodes : SkipList V) (key : ℕ) (val : V)
      → search nodes key ≡ none
      → sum w (insert nodes key val) ≡ sum w nodes + w val
  unfolding search insert sum
  sum-insert w [] key val e = omega arith
  sum-insert w ((k, v) ∷ nodes) key val e = ground (arith, sum-insert w nodes key val)

  pub sum-modify :
      (w : V → ℕ) (nodes : SkipList V) (key : ℕ) (f : V → V) (val : V)
      → search nodes key ≡ some val
      → sum w (modify nodes key f) + w val ≡ sum w nodes + w (f val)
  unfolding search modify sum
  sum-modify w [] key f val e = ground arith
  sum-modify w ((k, v) ∷ nodes) key f val e = ground (arith, sum-modify w nodes key f val)

  pub sum-remove :
      (w : V → ℕ) (nodes : SkipList V) (key : ℕ) (val : V)
      → search nodes key ≡ some val
      → sum w (remove nodes key) + w val ≡ sum w nodes
  unfolding search remove sum
  sum-remove w [] key val e = ground arith
  sum-remove w ((k, v) ∷ nodes) key val e = ground (arith, sum-remove w nodes key val)

  pub search-insert_self :
      (nodes : SkipList V) (key : ℕ) (val : V)
      → IsSorted nodes
      → search nodes key ≡ none
      → search (insert nodes key val) key ≡ some val
  search-insert_self nodes key val s e = ground (arith, search-insert nodes key key val s e)

  pub search-insert_ne :
      (nodes : SkipList V) (key k : ℕ) (val : V)
      → IsSorted nodes
      → search nodes key ≡ none
      → k ≢ key
      → search (insert nodes key val) k ≡ search nodes k
  search-insert_ne nodes key k val s e n = ground (arith, search-insert nodes key k val s e)

  pub search-remove_self :
      (nodes : SkipList V) (key : ℕ) → IsSorted nodes → search (remove nodes key) key ≡ none
  search-remove_self nodes key s = ground (arith, search-remove nodes key key s)

  pub search-remove_ne :
      (nodes : SkipList V) (key k : ℕ)
      → IsSorted nodes
      → k ≢ key
      → search (remove nodes key) k ≡ search nodes k
  search-remove_ne nodes key k s n = ground (arith, search-remove nodes key k s)

  -- A key that is removed or not there stays away.
  pub search-remove-none :
      (nodes : SkipList V) (key k : ℕ)
      → IsSorted nodes
      → search nodes k ≡ none
      → search (remove nodes key) k ≡ none
  search-remove-none nodes key k s e = ground (arith, search-remove nodes key k s)

  -- What is found after a removal was there before, under another key.
  pub search-remove-some :
      (nodes : SkipList V) (key k : ℕ) (val : V)
      → IsSorted nodes
      → search (remove nodes key) k ≡ some val
      → (search nodes k ≡ some val) × (k ≢ key)
  search-remove-some nodes key k val s e =
      (ground (arith, search-remove nodes key k s), ground (arith, search-remove nodes key k s))

  pub search-modify_self :
      (nodes : SkipList V) (key : ℕ) (f : V → V) (val : V)
      → search nodes key ≡ some val
      → search (modify nodes key f) key ≡ some (f val)
  unfolding search modify
  search-modify_self [] key f val e = ground arith
  search-modify_self ((k, v) ∷ nodes) key f val e =
      ground (arith, search-modify_self nodes key f val)

  pub search-modify_ne :
      (nodes : SkipList V) (key k : ℕ) (f : V → V)
      → k ≢ key
      → search (modify nodes key f) k ≡ search nodes k
  unfolding search modify
  search-modify_ne [] key k f n = refl
  search-modify_ne ((j, v) ∷ nodes) key k f n = ground (arith, search-modify_ne nodes key k f n)
