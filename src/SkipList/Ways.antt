-- ===== src/SkipList/Ways.antt =====
-- common/cf_skiplist.c: the way along one level, and what is written where it ends.
use lmp.Prelude.{
  ℕ, ◌<◌, ◌≡◌, ◌⊎◌, inl, inr, refl, sym, ap, ◌∙◌, Option, none, some, [], ◌∷◌, ltb, ◌==◌, arith,
  Bool-cases,
}
use lmp.SkipList.{SkipList, search, insert, remove}
use lmp.SkipList.Laws.{IsSorted, Above}
use lmp.SkipList.Towers.{after, write, walk}

pub order : (k key : ℕ) → (k ≡ key) ⊎ ((key < k) ⊎ (k < key))
order k key = elim (Bool-cases (k == key)) [
  | inl e ↦ inl (ground (arith, e))
  | inr e ↦ elim (Bool-cases (ltb key k)) [
    | inl h ↦ inr (inl (ground (arith, h)))
    | inr h ↦ inr (inr (ground (arith, e, h)))
  ]
]

module _ {A : Type 0} where
  -- A key is that of a node.
  unfoldable pub HasKey : ℕ → SkipList A → Type 0
  HasKey p [] = ⊥
  HasKey p ((k, a) ∷ nodes) = (k ≡ p) ⊎ HasKey p nodes

  -- A place in a level after a node, before the key.
  unfoldable IsIn : Option ℕ → ℕ → SkipList A → Type 0
  IsIn none key nodes = ⊥
  IsIn (some p) key nodes = (p < key) × HasKey p nodes

  HasKey-Above : (k p : ℕ) (nodes : SkipList A) → Above k nodes → HasKey p nodes → k < p
  unfolding HasKey
  HasKey-Above k p [] a h = absurd h
  HasKey-Above k p ((k₁, x) ∷ nodes) (a, b) (inl e) = omega (arith, e)
  HasKey-Above k p ((k₁, x) ∷ nodes) (a, b) (inr h) = HasKey-Above k p nodes b h

  -- One step along a level.
  walk-less :
      (from : Option ℕ) (key k : ℕ) (x : A) (nodes : SkipList A)
      → k < key
      → walk from key ((k, x) ∷ nodes) ≡ walk (some k) key nodes
  unfolding walk
  walk-less from key k x nodes l = ground arith

  walk-greater :
      (from : Option ℕ) (key k : ℕ) (x : A) (nodes : SkipList A)
      → key < k
      → walk from key ((k, x) ∷ nodes) ≡ (none, from)
  unfolding walk
  walk-greater from key k x nodes l = ground arith

  walk-same :
      (from : Option ℕ) (key k : ℕ) (x : A) (nodes : SkipList A)
      → k ≡ key
      → walk from key ((k, x) ∷ nodes) ≡ (some x, from)
  unfolding walk
  walk-same from key k x nodes l = ground arith

  after-same :
      (p k : ℕ) (x : A) (nodes : SkipList A) → k ≡ p → after (some p) ((k, x) ∷ nodes) ≡ nodes
  unfolding after
  after-same p k x nodes e = ground arith

  after-ne :
      (p k : ℕ) (x : A) (nodes : SkipList A)
      → k < p
      → after (some p) ((k, x) ∷ nodes) ≡ after (some p) nodes
  unfolding after
  after-ne p k x nodes e = ground arith

  write-same :
      (p k : ℕ) (x : A) (rest nodes : SkipList A)
      → k ≡ p
      → write (some p) rest ((k, x) ∷ nodes) ≡ (k, x) ∷ rest
  unfolding write
  write-same p k x rest nodes e = ground arith

  write-ne :
      (p k : ℕ) (x : A) (rest nodes : SkipList A)
      → k < p
      → write (some p) rest ((k, x) ∷ nodes) ≡ (k, x) ∷ write (some p) rest nodes
  unfolding write
  write-ne p k x rest nodes e = ground arith

  -- From a node on, the way is as from the start.
  walk-after_some :
      (p key : ℕ) (from : Option ℕ) (nodes : SkipList A)
      → IsSorted nodes
      → p < key
      → HasKey p nodes
      → walk (some p) key (after (some p) nodes) ≡ walk from key nodes
  unfolding HasKey
  walk-after_some p key from [] s l h = absurd h
  walk-after_some p key from ((k, x) ∷ nodes) (a, s) l (inl e) =
      rw (after-same p k x nodes e, walk-less from key k x nodes (omega (arith, e)))
        (ap (λ q. walk (some q) key nodes) (sym e))
  walk-after_some p key from ((k, x) ∷ nodes) (a, s) l (inr h) =
      let b = HasKey-Above k p nodes a h in
      rw (after-ne p k x nodes b, walk-less from key k x nodes (omega (arith, b)))
        (walk-after_some p key (some k) nodes s l h)

  pub walk-search :
      (from : Option ℕ) (key : ℕ) (nodes : SkipList A) → (walk from key nodes).0 ≡ search nodes key
  unfolding walk search
  walk-search from key [] = refl
  walk-search from key ((k, x) ∷ nodes) = ground (arith, walk-search (some k) key nodes)

  HasKey-cons :
      (f : Option ℕ) (key k : ℕ) (x : A) (nodes : SkipList A)
      → IsIn f key nodes
      → IsIn f key ((k, x) ∷ nodes)
  unfolding IsIn HasKey
  HasKey-cons none key k x nodes h = absurd h
  HasKey-cons (some p) key k x nodes (l, h) = (l, inr h)

  walk-IsIn :
      (k key : ℕ) (x : A) (nodes : SkipList A)
      → k < key
      → IsIn (walk (some k) key nodes).1 key ((k, x) ∷ nodes)
  unfolding IsIn HasKey walk
  walk-IsIn k key x [] l = (l, inl refl)
  walk-IsIn k key x ((k₁, y) ∷ nodes) l = elim (order k₁ key) [
    | inl e ↦ rw (walk-same (some k) key k₁ y nodes e) (l, inl refl)
    | inr (inl h) ↦ rw (walk-greater (some k) key k₁ y nodes h) (l, inl refl)
    | inr (inr h) ↦ rw (walk-less (some k) key k₁ y nodes h) (
        HasKey-cons (walk (some k₁) key nodes).1 key k x ((k₁, y) ∷ nodes)
          (walk-IsIn k₁ key y nodes h))
  ]

  write-skip :
      (f : Option ℕ) (key k : ℕ) (x : A) (rest nodes : SkipList A)
      → IsIn f key nodes
      → Above k nodes
      → write f rest ((k, x) ∷ nodes) ≡ (k, x) ∷ write f rest nodes
  unfolding IsIn
  write-skip none key k x rest nodes h a = absurd h
  write-skip (some p) key k x rest nodes (l, h) a =
      write-ne p k x rest nodes (HasKey-Above k p nodes a h)

  after-skip :
      (f : Option ℕ) (key k : ℕ) (x : A) (nodes : SkipList A)
      → IsIn f key nodes
      → Above k nodes
      → after f ((k, x) ∷ nodes) ≡ after f nodes
  unfolding IsIn
  after-skip none key k x nodes h a = absurd h
  after-skip (some p) key k x nodes (l, h) a = after-ne p k x nodes (HasKey-Above k p nodes a h)

  pub search-same :
      (key k : ℕ) (x : A) (nodes : SkipList A) → k ≡ key → search ((k, x) ∷ nodes) key ≡ some x
  unfolding search
  search-same key k x nodes e = ground arith

  pub search-less :
      (key k : ℕ) (x : A) (nodes : SkipList A)
      → k < key
      → search ((k, x) ∷ nodes) key ≡ search nodes key
  unfolding search
  search-less key k x nodes e = ground arith

  pub search-greater :
      (key k : ℕ) (x : A) (nodes : SkipList A) → key < k → search ((k, x) ∷ nodes) key ≡ none
  unfolding search
  search-greater key k x nodes e = ground arith

  pub insert-greater :
      (key k : ℕ) (v x : A) (nodes : SkipList A)
      → key < k
      → insert ((k, x) ∷ nodes) key v ≡ (key, v) ∷ (k, x) ∷ nodes
  unfolding insert
  insert-greater key k v x nodes e = ground arith

  pub insert-less :
      (key k : ℕ) (v x : A) (nodes : SkipList A)
      → k < key
      → insert ((k, x) ∷ nodes) key v ≡ (k, x) ∷ insert nodes key v
  unfolding insert
  insert-less key k v x nodes e = ground arith

  pub remove-same :
      (key k : ℕ) (x : A) (nodes : SkipList A) → k ≡ key → remove ((k, x) ∷ nodes) key ≡ nodes
  unfolding remove
  remove-same key k x nodes e = ground arith

  pub remove-less :
      (key k : ℕ) (x : A) (nodes : SkipList A)
      → k < key
      → remove ((k, x) ∷ nodes) key ≡ (k, x) ∷ remove nodes key
  unfolding remove
  remove-less key k x nodes e = ground arith

  -- What is written where the way to a key that is not there ends is inserted.
  write-insert_from :
      (k key : ℕ) (v x : A) (nodes : SkipList A)
      → Above k nodes
      → IsSorted nodes
      → k < key
      → search nodes key ≡ none
      → let f = (walk (some k) key nodes).1 in
        write f ((key, v) ∷ after f ((k, x) ∷ nodes)) ((k, x) ∷ nodes) ≡ (k, x) ∷ insert nodes key v
  unfolding walk insert
  write-insert_from k key v x [] a s l e =
      rw (after-same k k x [] refl) (write-same k k x _ [] refl)
  write-insert_from k key v x ((k₁, y) ∷ nodes) (a, b) (c, s) l e = elim (order k₁ key) [
    | inl h ↦ absurd (cc (e, search-same key k₁ y nodes h))
    | inr (inl h) ↦
        rw
          (
            walk-greater (some k) key k₁ y nodes h,
            insert-greater key k₁ v y nodes h,
            after-same k k x ((k₁, y) ∷ nodes) refl,
          )
          (write-same k k x _ ((k₁, y) ∷ nodes) refl)
    | inr (inr h) ↦
        let f = (walk (some k₁) key nodes).1 in
        let p = walk-IsIn k₁ key y nodes h in
        let above : Above k ((k₁, y) ∷ nodes) = (a, b) in
        let none_there = sym (search-less key k₁ y nodes h) ∙ e in
        rw
          (
            walk-less (some k) key k₁ y nodes h,
            insert-less key k₁ v y nodes h,
            after-skip f key k x ((k₁, y) ∷ nodes) p above,
            write-skip f key k x ((key, v) ∷ after f ((k₁, y) ∷ nodes)) ((k₁, y) ∷ nodes) p above,
          )
          (ap (λ ns. (k, x) ∷ ns) (write-insert_from k₁ key v y nodes c s h none_there))
  ]

  write-none : (rest nodes : SkipList A) → write none rest nodes ≡ rest
  unfolding write
  write-none rest nodes = refl

  after-none : (nodes : SkipList A) → after none nodes ≡ nodes
  unfolding after
  after-none nodes = refl

  pub write-insert :
      (key : ℕ) (v : A) (nodes : SkipList A)
      → IsSorted nodes
      → search nodes key ≡ none
      → let f = (walk none key nodes).1 in
        write f ((key, v) ∷ after f nodes) nodes ≡ insert nodes key v
  unfolding walk insert
  write-insert key v [] s e = rw (after-none []) (write-none ((key, v) ∷ []) [])
  write-insert key v ((k, x) ∷ nodes) (a, s) e = elim (order k key) [
    | inl h ↦ absurd (cc (e, search-same key k x nodes h))
    | inr (inl h) ↦
        rw
          (
            walk-greater none key k x nodes h,
            insert-greater key k v x nodes h,
            after-none ((k, x) ∷ nodes),
          )
          (write-none ((key, v) ∷ (k, x) ∷ nodes) ((k, x) ∷ nodes))
    | inr (inr h) ↦
        rw (walk-less none key k x nodes h, insert-less key k v x nodes h)
          (write-insert_from k key v x nodes a s h (sym (search-less key k x nodes h) ∙ e))
  ]

  -- What is written where the way to a node ends takes it out.
  write-remove_from :
      (k key : ℕ) (v x : A) (nodes : SkipList A)
      → Above k nodes
      → IsSorted nodes
      → k < key
      → search nodes key ≡ some v
      → let f = (walk (some k) key nodes).1 in
        write f (after (some key) ((k, x) ∷ nodes)) ((k, x) ∷ nodes) ≡ (k, x) ∷ remove nodes key
  unfolding search
  write-remove_from k key v x [] a s l e = absurd (cc e)
  write-remove_from k key v x ((k₁, y) ∷ nodes) (a, b) (c, s) l e = elim (order k₁ key) [
    | inl h ↦
        rw
          (
            walk-same (some k) key k₁ y nodes h,
            after-ne key k x ((k₁, y) ∷ nodes) l,
            after-same key k₁ y nodes h,
            remove-same key k₁ y nodes h,
          )
          (write-same k k x nodes ((k₁, y) ∷ nodes) refl)
    | inr (inl h) ↦ absurd (cc (e, search-greater key k₁ y nodes h))
    | inr (inr h) ↦
        let f = (walk (some k₁) key nodes).1 in
        let p = walk-IsIn k₁ key y nodes h in
        let above : Above k ((k₁, y) ∷ nodes) = (a, b) in
        let there = sym (search-less key k₁ y nodes h) ∙ e in
        rw
          (
            walk-less (some k) key k₁ y nodes h,
            remove-less key k₁ y nodes h,
            after-ne key k x ((k₁, y) ∷ nodes) l,
            write-skip f key k x (after (some key) ((k₁, y) ∷ nodes)) ((k₁, y) ∷ nodes) p above,
          )
          (ap (λ ns. (k, x) ∷ ns) (write-remove_from k₁ key v y nodes c s h there))
  ]

  pub write-remove :
      (key : ℕ) (v : A) (nodes : SkipList A)
      → IsSorted nodes
      → search nodes key ≡ some v
      → let f = (walk none key nodes).1 in write f (after (some key) nodes) nodes ≡ remove nodes key
  unfolding search
  write-remove key v [] s e = absurd (cc e)
  write-remove key v ((k, x) ∷ nodes) (a, s) e = elim (order k key) [
    | inl h ↦
        rw (walk-same none key k x nodes h, after-same key k x nodes h, remove-same key k x nodes h)
          (write-none nodes ((k, x) ∷ nodes))
    | inr (inl h) ↦ absurd (cc (e, search-greater key k x nodes h))
    | inr (inr h) ↦
        rw (walk-less none key k x nodes h, remove-less key k x nodes h)
          (write-remove_from k key v x nodes a s h (sym (search-less key k x nodes h) ∙ e))
  ]

  -- A place in a level, before the key: at its start, or after a node.
  unfoldable pub IsAt : Option ℕ → ℕ → SkipList A → Type 0
  IsAt none key nodes = Unit
  IsAt (some p) key nodes = (p < key) × HasKey p nodes

  IsIn-IsAt : (f : Option ℕ) (key : ℕ) (nodes : SkipList A) → IsIn f key nodes → IsAt f key nodes
  unfolding IsIn IsAt
  IsIn-IsAt none key nodes h = tt
  IsIn-IsAt (some p) key nodes h = h

  pub walk-IsAt : (key : ℕ) (nodes : SkipList A) → IsAt (walk none key nodes).1 key nodes
  unfolding walk IsAt
  walk-IsAt key [] = tt
  walk-IsAt key ((k, x) ∷ nodes) = elim (order k key) [
    | inl h ↦ rw (walk-same none key k x nodes h) tt
    | inr (inl h) ↦ rw (walk-greater none key k x nodes h) tt
    | inr (inr h) ↦
        rw (walk-less none key k x nodes h)
          (IsIn-IsAt (walk (some k) key nodes).1 key ((k, x) ∷ nodes) (walk-IsIn k key x nodes h))
  ]

  pub walk-after :
      (f : Option ℕ) (key : ℕ) (nodes : SkipList A)
      → IsSorted nodes
      → IsAt f key nodes
      → walk f key (after f nodes) ≡ walk none key nodes
  unfolding IsAt after
  walk-after none key nodes s h = refl
  walk-after (some p) key nodes s (l, h) = walk-after_some p key none nodes s l h
