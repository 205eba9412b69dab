-- ===== src/SkipList/Levels.antt =====
-- common/cf_skiplist.c: what an operation on all nodes does in one level.
use lmp.Prelude.{
  ℕ, suc, ◌<◌, ◌≡◌, inl, inr, refl, sym, ap, ◌∙◌, Bool, true, false, Option, none, some, [], ◌∷◌,
  ltb, if◌then◌else◌, arith, Bool-cases,
}
use mathlib.Core.Path.{subst}
use lmp.SkipList.{search, insert, remove}
use lmp.SkipList.Laws.{IsSorted, Above, Above-trans, search-Above}
use lmp.SkipList.Towers.{Level, above}
use lmp.SkipList.Ways.{
  order, search-same, search-less, search-greater, insert-greater, insert-less, remove-same,
  remove-less, HasKey,
}

HasKey-above_nil :
    (V : Type 0) (i p : ℕ) → HasKey p (above {V = V} (suc i) []) → HasKey p (above {V = V} i [])
unfolding above
HasKey-above_nil V i p h = h

module _ {V : Type 0} where
  -- Level i has the nodes with more than i levels.
  pub above-in :
      (i k depth : ℕ) (v : V) (nodes : Level V)
      → ltb i depth ≡ true
      → above i ((k, (v, depth)) ∷ nodes) ≡ (k, (v, depth)) ∷ above i nodes
  unfolding above
  above-in i k depth v nodes e = rw e refl

  above-out :
      (i k depth : ℕ) (v : V) (nodes : Level V)
      → ltb i depth ≡ false
      → above i ((k, (v, depth)) ∷ nodes) ≡ above i nodes
  unfolding above
  above-out i k depth v nodes e = rw e refl

  Above-above : (j i : ℕ) (nodes : Level V) → Above j nodes → Above j (above i nodes)
  unfolding above
  Above-above j i [] a = tt
  Above-above j i ((k, (v, d)) ∷ nodes) (a, b) = elim (Bool-cases (ltb i d)) [
    | inl e ↦ rw e (a, Above-above j i nodes b)
    | inr e ↦ rw e (Above-above j i nodes b)
  ]

  pub above-IsSorted : (i : ℕ) (nodes : Level V) → IsSorted nodes → IsSorted (above i nodes)
  unfolding above
  above-IsSorted i [] s = tt
  above-IsSorted i ((k, (v, d)) ∷ nodes) (a, s) = elim (Bool-cases (ltb i d)) [
    | inl e ↦ rw e (Above-above k i nodes a, above-IsSorted i nodes s)
    | inr e ↦ rw e (above-IsSorted i nodes s)
  ]

  -- What a search in level i finds of a node.
  unfoldable pub keep : ℕ → Option (V × ℕ) → Option (V × ℕ)
  keep i none = none
  keep i (some (v, d)) = if ltb i d then some (v, d) else none

  search-above_nil : (i key : ℕ) → search (above i []) key ≡ keep i (search [] key)
  unfolding above search keep
  search-above_nil i key = refl

  pub search-above :
      (i key : ℕ) (nodes : Level V)
      → IsSorted nodes
      → search (above i nodes) key ≡ keep i (search nodes key)
  unfolding keep
  search-above i key [] s = search-above_nil i key
  search-above i key ((k, (v, d)) ∷ nodes) (a, s) = elim (Bool-cases (ltb i d)) [
    | inl e ↦ elim (order k key) [
      | inl h ↦
          rw
            (
              above-in i k d v nodes e,
              search-same key k (v, d) (above i nodes) h,
              search-same key k (v, d) nodes h,
              e,
            )
            refl
      | inr (inl h) ↦
          rw
            (
              above-in i k d v nodes e,
              search-greater key k (v, d) (above i nodes) h,
              search-greater key k (v, d) nodes h,
            )
            refl
      | inr (inr h) ↦
          rw
            (
              above-in i k d v nodes e,
              search-less key k (v, d) (above i nodes) h,
              search-less key k (v, d) nodes h,
            )
            (search-above i key nodes s)
    ]
    | inr e ↦ elim (order k key) [
      | inl h ↦
          rw (above-out i k d v nodes e, search-same key k (v, d) nodes h, e)
            (search-Above k key (above i nodes) (Above-above k i nodes a) (omega (arith, h)))
      | inr (inl h) ↦
          rw (above-out i k d v nodes e, search-greater key k (v, d) nodes h)
            (search-Above k key (above i nodes) (Above-above k i nodes a) (omega arith))
      | inr (inr h) ↦
          rw (above-out i k d v nodes e, search-less key k (v, d) nodes h)
            (search-above i key nodes s)
    ]
  ]

  -- A node of a level is in the one below it.
  HasKey-tail : (k p : ℕ) (x : V × ℕ) (nodes : Level V) → HasKey p nodes → HasKey p ((k, x) ∷ nodes)
  unfolding HasKey
  HasKey-tail k p x nodes h = inr h

  HasKey-both :
      (k p : ℕ) (x : V × ℕ) (high low : Level V)
      → (HasKey p high → HasKey p low)
      → HasKey p ((k, x) ∷ high)
      → HasKey p ((k, x) ∷ low)
  unfolding HasKey
  HasKey-both k p x high low f (inl e) = inl e
  HasKey-both k p x high low f (inr h) = inr (f h)

  pub HasKey-above :
      (i p : ℕ) (nodes : Level V) → HasKey p (above (suc i) nodes) → HasKey p (above i nodes)
  HasKey-above i p [] h = HasKey-above_nil V i p h
  HasKey-above i p ((k, (v, d)) ∷ nodes) h = elim (Bool-cases (ltb (suc i) d)) [
    | inl e ↦
        let low : ltb i d ≡ true = ground (arith, e) in
        let there = subst (HasKey p) (above-in (suc i) k d v nodes e) h in
        subst (HasKey p) (sym (above-in i k d v nodes low)) (
          HasKey-both k p (v, d) (above (suc i) nodes) (above i nodes) (HasKey-above i p nodes)
            there)
    | inr e ↦
        let r = HasKey-above i p nodes (subst (HasKey p) (above-out (suc i) k d v nodes e) h) in
        elim (Bool-cases (ltb i d)) [
          | inl low ↦
              subst (HasKey p) (sym (above-in i k d v nodes low))
                (HasKey-tail k p (v, d) (above i nodes) r)
          | inr high ↦ subst (HasKey p) (sym (above-out i k d v nodes high)) r
        ]
  ]

  insert-Above :
      (key : ℕ) (x : V × ℕ) (nodes : Level V)
      → Above key nodes
      → insert nodes key x ≡ (key, x) ∷ nodes
  unfolding insert
  insert-Above key x [] a = refl
  insert-Above key x ((k, y) ∷ nodes) (a, b) = insert-greater key k x y nodes a

  above-insert_nil :
      (i key d : ℕ) (v : V)
      → above i (insert [] key (v, d))
        ≡ (if ltb i d then insert (above i []) key (v, d) else above i [])
  unfolding above insert
  above-insert_nil i key d v = refl

  if-cons_insert :
      (b : Bool) (k key : ℕ) (y x : V × ℕ) (nodes : Level V)
      → k < key
      → (k, y) ∷ (if b then insert nodes key x else nodes)
        ≡ (if b then insert ((k, y) ∷ nodes) key x else ((k, y) ∷ nodes))
  if-cons_insert true k key y x nodes h = sym (insert-less key k x y nodes h)
  if-cons_insert false k key y x nodes h = refl

  if-cons_remove :
      (b : Bool) (k key : ℕ) (y : V × ℕ) (nodes : Level V)
      → k < key
      → (k, y) ∷ (if b then remove nodes key else nodes)
        ≡ (if b then remove ((k, y) ∷ nodes) key else ((k, y) ∷ nodes))
  if-cons_remove true k key y nodes h = sym (remove-less key k y nodes h)
  if-cons_remove false k key y nodes h = refl

  pub above-insert :
      (i key d : ℕ) (v : V) (nodes : Level V)
      → IsSorted nodes
      → search nodes key ≡ none
      → above i (insert nodes key (v, d))
        ≡ (if ltb i d then insert (above i nodes) key (v, d) else above i nodes)
  above-insert i key d v [] s e = above-insert_nil i key d v
  above-insert i key d v ((k, (w, c)) ∷ nodes) (a, s) e = elim (order k key) [
    | inl h ↦ absurd (cc (e, search-same key k (w, c) nodes h))
    | inr (inl h) ↦
        let level : Level V = (k, (w, c)) ∷ nodes in
        let all : Above key level = (h, Above-trans key k nodes h a) in
        let first = insert-Above key (v, d) (above i level) (Above-above key i level all) in
        rw (insert-greater key k (v, d) (w, c) nodes h) (elim (Bool-cases (ltb i d)) [
          | inl g ↦ rw (g, above-in i key d v level g) (sym first)
          | inr g ↦ rw (g, above-out i key d v level g) refl
        ])
    | inr (inr h) ↦
        let r = above-insert i key d v nodes s (sym (search-less key k (w, c) nodes h) ∙ e) in
        rw (insert-less key k (v, d) (w, c) nodes h) (elim (Bool-cases (ltb i c)) [
          | inl g ↦
              rw (above-in i k c w (insert nodes key (v, d)) g, above-in i k c w nodes g, r)
                (if-cons_insert (ltb i d) k key (w, c) (v, d) (above i nodes) h)
          | inr g ↦ rw (above-out i k c w (insert nodes key (v, d)) g, above-out i k c w nodes g) r
        ])
  ]

  pub search-nil : (key : ℕ) → search {V = V × ℕ} [] key ≡ none
  unfolding search
  search-nil key = refl

  pub above-remove :
      (i key d : ℕ) (v : V) (nodes : Level V)
      → IsSorted nodes
      → search nodes key ≡ some (v, d)
      → above i (remove nodes key) ≡ (if ltb i d then remove (above i nodes) key else above i nodes)
  above-remove i key d v [] s e = absurd (cc (e, search-nil key))
  above-remove i key d v ((k, (w, c)) ∷ nodes) (a, s) e = elim (order k key) [
    | inl h ↦
        let same : c ≡ d = cc (e, search-same key k (w, c) nodes h) in
        rw (remove-same key k (w, c) nodes h) (elim (Bool-cases (ltb i d)) [
          | inl g ↦
              rw
                (
                  g,
                  above-in i k c w nodes (ap (ltb i) same ∙ g),
                  remove-same key k (w, c) (above i nodes) h,
                )
                refl
          | inr g ↦ rw (g, above-out i k c w nodes (ap (ltb i) same ∙ g)) refl
        ])
    | inr (inl h) ↦ absurd (cc (e, search-greater key k (w, c) nodes h))
    | inr (inr h) ↦
        let r = above-remove i key d v nodes s (sym (search-less key k (w, c) nodes h) ∙ e) in
        rw (remove-less key k (w, c) nodes h) (elim (Bool-cases (ltb i c)) [
          | inl g ↦
              rw (above-in i k c w (remove nodes key) g, above-in i k c w nodes g, r)
                (if-cons_remove (ltb i d) k key (w, c) (above i nodes) h)
          | inr g ↦ rw (above-out i k c w (remove nodes key) g, above-out i k c w nodes g) r
        ])
  ]
