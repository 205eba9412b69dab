-- ===== src/FlexFecXor/Order.antt =====
-- sim_transport/fec/flex_fec_xor.c: the loops do not depend on the order, and undo each other.
use Prim.Native.Nat.{bit_xor}
use lmp.Prelude.{ℕ, ◌≡◌, refl, sym, ◌∙◌, ap, List, [], ◌∷◌, length, arith}
use lmp.Prelude.Bits.{bit_xor_comm, bit_xor_assoc, bit_xor_cancel}
use lmp.Proto.{Segment, FecMeta}
use lmp.FlexFecXor.{xor_meta, xor_data, xor_segment, longer}
use mathlib.Core.List.{foldl, Perm, Permᴰ}
use mathlib.Core.Logic.{∥∥₁_elim}

-- Steps that commute give the same result in any order.
module _ {S A : Type 0} (f : S → A → S)
    (f_comm : (s : S) (a b : A) → f (f s a) b ≡ f (f s b) a) where
  foldl-Permᴰ : {xs ys : List A} → Permᴰ xs ys → (s : S) → foldl f s xs ≡ foldl f s ys
  foldl-Permᴰ Permᴰ.nil s = refl
  foldl-Permᴰ (Permᴰ.cons {b = b} {l₁ = l₁} e d) s =
      ap (λ a. foldl f (f s a) l₁) e ∙ foldl-Permᴰ d (f s b)
  foldl-Permᴰ (Permᴰ.swap {b = b} {a' = a'} {b' = b'} {l = l} p q) s =
      ap (λ x. foldl f (f (f s x) b) l) p
      ∙ ap (λ x. foldl f (f (f s b') x) l) q
      ∙ ap (λ t. foldl f t l) (f_comm s b' a')
  foldl-Permᴰ (Permᴰ.trans d e) s = foldl-Permᴰ d s ∙ foldl-Permᴰ e s

  pub foldl-Perm : IsSet S → {xs ys : List A} → Perm xs ys → (s : S) → foldl f s xs ≡ foldl f s ys
  foldl-Perm h {xs} {ys} p s = ∥∥₁_elim p (h (foldl f s xs) (foldl f s ys)) (λ d. foldl-Permᴰ d s)

  foldl-past : (xs : List A) (s : S) (a : A) → foldl f (f s a) xs ≡ f (foldl f s xs) a
  foldl-past [] s a = refl
  foldl-past (x ∷ xs) s a = ap (λ t. foldl f t xs) (f_comm s a x) ∙ foldl-past xs (f s x) a

  -- The same steps once more, where a step undoes itself.
  pub foldl-twice :
      ((s : S) (a : A) → f (f s a) a ≡ s) → (xs : List A) (s : S) → foldl f (foldl f s xs) xs ≡ s
  foldl-twice undo [] s = refl
  foldl-twice undo (x ∷ xs) s =
      ap (λ t. foldl f (f t x) xs) (foldl-past xs s x)
      ∙ ap (λ t. foldl f t xs) (undo (foldl f s xs) x)
      ∙ foldl-twice undo xs s

pub state_set : IsSet (FecMeta × List ℕ)
state_set = hlevel

xor_swap : (a b c : ℕ) → bit_xor (bit_xor a b) c ≡ bit_xor (bit_xor a c) b
xor_swap a b c = bit_xor_assoc a b c ∙ ap (bit_xor a) (bit_xor_comm b c) ∙ sym (bit_xor_assoc a c b)

xor_meta_swap :
    (m : FecMeta) (a b : Segment) → xor_meta (xor_meta m a) b ≡ xor_meta (xor_meta m b) a
unfolding xor_meta
xor_meta_swap m a b = rw (
  xor_swap m.seq a.packet_id b.packet_id,
  xor_swap m.fid a.fid b.fid,
  xor_swap m.ts a.timestamp b.timestamp,
  xor_swap m.index a.index b.index,
  xor_swap m.total a.total b.total,
  xor_swap m.ftype a.ftype b.ftype,
  xor_swap m.payload_type a.payload_type b.payload_type,
  xor_swap m.size (length a.payload) (length b.payload),
)

xor_meta_undo : (m : FecMeta) (a : Segment) → xor_meta (xor_meta m a) a ≡ m
unfolding xor_meta
xor_meta_undo m a = simp bit_xor_cancel refl

xor_data_swap : (d x y : List ℕ) → xor_data (xor_data d x) y ≡ xor_data (xor_data d y) x
unfolding xor_data
xor_data_swap [] x y = refl
xor_data_swap (b ∷ d) [] [] = refl
xor_data_swap (b ∷ d) [] (v ∷ y) = rw (xor_swap b 0 v, xor_data_swap d [] y)
xor_data_swap (b ∷ d) (u ∷ x) [] = rw (xor_swap b u 0, xor_data_swap d x [])
xor_data_swap (b ∷ d) (u ∷ x) (v ∷ y) = rw (xor_swap b u v, xor_data_swap d x y)

xor_data_undo : (d x : List ℕ) → xor_data (xor_data d x) x ≡ d
unfolding xor_data
xor_data_undo [] x = refl
xor_data_undo (b ∷ d) [] = rw (bit_xor_cancel b 0, xor_data_undo d [])
xor_data_undo (b ∷ d) (u ∷ x) = rw (bit_xor_cancel b u, xor_data_undo d x)

pub xor_segment_swap :
    (s : FecMeta × List ℕ) (a b : Segment)
    → xor_segment (xor_segment s a) b ≡ xor_segment (xor_segment s b) a
unfolding xor_segment
xor_segment_swap (m, d) a b = rw (xor_meta_swap m a b, xor_data_swap d a.payload b.payload)

pub xor_segment_undo : (s : FecMeta × List ℕ) (a : Segment) → xor_segment (xor_segment s a) a ≡ s
unfolding xor_segment
xor_segment_undo (m, d) a = rw (xor_meta_undo m a, xor_data_undo d a.payload)

pub longer_swap : (n : ℕ) (a b : Segment) → longer (longer n a) b ≡ longer (longer n b) a
unfolding longer
longer_swap n a b = ground arith
