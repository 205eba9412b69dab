-- ===== src/FrameCache/Copy.antt =====
-- sim_transport/sim_receiver.c: the copy of a frame that has all its segments.
use lmp.Prelude.{
  concat, ℕ, suc, ◌+◌, ◌<◌, ◌≤◌, ◌≡◌, refl, sym, ◌∙◌, ap, true, Option, none, some, List, [], ◌∷◌,
  ◌++◌, leb, length, get_elem?, length-append, append_assoc, append-nil, arith, ◌⊎◌, inl, inr, All,
}
use lmp.Proto.{Segment, sim_video_size}
use lmp.FrameCache.Play.{copy_frame}
use lmp.FrameCache.Frames.{filled}

-- Each segment is there, with its piece.
abbrev pub Matches : ℕ → List (Option Segment) → List (List ℕ) → Type 0
Matches type [] [] = Unit
Matches type [] (piece ∷ pieces) = ⊥
Matches type (o ∷ segments) [] = ⊥
Matches type (none ∷ segments) (piece ∷ pieces) = ⊥
Matches type (some seg ∷ segments) (piece ∷ pieces) =
    (seg.payload ≡ piece) × (seg.payload_type ≡ type) × Matches type segments pieces

pub Matches-all :
    (type : ℕ) (segments : List (Option Segment)) (pieces : List (List ℕ))
    → length segments ≡ length pieces
    → ((i : ℕ) → i < length pieces → (seg : Segment) × (get_elem? segments i ≡ some (some seg)))
    → ((i : ℕ) (seg : Segment)
        → get_elem? segments i ≡ some (some seg)
        → (get_elem? pieces i ≡ some seg.payload) × (seg.payload_type ≡ type))
    → Matches type segments pieces
Matches-all type [] [] n h p = tt
Matches-all type [] (piece ∷ pieces) n h p = omega (arith, n)
Matches-all type (o ∷ segments) [] n h p = omega (arith, n)
Matches-all type (none ∷ segments) (piece ∷ pieces) n h p = cc ((h 0 (omega arith)).1)
Matches-all type (some seg ∷ segments) (piece ∷ pieces) n h p = (
  cc ((p 0 seg refl).0),
  (p 0 seg refl).1,
  Matches-all type segments pieces (omega (arith, n)) (λ i l. h (suc i) (omega (arith, l)))
      (λ i s e. p (suc i) s e),
)

pub filled-Matches :
    (type : ℕ) (segments : List (Option Segment)) (pieces : List (List ℕ))
    → Matches type segments pieces
    → filled segments ≡ length segments
unfolding filled
filled-Matches type [] [] m = refl
filled-Matches type [] (piece ∷ pieces) m = absurd m
filled-Matches type (o ∷ segments) [] m = absurd m
filled-Matches type (none ∷ segments) (piece ∷ pieces) m = absurd m
filled-Matches type (some seg ∷ segments) (piece ∷ pieces) (e, t, m) =
    ap suc (filled-Matches type segments pieces m)

-- Pieces of SIM_VIDEO_SIZE bytes at most.
abbrev pub AreSmall : List (List ℕ) → Type 0
AreSmall pieces = All (λ piece. length piece ≤ sim_video_size) pieces

pub copy_frame-Matches :
    (type : ℕ) (segments : List (Option Segment)) (pieces : List (List ℕ)) (buffer_size : ℕ)
    (bytes : List ℕ) (before : ℕ)
    → Matches type segments pieces
    → AreSmall pieces
    → length bytes + length (concat pieces) ≤ buffer_size
    → (t : ℕ) × (copy_frame buffer_size bytes before segments ≡ some (bytes ++ concat pieces, t))
      × ((before ≡ type) ⊎ (0 < length pieces) → t ≡ type)
unfolding copy_frame
copy_frame-Matches type [] [] buffer_size bytes before m small h = (
  before,
  ap (λ x. some (x, before)) (sym (append-nil bytes)),
  λ x. elim x [ inl e ↦ e | inr l ↦ absurd (omega (arith, l)) ],
)
copy_frame-Matches type [] (piece ∷ pieces) buffer_size bytes before m small h = absurd m
copy_frame-Matches type (o ∷ segments) [] buffer_size bytes before m small h = absurd m
copy_frame-Matches type (none ∷ segments) (piece ∷ pieces) buffer_size bytes before m small h =
    absurd m
copy_frame-Matches type (some seg ∷ segments) (piece ∷ pieces) buffer_size bytes before (e, t, m)
      (s, small) h =
    let same : length seg.payload ≡ length piece = ap length e in
    let both = length-append piece (concat pieces) in
    let fits : leb (length bytes + length seg.payload) buffer_size ≡ true =
      ground (arith, h, same, both) in
    let few : leb (length seg.payload) sim_video_size ≡ true = ground (arith, s, same) in
    let r =
      copy_frame-Matches type segments pieces buffer_size (bytes ++ seg.payload) seg.payload_type m
        small (omega (arith, h, same, both, length-append bytes seg.payload)) in
    (
      r.0,
      rw (fits, few)
          (r.1
            ∙ ap (λ x. some (x, r.0))
                (append_assoc bytes seg.payload (concat pieces)
                  ∙ ap (λ q. bytes ++ (q ++ concat pieces)) e)),
      λ x. r.2 (inl t),
    )
