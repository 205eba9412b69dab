-- ===== src/Pacing/Queue/Links.antt =====
-- pacing/pacer_queue.c: the list points to packets of the cache, no two pointers to one packet.
use lmp.Prelude.{
  ℕ, ◌≤◌, ◌≡◌, ◌≢◌, refl, ◌∙◌, ap, false, Option, none, some, List, [], ◌∷◌, ◌++◌, Bool-cases, inl,
  inr, arith,
}
use lmp.SkipList.{SkipList, search, insert, remove, modify}
use lmp.SkipList.Laws.{IsSorted, remove-IsSorted, search-insert, search-remove, sum}
use lmp.Pacing.Queue.{PacketEvent, if_sent, drop_sent}

abbrev pub Absent : ℕ → List ℕ → Type 0
Absent key [] = Unit
Absent key (k ∷ l) = (key ≢ k) × Absent key l

abbrev pub IsLinked : SkipList PacketEvent → List ℕ → Type 0
IsLinked cache [] = Unit
IsLinked cache (key ∷ l) = (search cache key ≢ none) × Absent key l × IsLinked cache l

pub IsLinked-map :
    (cache cache₁ : SkipList PacketEvent) (l : List ℕ)
    → ((k : ℕ) → search cache₁ k ≡ none → search cache k ≡ none)
    → IsLinked cache l
    → IsLinked cache₁ l
IsLinked-map cache cache₁ [] f h = tt
IsLinked-map cache cache₁ (key ∷ l) f (h, a, hs) =
    (λ e. h (f key e), a, IsLinked-map cache cache₁ l f hs)

pub search-modify :
    (cache : SkipList PacketEvent) (key : ℕ) (f : PacketEvent → PacketEvent) (k : ℕ)
    → search (modify cache key f) k ≡ none
    → search cache k ≡ none
unfolding search modify
search-modify [] key f k e = refl
search-modify ((j, p) ∷ nodes) key f k e = ground (arith, search-modify nodes key f k)

IsLinked-remove :
    (cache : SkipList PacketEvent) (key : ℕ) (l : List ℕ)
    → IsSorted cache
    → Absent key l
    → IsLinked cache l
    → IsLinked (remove cache key) l
IsLinked-remove cache key [] s a h = tt
IsLinked-remove cache key (k ∷ l) s (n, a) (h, b, hs) = (
  λ e. h (ground (arith, search-remove cache key k s, e, n)),
  b,
  IsLinked-remove cache key l s a hs,
)

Absent-append :
    (cache : SkipList PacketEvent) (k key : ℕ) (l : List ℕ)
    → k ≢ key
    → Absent k l
    → Absent k (l ++ key ∷ [])
Absent-append cache k key [] n a = (n, tt)
Absent-append cache k key (j ∷ l) n (m, a) = (m, Absent-append cache k key l n a)

pub IsLinked-append :
    (cache : SkipList PacketEvent) (key : ℕ) (packet : PacketEvent) (l : List ℕ)
    → IsSorted cache
    → search cache key ≡ none
    → IsLinked cache l
    → IsLinked (insert cache key packet) (l ++ key ∷ [])
IsLinked-append cache key packet [] s e h =
    (λ x. ground (arith, search-insert cache key key packet s e, x), tt, tt)
IsLinked-append cache key packet (k ∷ l) s e (h, a, hs) = (
  λ x. h (ground (arith, search-insert cache key k packet s e, x)),
  Absent-append cache k key l (λ d. h (ap (search cache) d ∙ e)) a,
  IsLinked-append cache key packet l s e hs,
)

-- Where the loop of `pacer_queue_final` stops: at the end of the list, or at a packet not sent.
abbrev pub Stops : SkipList PacketEvent → List ℕ → Type 0
Stops cache [] = Unit
Stops cache (key ∷ l) =
    (packet : PacketEvent) × (search cache key ≡ some packet) × (packet.sent ≡ false)

if_sent-Stops :
    (cache : SkipList PacketEvent) (key : ℕ) (l : List ℕ) (rest : SkipList PacketEvent × List ℕ)
    (found : Option PacketEvent)
    → search cache key ≡ found
    → IsLinked cache (key ∷ l)
    → IsLinked rest.0 rest.1 × Stops rest.0 rest.1
    → IsLinked (if_sent found rest (cache, key ∷ l)).0 (if_sent found rest (cache, key ∷ l)).1
      × Stops (if_sent found rest (cache, key ∷ l)).0 (if_sent found rest (cache, key ∷ l)).1
unfolding if_sent
if_sent-Stops cache key l rest none e h r = absurd (h.0 e)
if_sent-Stops cache key l rest (some packet) e h r = elim (Bool-cases packet.sent) [
  | inl t ↦ rw t r
  | inr t ↦ rw t (h, (packet, e, t))
]

pub drop_sent-Stops :
    (cache : SkipList PacketEvent) (l : List ℕ)
    → IsSorted cache
    → IsLinked cache l
    → IsLinked (drop_sent cache l).0 (drop_sent cache l).1
      × Stops (drop_sent cache l).0 (drop_sent cache l).1
unfolding drop_sent
drop_sent-Stops cache [] s h = (tt, tt)
drop_sent-Stops cache (key ∷ l) s (f, a, h) =
    if_sent-Stops cache key l (drop_sent (remove cache key) l) (search cache key) refl (f, a, h)
      (drop_sent-Stops (remove cache key) l (remove-IsSorted cache key s)
        (IsLinked-remove cache key l s a h))

pub sum_found :
    (w : PacketEvent → ℕ) (cache : SkipList PacketEvent) (k : ℕ) (packet : PacketEvent)
    → search cache k ≡ some packet
    → w packet ≤ sum w cache
unfolding search sum
sum_found w [] k packet e = ground arith
sum_found w ((j, p) ∷ nodes) k packet e = ground (arith, sum_found w nodes k packet)
