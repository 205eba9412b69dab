-- ===== src/Message/Tamper.antt =====
-- sim_transport/sim_proto.c, `sim_decode_header`: what the checksum lets through.
use lmp.Prelude.{
  ℕ, ◌+◌, ◌-◌, ◌≡◌, ◌≢◌, ◌<◌, ◌^◌, ◌∙◌, sym, ap, false, inl, inr, List, ◌∷◌, ◌++◌, arith, ltb, ◌==◌,
  if◌then◌else◌, take, drop, length, length-append, length-take, Bool-cases, ==_iff,
}
use lmp.Stream.{Stream}
use lmp.Stream.Bytes.{get_4}
use lmp.Stream.Buffer.{take-take, take-append, drop-append, drop-take}
use lmp.Stream.Valid.{IsReadable, written}
use lmp.Crc.{crc32}
use lmp.Crc.Detect.{AreBytes, crc32_tells}
use lmp.Proto.{Header}
use lmp.Message.{accepted, refused, decode_header, read_header, crc_val}

length-written : {s : Stream} → IsReadable s → length (written s) ≡ s.used
length-written {s} v = omega (arith, length-take s.used s.buf)

-- The test that `sim_decode_header` makes of a packet that ends in `trailer`.
pub decode_header_test :
    {s : Stream} (body trailer : List ℕ)
    → IsReadable s
    → written s ≡ body ++ trailer
    → length trailer ≡ 4
    → decode_header s
      ≡ (if get_4 trailer == crc32 crc_val body then read_header s else (refused, s))
unfolding decode_header
decode_header_test {s} body trailer v e h =
    let long : s.used ≡ length body + 4 =
      omega (arith, length-written v, ap length e, length-append body trailer) in
    let size : s.used - 4 ≡ length body = omega arith in
    let before : take (s.used - 4) s.buf ≡ body =
      sym (take-take (s.used - 4) s.used s.buf (omega arith))
      ∙ ap (take (s.used - 4)) e
      ∙ ap (λ n. take n (body ++ trailer)) size
      ∙ take-append body trailer in
    let four : s.used - (s.used - 4) ≡ 4 = omega arith in
    let behind : take 4 (drop (s.used - 4) s.buf) ≡ trailer =
      ap (λ n. take n (drop (s.used - 4) s.buf)) (sym four)
      ∙ sym (drop-take (s.used - 4) s.used s.buf (omega arith))
      ∙ ap (drop (s.used - 4)) e
      ∙ ap (λ n. drop n (body ++ trailer)) size
      ∙ drop-append body trailer in
    let enough : ltb s.used 4 ≡ false = ground arith in rw (enough, before, behind)

accepted_intact :
    {s : Stream} {h : Header} (body trailer : List ℕ)
    → IsReadable s
    → written s ≡ body ++ trailer
    → length trailer ≡ 4
    → (decode_header s).0 ≡ accepted h
    → get_4 trailer ≡ crc32 crc_val body
accepted_intact {s} body trailer v e n ok =
    elim (Bool-cases (get_4 trailer == crc32 crc_val body)) [
      | inl p ↦ (==_iff _ _).0 p
      | inr p ↦
          let out : decode_header s ≡ (refused, s) =
            rw p at (decode_header_test body trailer v e n) in
          cc (ap (λ q. q.0) out, ok)
    ]

-- Of two received packets that differ in exactly one byte before the last four, the checksum, the
-- header of one is refused if that of the other is accepted, provided that what follows the
-- changed byte is made of bytes.
pub decode_header_tampered :
    {r t : Stream} {h : Header} (x y : ℕ) (before between trailer : List ℕ)
    → IsReadable r
    → IsReadable t
    → written r ≡ (before ++ x ∷ between) ++ trailer
    → written t ≡ (before ++ y ∷ between) ++ trailer
    → length trailer ≡ 4
    → AreBytes between
    → x < 2 ^ 8
    → y < 2 ^ 8
    → x ≢ y
    → (decode_header r).0 ≡ accepted h
    → (decode_header t).0 ≡ refused
decode_header_tampered {r} {t} x y before between trailer vr vt er et n bytes hx hy ne ok =
    let intact = accepted_intact (before ++ x ∷ between) trailer vr er n ok in
    elim (Bool-cases (get_4 trailer == crc32 crc_val (before ++ y ∷ between))) [
      | inl p ↦ absurd (
          crc32_tells crc_val x y before between (omega arith) hx hy bytes ne
            (sym intact ∙ (==_iff _ _).0 p))
      | inr p ↦ rw (decode_header_test (before ++ y ∷ between) trailer vt et n, p)
    ]
