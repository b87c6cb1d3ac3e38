-- ===== src/Ipc/Protocol/Strict.antt =====
-- ipcProtocol.js: what is cut off is refused.
use task_manger_project.Common.{
  ℕ, zero, suc, ap, inl, inr, List, [], arith, ltb, Bool-cases, length, take, ◌+◌, ◌-◌, ◌≤◌, ◌<◌,
  ◌≡◌, ◌∙◌, ◌∷◌, if◌then◌else◌,
}
use task_manger_project.Ipc.Protocol.{
  Codec, short, truncated, encode_frame, decode_frame, decode_body, le16, le32, header_size,
}
use task_manger_project.Ipc.Protocol.RoundTrip.{header_read}

length-take-le : (n : ℕ) (xs : List ℕ) → length (take n xs) ≤ n
length-take-le zero xs = omega arith
length-take-le (suc n) [] = omega arith
length-take-le (suc n) (x ∷ xs) = omega (arith, length-take-le n xs)

take-take-length : (k : ℕ) (xs : List ℕ) → length (take k xs) ≤ length xs
take-take-length zero xs = omega arith
take-take-length (suc k) [] = omega arith
take-take-length (suc k) (x ∷ xs) = omega (arith, take-take-length k xs)

module _ {P : Type 0} (c : Codec P) where
  short_refused : (bytes : List ℕ) → length bytes < header_size → decode_frame c bytes ≡ short
  unfolding decode_frame
  short_refused bytes h = ground arith

  body_refused :
      (type size : ℕ) (rest : List ℕ)
      → length rest < size
      → decode_body c type size rest ≡ truncated
  unfolding decode_body
  body_refused type size rest h = ground (arith, take-take-length size rest)

  prefix_truncated :
      (type : ℕ) (payload : P) (k : ℕ)
      → type < 65536
      → length (c.write payload) < 4294967296
      → k < length (c.write payload)
      → decode_frame c (
          take
            (suc (suc (suc (suc (suc (suc (suc (suc (suc (suc k))))))))))
            (encode_frame c type payload))
        ≡ truncated
  unfolding encode_frame
  prefix_truncated type payload k p q h =
      header_read c type (length (c.write payload)) (take k (c.write payload)) p q
      ∙ body_refused type (length (c.write payload)) (take k (c.write payload))
          (omega (arith, length-take-le k (c.write payload)))

  encode_length :
      (type : ℕ) (payload : P)
      → length (encode_frame c type payload) ≡ length (c.write payload) + header_size
  unfolding encode_frame le16 le32
  encode_length type payload = omega arith

  -- No proper prefix of a frame, whose type fits in 16 bits and whose text is shorter than 2^32
  -- bytes, is taken for a frame: one of less than the ten bytes of the header is too short, and a
  -- longer one is truncated.
  pub prefix_refused :
      (type : ℕ) (payload : P) (k : ℕ)
      → type < 65536
      → length (c.write payload) < 4294967296
      → k < length (encode_frame c type payload)
      → decode_frame c (take k (encode_frame c type payload))
        ≡ (if ltb k header_size then short else truncated)
  prefix_refused type payload k p q h = elim (Bool-cases (ltb k header_size)) [
    | inl below ↦ rw below (
        short_refused (take k (encode_frame c type payload))
          (ground (arith, length-take-le k (encode_frame c type payload))))
    | inr above ↦
        let split : k ≡ suc (suc (suc (suc (suc (suc (suc (suc (suc (suc (k - 10)))))))))) =
          ground arith in
        rw above (
          ap (λ n. decode_frame c (take n (encode_frame c type payload))) split
          ∙ prefix_truncated type payload (k - 10) p q (ground (arith, encode_length type payload)))
  ]
