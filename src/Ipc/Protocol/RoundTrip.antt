-- ===== src/Ipc/Protocol/RoundTrip.antt =====
-- ipcProtocol.js: a frame that is written is read back.
use task_manger_project.Common.{
  ℕ, refl, ap, List, [], arith, length, take, ◌+◌, ◌*◌, ◌/◌, ◌%◌, ◌<◌, ◌≡◌, ◌∙◌, ◌≢◌, ◌∷◌, ◌++◌,
}
use task_manger_project.Ipc.Protocol.{
  Codec, IsFaithful, frame, decode_frame, decode_body, le16, le32, encode_frame,
}

take-length : (xs ys : List ℕ) → take (length xs) (xs ++ ys) ≡ xs
take-length [] ys = refl
take-length (x ∷ xs) ys = ap (λ r. x ∷ r) (take-length xs ys)

get32-le32 :
    (n : ℕ)
    → n < 4294967296
    → n % 256 + n / 256 % 256 * 256 + n / 65536 % 256 * 65536 + n / 16777216 % 256 * 16777216 ≡ n
get32-le32 n h = omega arith

get16-le16 : (n : ℕ) → n < 65536 → n % 256 + n / 256 % 256 * 256 ≡ n
get16-le16 n h = omega arith

nonzero : (xs : List ℕ) → xs ≢ [] → length xs ≢ 0
nonzero [] h = absurd (h refl)
nonzero (x ∷ xs) h = omega arith

module _ {P : Type 0} (c : Codec P) where
  body_read :
      (type : ℕ) (payload : P) (rest : List ℕ)
      → IsFaithful c
      → decode_body c type (length (c.write payload)) (c.write payload ++ rest) ≡ frame type payload
  unfolding decode_body
  body_read type payload rest f =
      let body = c.write payload in
      rw (take-length body rest)
        (ground (arith, f.read-write payload, nonzero body (f.write-ne-nil payload)))

  pub header_read :
      (type size : ℕ) (rest : List ℕ)
      → type < 65536
      → size < 4294967296
      → decode_frame c (0xa1 ∷ 0xd1 ∷ 0x0c ∷ 0x01 ∷ (le16 type ++ (le32 size ++ rest)))
        ≡ decode_body c type size rest
  unfolding decode_frame le16 le32
  header_read type size rest p q = ground (arith, get16-le16 type p, get32-le32 size q)

  -- A frame whose type fits in 16 bits and whose payload's text is shorter than 2^32 bytes is read
  -- back as it was written, whatever bytes come behind it in the message.
  pub decode-encode :
      (type : ℕ) (payload : P) (rest : List ℕ)
      → IsFaithful c
      → type < 65536
      → length (c.write payload) < 4294967296
      → decode_frame c (encode_frame c type payload ++ rest) ≡ frame type payload
  unfolding encode_frame
  decode-encode type payload rest f p q =
      header_read type (length (c.write payload)) (c.write payload ++ rest) p q
      ∙ body_read type payload rest f
