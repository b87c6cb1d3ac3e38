-- ===== src/Ipc/Protocol.antt =====
-- frontend/src/lib/ipcProtocol.js: frames of a magic number, a type (uint16), a length (uint32), both
-- little-endian, and a payload. Bytes are numbers. `JSON` and the text codecs are the language's: a
-- payload is written as bytes and read back by the two functions of a `Codec`.
pub mod RoundTrip
pub mod Strict
use task_manger_project.Common.{
  ℕ, zero, suc, Option, none, some, List, [], ltb, length, take, drop, ◌+◌, ◌*◌, ◌/◌, ◌%◌, ◌≡◌, ◌≢◌,
  ◌&&◌, ◌∷◌, ◌++◌, ◌==◌, if◌then◌else◌,
}

pub record Codec (P : Type 0) : Type 0 where
  -- `encode(JSON.stringify(payload))`
  pub write : P → List ℕ
  -- `JSON.parse(decode(body))`, with `none` for a SyntaxError
  pub read : List ℕ → Option P
  -- `{}`
  pub empty : P

-- What the source relies on: a payload is read back from its text, which is never empty.
pub record IsFaithful {P : Type 0} (c : Codec P) : Type 0 where
  pub read-write : (p : P) → c.read (c.write p) ≡ some p
  pub write-ne-nil : (p : P) → c.write p ≢ []

-- The message types of `MSG`.
abbrev pub heartbeat : ℕ
heartbeat = 0x0001

abbrev pub heartbeat_ack : ℕ
heartbeat_ack = 0x0002

abbrev pub trigger_event : ℕ
trigger_event = 0x0003

abbrev pub trigger_ack : ℕ
trigger_ack = 0x0004

abbrev pub config_updated : ℕ
config_updated = 0x0007

abbrev pub magic : List ℕ
magic = 0xa1 ∷ 0xd1 ∷ 0x0c ∷ 0x01 ∷ []

abbrev pub header_size : ℕ
header_size = 10

-- `setUint16(…, true)` and `setUint32(…, true)`, which keep the low bits.
unfoldable pub le16 : ℕ → List ℕ
le16 n = (n % 256) ∷ (n / 256 % 256) ∷ []

unfoldable pub le32 : ℕ → List ℕ
le32 n = (n % 256) ∷ (n / 256 % 256) ∷ (n / 65536 % 256) ∷ (n / 16777216 % 256) ∷ []

-- The byte at an index; reads stand behind the check of the length.
abbrev pub byte_at : List ℕ → ℕ → ℕ
byte_at [] i = 0
byte_at (b ∷ bs) zero = b
byte_at (b ∷ bs) (suc i) = byte_at bs i

unfoldable pub get16 : List ℕ → ℕ → ℕ
get16 bs i = byte_at bs i + byte_at bs (suc i) * 256

unfoldable pub get32 : List ℕ → ℕ → ℕ
get32 bs i =
    byte_at bs i
    + byte_at bs (suc i) * 256
    + byte_at bs (suc (suc i)) * 65536
    + byte_at bs (suc (suc (suc i))) * 16777216

pub data Decoded (P : Type 0) : Type 0 where
  frame : ℕ → P → Decoded P
  short bad_magic truncated bad_json : Decoded P

module _ {P : Type 0} (c : Codec P) where
  unfoldable pub encode_frame : ℕ → P → List ℕ
  unfolding le16 le32
  encode_frame type payload =
      let body = c.write payload in magic ++ (le16 type ++ (le32 (length body) ++ body))

  abbrev pub parsed : ℕ → Option P → Decoded P
  parsed type none = bad_json
  parsed type (some payload) = frame type payload

  unfoldable pub decode_body : ℕ → ℕ → List ℕ → Decoded P
  decode_body type size rest =
      let body = take size rest in
      if ltb (length body) size
      then truncated
      else if size == 0
      then frame type c.empty
      else parsed type (c.read body)

  unfoldable pub decode_frame : List ℕ → Decoded P
  unfolding decode_body get16 get32
  decode_frame bytes =
      if ltb (length bytes) header_size
      then short
      else if byte_at bytes 0 == 0xa1
          && byte_at bytes 1 == 0xd1
          && byte_at bytes 2 == 0x0c
          && byte_at bytes 3 == 0x01
      then decode_body (get16 bytes 4) (get32 bytes 6) (drop header_size bytes)
      else bad_magic
