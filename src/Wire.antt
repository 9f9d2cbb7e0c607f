-- ===== src/Wire.antt =====
-- How content crosses the wire: packages/core/src/hashing.ts, and the base64 functions of
-- packages/core/src/protocol.ts. The digest of Web Crypto, `atob` and `btoa` are parameters.
pub mod Base64
use vaultsyncforagents.Prelude.{
  ℕ, zero, suc, ◌+◌, ◌/◌, ◌%◌, Option, none, some, List, [], ◌∷◌, ◌++◌, map, length, take, drop,
  Str, ltb, if◌then◌else◌,
}
use vaultsyncforagents.Prelude.Failure.{Result, ok, err, protocol}

abbrev pub Bytes : Type 0
Bytes = List ℕ

pub record Crypto : Type 0 where
  pub digest : Bytes → Bytes
  pub atob : Str → Option Str
  pub btoa : Str → Str

abbrev pub inline_content_max_bytes : ℕ
inline_content_max_bytes = 262144

abbrev chunk : ℕ
chunk = 32768

hex_digit : ℕ → ℕ
hex_digit n = if ltb n 10 then 48 + n else 87 + n

-- A byte has two digits, a leading zero included.
unfoldable pub to_hex : Bytes → Str
unfolding hex_digit
to_hex [] = []
to_hex (byte ∷ bytes) = hex_digit (byte / 16) ∷ hex_digit (byte % 16) ∷ to_hex bytes

unfoldable pub sha256_hex : Crypto → Bytes → Str
unfolding to_hex
sha256_hex crypto bytes = to_hex (crypto.digest bytes)

-- The loop that collects the binary text chunk by chunk, on a number of rounds.
unfoldable pub binary_of : ℕ → Bytes → Str
binary_of zero bytes = []
binary_of (suc rounds) [] = []
binary_of (suc rounds) (byte ∷ bytes) =
    take chunk (byte ∷ bytes) ++ binary_of rounds (drop chunk (byte ∷ bytes))

unfoldable pub bytes_to_base64 : Crypto → Bytes → Str
unfolding binary_of
bytes_to_base64 crypto bytes = crypto.btoa (binary_of (length bytes) bytes)

-- A unit that is written to a `Uint8Array` is taken modulo 256.
abbrev low_byte : ℕ → ℕ
low_byte c = c % 256

unfoldable pub base64_to_bytes : Crypto → Str → Result Bytes
base64_to_bytes crypto encoded = elim (crypto.atob encoded) [
  | none ↦ err protocol
  | some binary ↦ ok (map low_byte binary)
]
