-- ===== src/Wire/Base64.antt =====
-- Content through base64 and back.
use vaultsyncforagents.Prelude.{
  ℕ, zero, suc, ◌≤◌, ◌<◌, ◌≡◌, refl, some, [], ◌∷◌, map, length, drop, take-append-drop, All, Str,
  arith,
}
use vaultsyncforagents.Prelude.Failure.{ok}
use vaultsyncforagents.Wire.{
  Bytes, Crypto, binary_of, bytes_to_base64, base64_to_bytes, low_byte, chunk,
}

length-drop : (n : ℕ) (bytes : Bytes) → length (drop n bytes) ≤ length bytes
length-drop zero bytes = omega arith
length-drop (suc n) [] = omega arith
length-drop (suc n) (byte ∷ bytes) = omega (arith, length-drop n bytes)

-- The loop over the chunks takes every byte, once, within as many rounds as there are bytes.
binary_of-eq : (rounds : ℕ) (bytes : Bytes) → length bytes ≤ rounds → binary_of rounds bytes ≡ bytes
unfolding binary_of
binary_of-eq zero [] h = refl
binary_of-eq zero (byte ∷ bytes) h = absurd (omega arith)
binary_of-eq (suc rounds) [] h = refl
binary_of-eq (suc rounds) (byte ∷ bytes) h =
    rw (binary_of-eq rounds (drop chunk (byte ∷ bytes)) (omega (arith, length-drop 32767 bytes)))
      (take-append-drop chunk (byte ∷ bytes))

low_bytes : (bytes : Bytes) → All (λ b. b < 256) bytes → map low_byte bytes ≡ bytes
low_bytes [] all = refl
low_bytes (byte ∷ bytes) (h, all) =
    let e : low_byte byte ≡ byte = omega arith in rw (e, low_bytes bytes all)

-- Where `atob` undoes `btoa` on binary text, decoding what was encoded gives the bytes back,
-- however many chunks the encoder takes.
pub base64_to_bytes-bytes_to_base64 :
    (crypto : Crypto) (bytes : Bytes)
    → ((binary : Str) → All (λ c. c < 256) binary → crypto.atob (crypto.btoa binary) ≡ some binary)
    → All (λ b. b < 256) bytes
    → base64_to_bytes crypto (bytes_to_base64 crypto bytes) ≡ ok bytes
unfolding base64_to_bytes bytes_to_base64
base64_to_bytes-bytes_to_base64 crypto bytes undoes all = rw (
  base64_to_bytes,
  bytes_to_base64,
  binary_of-eq (length bytes) bytes (omega arith),
  undoes bytes all,
  low_bytes bytes all,
)
