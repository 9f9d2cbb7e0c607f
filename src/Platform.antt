-- ===== src/Platform.antt =====
-- What the code takes from the JavaScript platform's Unicode tables, as a parameter of the model:
-- `String.prototype.normalize('NFC')` and `String.prototype.toLowerCase()`.
use vaultsyncforagents.Prelude.{Str, map, ℕ, ltb, ◌&&◌, ◌+◌, if◌then◌else◌}

pub record Platform : Type 0 where
  pub nfc : Str → Str
  pub to_lower : Str → Str

-- A platform whose texts are plain ASCII: NFC leaves them alone.
lower_unit : ℕ → ℕ
lower_unit c = if ltb 64 c && ltb c 91 then c + 32 else c

unfoldable pub ascii : Platform
unfolding lower_unit
ascii = record { nfc = λ s. s; to_lower = map lower_unit }
