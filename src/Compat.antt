-- ===== src/Compat.antt =====
-- The version policy: packages/core/src/compat.ts. A verdict is its case; the message texts are left
-- out.
use vaultsyncforagents.Prelude.{
  ℕ, ◌<◌, ◌≡◌, Bool, true, false, not, ◌&&◌, ◌||◌, Option, none, some, [], ◌∷◌, Str, ◌==◌, codes,
  ltb, leb, nat_eq, arith, if◌then◌else◌,
}
use vaultsyncforagents.Prelude.Strings.{trim}
use vaultsyncforagents.Decimal.{digits_value}
use vaultsyncforagents.Resolve.{Sign, before, same, after}

abbrev pub min_supported_server_version : Str
min_supported_server_version = codes "0.1.0"

pub record SemVer : Type 0 where
  pub major : ℕ
  pub minor : ℕ
  pub patch : ℕ

pub data Level : Type 0 where
  fine warn bad : Level

-- The five cases of the policy.
pub data CompatibilityVerdict : Type 0 where
  predates_reporting not_semver server_newer server_too_old works : CompatibilityVerdict

abbrev pub level_of : CompatibilityVerdict → Level
level_of predates_reporting = warn
level_of not_semver = warn
level_of server_newer = warn
level_of server_too_old = bad
level_of works = fine

abbrev is_digit : ℕ → Bool
is_digit c = leb 48 c && leb c 57

-- `[0-9A-Za-z.-]`.
abbrev is_suffix_char : ℕ → Bool
is_suffix_char c =
    is_digit c
    || ((leb 65 c && leb c 90) || ((leb 97 c && leb c 122) || (nat_eq c 46 || nat_eq c 45)))

-- The longest run of a class, and the rest.
unfoldable pub span : (ℕ → Bool) → Str → Str × Str
span p [] = ([], [])
span p (c ∷ s) = let (run, rest) = span p s in if p c then (c ∷ run, rest) else ([], c ∷ s)

-- `(\d+)`.
unfoldable pub number : Str → Option (ℕ × Str)
unfolding span digits_value
number s =
    let (digits, rest) = span is_digit s in
    if digits == [] then none else some (digits_value 0 digits, rest)

-- `\.(\d+)`.
unfoldable pub dot_number : Str → Option (ℕ × Str)
unfolding number
dot_number [] = none
dot_number (c ∷ s) = if nat_eq c 46 then number s else none

-- `(?:\+[0-9A-Za-z.-]+)?$`.
unfoldable pub is_build : Str → Bool
unfolding span
is_build [] = true
is_build (c ∷ s) =
    let (run, rest) = span is_suffix_char s in nat_eq c 43 && (not (run == []) && rest == [])

-- `(?:-[0-9A-Za-z.-]+)?` before the build.
unfoldable pub is_suffix : Str → Bool
unfolding is_build
is_suffix [] = true
is_suffix (c ∷ s) =
    let (run, rest) = span is_suffix_char s in
    if nat_eq c 45 then not (run == []) && is_build rest else is_build (c ∷ s)

abbrev drop_v : Str → Str
drop_v [] = []
drop_v (c ∷ s) = if nat_eq c 118 then s else c ∷ s

unfoldable pub parse_sem_ver : Str → Option SemVer
unfolding number dot_number is_suffix trim
parse_sem_ver raw = elim (number (drop_v (trim raw))) [
  | none ↦ none
  | some (major, after_major) ↦ elim (dot_number after_major) [
    | none ↦ none
    | some (minor, after_minor) ↦ elim (dot_number after_minor) [
      | none ↦ none
      | some (patch, rest) ↦
          if is_suffix rest
          then some (record { major = major; minor = minor; patch = patch })
          else none
    ]
  ]
]

abbrev compare_parts : ℕ → ℕ → Sign → Sign
compare_parts a b next = if not (nat_eq a b) then (if ltb a b then before else after) else next

unfoldable pub compare_sem_ver : SemVer → SemVer → Sign
compare_sem_ver a b =
    compare_parts a.major b.major
      (compare_parts a.minor b.minor (compare_parts a.patch b.patch same))

abbrev pub is_newer : Option SemVer → SemVer → Bool
is_newer none server = false
is_newer (some client) server = ltb client.major server.major || ltb client.minor server.minor

abbrev is_before : Sign → Bool
is_before before = true
is_before _ = false

abbrev below_minimum : Option SemVer → SemVer → Bool
below_minimum none server = false
below_minimum (some minimum) server = is_before (compare_sem_ver server minimum)

-- The assessment of a release that parses.
unfoldable pub assess : Option SemVer → SemVer → CompatibilityVerdict
unfolding parse_sem_ver compare_sem_ver
assess client server =
    if is_newer client server
    then server_newer
    else if below_minimum (parse_sem_ver min_supported_server_version) server
    then server_too_old
    else works

unfoldable pub check_server_compatibility : Str → Option Str → CompatibilityVerdict
unfolding assess
check_server_compatibility client_version none = predates_reporting
check_server_compatibility client_version (some server_version) =
    if server_version == [] then predates_reporting else elim (parse_sem_ver server_version) [
      | none ↦ not_semver
      | some server ↦ assess (parse_sem_ver client_version) server
    ]

-- A server of an older major release than the client's, whose minor number is larger, is reported
-- as newer than the client, although its version compares as the smaller one.
pub check_server_compatibility_older_major :
    (client_version server_version : Str) (client server : SemVer)
    → parse_sem_ver client_version ≡ some client
    → parse_sem_ver server_version ≡ some server
    → server_version == [] ≡ false
    → server.major < client.major
    → client.minor < server.minor
    → (check_server_compatibility client_version (some server_version) ≡ server_newer)
      × (compare_sem_ver server client ≡ before)
unfolding check_server_compatibility assess compare_sem_ver
check_server_compatibility_older_major client_version server_version client server c s full older
      larger =
    (rw (full, s, c) (ground (arith, larger)), ground (arith, older))
