-- ===== src/ConflictNames.antt =====
-- Conflict-copy file names: packages/core/src/conflictnames.ts.
pub mod Fresh
use vaultsyncforagents.Prelude.{
  ℕ, zero, suc, ◌+◌, ◌-◌, ◌*◌, ◌/◌, ◌%◌, Bool, true, false, not, ◌&&◌, ◌||◌, Option, none, some,
  List, [], ◌∷◌, ◌++◌, Str, codes, ◌==◌, ltb, leb, nat_eq, length, take, drop, filter,
  if◌then◌else◌,
}
use vaultsyncforagents.Prelude.Failure.{Result, ok, err, plain, ◌>>=◌}
use vaultsyncforagents.Prelude.Strings.{includes, last_index_of, strip, trim, is_space}
use vaultsyncforagents.Decimal.{decimal}
use vaultsyncforagents.Platform.{Platform}
use vaultsyncforagents.Paths.{slash, root, normalize_vault_path, parent_path, basename}

-- The class `[<>:"/\\|?*]` and the class `[\x00-\x1f\x7f]`.
is_illegal_filename_char : ℕ → Bool
is_illegal_filename_char c = includes c (60 ∷ 62 ∷ 58 ∷ 34 ∷ 47 ∷ 92 ∷ 124 ∷ 63 ∷ 42 ∷ [])

is_control_char : ℕ → Bool
is_control_char c = ltb c 32 || nat_eq c 127

abbrev max_device_name_length : ℕ
max_device_name_length = 30

abbrev fallback_device_name : Str
fallback_device_name = codes "unknown"

abbrev pub max_collision_suffix : ℕ
max_collision_suffix = 999

abbrev is_lead : ℕ → Bool
is_lead c = leb 0xd800 c && ltb c 0xdc00

abbrev is_trail : ℕ → Bool
is_trail c = leb 0xdc00 c && ltb c 0xe000

-- `[...s].slice(0, n).join('')`: the first `n` code points, a surrogate pair being one.
take_points : ℕ → Str → Str
take_points zero s = []
take_points (suc n) [] = []
take_points (suc n) (x ∷ []) = x ∷ []
take_points (suc n) (x ∷ y ∷ s) =
    let pair = take_points n s in
    let single = take_points n (y ∷ s) in
    if is_lead x && is_trail y then x ∷ y ∷ pair else x ∷ single

unfoldable pub sanitize_device_name : Str → Str
unfolding is_illegal_filename_char is_control_char take_points strip trim includes
sanitize_device_name name =
    let stripped = filter (λ c. not (is_illegal_filename_char c)) name in
    let cleaned = filter (λ c. not (is_control_char c)) stripped in
    let shortened = take_points max_device_name_length cleaned in
    let edged = strip (λ c. nat_eq c b'.' || is_space c) (trim shortened) in
    if edged == [] then fallback_device_name else edged

-- `String(n).padStart(2, '0')`
pad : ℕ → Str
pad n = if ltb n 10 then b'0' ∷ decimal n else decimal n

-- The UTC fields of `new Date(now)`, by the proleptic Gregorian calendar from 1970 on: the count
-- of days is taken from 1 March of year 0, in eras of 400 years.
record UtcDay : Type 0 where
  year : ℕ
  month : ℕ
  day : ℕ

utc_day : ℕ → UtcDay
utc_day days =
    let z = days + 719468 in
    let doe = z % 146097 in
    let yoe = (doe + doe / 36524 - doe / 1460 - doe / 146096) / 365 in
    let doy = doe + yoe / 100 - (365 * yoe + yoe / 4) in
    let mp = (5 * doy + 2) / 153 in
    let m = if ltb mp 10 then mp + 3 else mp - 9 in
    record {
      year = yoe + 400 * (z / 146097) + (if leb m 2 then 1 else 0);
      month = m;
      day = doy + 1 - (153 * mp + 2) / 5;
    }

-- `2026-08-20 14-23`
unfoldable pub format_conflict_stamp : ℕ → Str
unfolding pad utc_day decimal
format_conflict_stamp now =
    let d = utc_day (now / 86400000) in
    let hours = (now / 3600000) % 24 in
    let minutes = (now / 60000) % 60 in
    decimal d.year
    ++ (b'-'
        ∷ (pad d.month ++ (b'-' ∷ (pad d.day ++ (b' ' ∷ (pad hours ++ (b'-' ∷ pad minutes)))))))

-- The parts of a copy's name: the directory, the stem, the suffix with stamp and device, and the
-- extension from the last dot that does not stand first.
pub record CopyName : Type 0 where
  pub dir : Str
  pub stem : Str
  pub suffix : Str
  pub extension : Str

abbrev has_extension : Option ℕ → Bool
has_extension none = false
has_extension (some i) = ltb 0 i

abbrev index_or_zero : Option ℕ → ℕ
index_or_zero none = 0
index_or_zero (some i) = i

unfoldable pub join_dir : Str → Str → Str
join_dir dir file_name = if dir == root then slash ∷ file_name else dir ++ (slash ∷ file_name)

-- The first candidate, and the one with ` n` before the extension.
unfoldable pub base_candidate : CopyName → Str
base_candidate p = join_dir p.dir (p.stem ++ (p.suffix ++ p.extension))

unfoldable pub numbered_candidate : CopyName → ℕ → Str
numbered_candidate p n =
    join_dir p.dir (p.stem ++ (p.suffix ++ (b' ' ∷ (decimal n ++ p.extension))))

-- `for (let n = 2; n <= MAX; n++)`, with the rounds that are left.
unfoldable pub first_free : (Str → Bool) → CopyName → ℕ → ℕ → Str → Result Str
first_free exists p zero n candidate = err plain
first_free exists p (suc rounds) n candidate =
    let rest = first_free exists p rounds (n + 1) (numbered_candidate p n) in
    if not (exists candidate) then ok candidate else rest

unfoldable pub copy_name : Platform → Str → Str → ℕ → Result CopyName
copy_name u path device_name now = do
  normalized ← normalize_vault_path u path
  dir ← parent_path u normalized
  name ← basename u normalized
  let last_dot = last_index_of b'.' name
  let split = has_extension last_dot
  ok (record {
    dir = dir;
    stem = if split then take (index_or_zero last_dot) name else name;
    suffix =
        codes " (conflict "
        ++ (format_conflict_stamp now
            ++ (codes " - from " ++ (sanitize_device_name device_name ++ codes ")")));
    extension = if split then drop (index_or_zero last_dot) name else [];
  })

unfoldable pub conflict_copy_path : Platform → Str → Str → ℕ → (Str → Bool) → Result Str
conflict_copy_path u path device_name now exists = do
  p ← copy_name u path device_name now
  first_free exists p (max_collision_suffix - 1) 2 (base_candidate p)
