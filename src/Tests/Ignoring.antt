-- ===== src/Tests/Ignoring.antt =====
-- Examples of the theorems on the ignore rules.
use vaultsyncforagents.Prelude.{◌≡◌, refl, true, [], ◌∷◌, ◌++◌, Str, ◌==◌, codes, ◌↔◌, arith}
use vaultsyncforagents.Prelude.Failure.{ok}
use vaultsyncforagents.Prelude.Strings.{split_on, join_with, includes, starts_with, replace_all}
use vaultsyncforagents.Platform.{ascii}
use vaultsyncforagents.Paths.{normalize_vault_path}
use vaultsyncforagents.Ignore.{IgnoreSettings, segments_match, segment_match, is_ignored, star}
use vaultsyncforagents.Ignore.Globs.{Globs, segments_match_iff}
use vaultsyncforagents.Ignore.Credentials.{is_ignored_credentials, segment_match_overlap}

abbrev open_settings : IgnoreSettings
open_settings = record { obsidian_sync = true; extra_ignores = [] }

abbrev plugin_data : Str
plugin_data = codes "/.obsidian/plugins/sync/Data.json"

segments_match_iff_example :
    (segments_match (codes "**" ∷ codes "a" ∷ []) (codes "b" ∷ codes "a" ∷ []) ≡ true)
    ↔ Globs (codes "**" ∷ codes "a" ∷ []) (codes "b" ∷ codes "a" ∷ [])
segments_match_iff_example =
    segments_match_iff (codes "**" ∷ codes "a" ∷ []) (codes "b" ∷ codes "a" ∷ [])

is_ignored_credentials_example : is_ignored ascii plugin_data open_settings ≡ ok true
unfolding normalize_vault_path split_on join_with includes starts_with replace_all ascii ◌==◌
is_ignored_credentials_example =
    is_ignored_credentials ascii open_settings plugin_data plugin_data refl refl refl refl
      (omega arith) refl

segment_match_overlap_example :
    (segment_match (97 ∷ star ∷ 97 ∷ []) (97 ∷ []) ≡ true)
    × ((gap : Str) → ¬ ((97 ∷ []) ≡ 97 ∷ (gap ++ (97 ∷ []))))
segment_match_overlap_example = segment_match_overlap 97 refl
