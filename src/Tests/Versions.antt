-- ===== src/Tests/Versions.antt =====
-- Examples of the theorem on the version policy.
use vaultsyncforagents.Prelude.{◌≡◌, refl, some, ◌==◌, codes, arith}
use vaultsyncforagents.Prelude.Strings.{trim}
use vaultsyncforagents.Decimal.{digits_value}
use vaultsyncforagents.Resolve.{before}
use vaultsyncforagents.Compat.{
  SemVer, span, number, dot_number, is_build, is_suffix, parse_sem_ver, compare_sem_ver,
  server_newer, check_server_compatibility, check_server_compatibility_older_major,
}

abbrev client_release : SemVer
client_release = record { major = 2; minor = 0; patch = 0 }

abbrev server_release : SemVer
server_release = record { major = 1; minor = 5; patch = 0 }

client_parses : parse_sem_ver (codes " v2.0.0-rc.1+build ") ≡ some client_release
unfolding parse_sem_ver number dot_number is_suffix is_build span trim digits_value ◌==◌
client_parses = refl

server_parses : parse_sem_ver (codes "1.5.0") ≡ some server_release
unfolding parse_sem_ver number dot_number is_suffix is_build span trim digits_value ◌==◌
server_parses = refl

check_server_compatibility_older_major_example :
    (check_server_compatibility (codes " v2.0.0-rc.1+build ") (some (codes "1.5.0")) ≡ server_newer)
    × (compare_sem_ver server_release client_release ≡ before)
unfolding ◌==◌
check_server_compatibility_older_major_example =
    check_server_compatibility_older_major (codes " v2.0.0-rc.1+build ") (codes "1.5.0")
      client_release server_release client_parses server_parses refl (omega arith) (omega arith)
