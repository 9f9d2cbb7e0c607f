-- ===== src/Arbitrate/Safety.antt =====
-- `pathSafetyViolation`: the admission gate in front of the arbitration.
use vaultsyncforagents.Prelude.{
  Bool, true, false, not, ◌||◌, Option, none, some, Str, [], ◌∷◌, ◌==◌, if◌then◌else◌,
}
use vaultsyncforagents.Prelude.Dict.{Dict, lookup}
use vaultsyncforagents.Platform.{Platform}
use vaultsyncforagents.Paths.{is_nfc_path, fold_key_for_path}
use vaultsyncforagents.Arbitrate.State.{ArbitrationFileState, is_just}

pub data Violation : Type 0 where
  protocol_violation path_collides : Violation

abbrev from_path_is_nfc : Platform → Option Str → Bool
from_path_is_nfc u none = true
from_path_is_nfc u (some from) = is_nfc_path u from

abbrev creates_new_live_path : Option ArbitrationFileState → Bool
creates_new_live_path none = true
creates_new_live_path (some row) = row.deleted

-- Whether a row stands in the way of a new live path: live, another name, the same fold key.
unfoldable pub collides : Platform → Str → Option Str → Str → ArbitrationFileState → Bool
collides u commit_path from_path path row =
    if row.deleted
    then false
    else if path == commit_path || is_just path from_path
    then false
    else fold_key_for_path u path == fold_key_for_path u commit_path

unfoldable pub any_collides : Platform → Str → Option Str → Dict ArbitrationFileState → Bool
any_collides u commit_path from_path [] = false
any_collides u commit_path from_path ((path, row) ∷ rest) =
    collides u commit_path from_path path row || any_collides u commit_path from_path rest

unfoldable pub path_safety_violation :
    Platform → Dict ArbitrationFileState → Str → Option Str → Option Violation
path_safety_violation u files path from_path =
    if not (is_nfc_path u path)
    then some protocol_violation
    else if not (from_path_is_nfc u from_path)
    then some protocol_violation
    else if not (creates_new_live_path (lookup path files))
    then none
    else if any_collides u path from_path files
    then some path_collides
    else none
