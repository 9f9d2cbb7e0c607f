-- ===== src/Arbitrate/State.antt =====
-- The state, the commits and the verdicts of packages/core/src/server/arbitrate.ts, with the small
-- helpers that build versions, rows and payloads.
use vaultsyncforagents.Prelude.{
  ℕ, ◌+◌, Bool, true, false, ◌||◌, Option, none, some, [], ◌∷◌, Str, ◌==◌, if◌then◌else◌, ◌≡◌, refl,
}
use vaultsyncforagents.Prelude.Dict.{Dict, insert, size}
use vaultsyncforagents.Decimal.{decimal}
use vaultsyncforagents.Types.{VersionKind, LogicalClock, Version, conflict_copy, is_delete}
use vaultsyncforagents.Clock.{next_clock}

-- One path's row.
pub record ArbitrationFileState : Type 0 where
  pub current_version : Str
  pub head : Version
  pub deleted : Bool
  pub is_folder : Bool

pub record ArbitrationState : Type 0 where
  pub files : Dict ArbitrationFileState
  pub versions : Dict Version

abbrev pub empty_arbitration_state : ArbitrationState
empty_arbitration_state = record { files = []; versions = [] }

pub record ArbitrationCommit : Type 0 where
  pub path : Str
  pub parent_version : Option Str
  pub hash : Str
  pub size : ℕ
  pub kind : VersionKind
  pub from_path : Option Str
  pub is_folder : Bool

pub data LoserDisposition : Type 0 where
  kept_as_copy : LoserDisposition

pub data Verdict : Type 0 where
  applied conflict : Verdict

-- A `ChangePayload` of packages/core/src/protocol.ts.
pub record ChangePayload : Type 0 where
  pub path : Str
  pub version : Str
  pub hash : Str
  pub size : ℕ
  pub deleted : Bool
  pub device : Str
  pub clock : LogicalClock
  pub kind : VersionKind
  pub is_folder : Bool
  pub from_path : Option Str

-- A version with the folder flag of its row: `ConflictWinner`.
pub record ConflictWinner : Type 0 where
  pub version : Version
  pub is_folder : Bool

pub record ArbitrationOutcome : Type 0 where
  pub result : Verdict
  pub winner : ConflictWinner
  pub loser_disposition : LoserDisposition
  pub new_version_id : Str
  pub clock : LogicalClock
  pub broadcast : ChangePayload
  pub conflict_copy : Option ChangePayload
  pub conflict_copy_path : Option Str

pub record ArbitrationVerdict : Type 0 where
  pub outcome : ArbitrationOutcome
  pub state : ArbitrationState

unfoldable pub payload_of : Version → Bool → Option Str → ChangePayload
payload_of version is_folder from_path = record {
  path = version.path;
  version = version.id;
  hash = version.hash;
  size = version.size;
  deleted = is_delete version.kind;
  device = version.device_id;
  clock = version.clock;
  kind = version.kind;
  is_folder = is_folder;
  from_path = from_path;
}

-- The id of the `n + 1`-st version, and the next id to mint.
unfoldable pub version_id : ℕ → Str
version_id n = b'v' ∷ decimal (n + 1)

unfoldable pub mint_id : ArbitrationState → Str
mint_id st = version_id (size st.versions)

-- `versions.set(id, version)` and `files.set(version.path, row)`.
unfoldable pub install : ArbitrationState → Version → Bool → Bool → ArbitrationState
install st version deleted is_folder = record {
  files =
      insert version.path
        (record {
          current_version = version.id;
          head = version;
          deleted = deleted;
          is_folder = is_folder;
        })
        st.files;
  versions = insert version.id version st.versions;
}

-- The version that a commit becomes, at the clock that it is given.
unfoldable pub version_of : ArbitrationState → ArbitrationCommit → Str → ℕ → LogicalClock → Version
version_of st commit device_id now clock = record {
  id = mint_id st;
  path = commit.path;
  hash = commit.hash;
  size = commit.size;
  device_id = device_id;
  clock = clock;
  parent_version = commit.parent_version;
  ts = now;
  kind = commit.kind;
}

-- The outcome that a version without a conflict copy has.
unfoldable pub outcome_of : Verdict → Version → Bool → Option Str → ArbitrationOutcome
outcome_of result version is_folder from_path = record {
  result = result;
  winner = record { version = version; is_folder = is_folder };
  loser_disposition = kept_as_copy;
  new_version_id = version.id;
  clock = version.clock;
  broadcast = payload_of version is_folder from_path;
  conflict_copy = none;
  conflict_copy_path = none;
}

pub record LoserSide : Type 0 where
  pub hash : Str
  pub size : ℕ
  pub deleted : Bool
  pub is_folder : Bool
  pub device_id : Str

pub record PreservationContext : Type 0 where
  pub parent_id : Str
  pub base_clock : LogicalClock
  pub winner_hash : Str
  pub ancestor_hash : Option Str

-- `ancestorHash !== undefined && hash === ancestorHash`, and `head.id === parentVersion`.
abbrev pub is_just : Str → Option Str → Bool
is_just s none = false
is_just s (some t) = s == t

unfoldable pub needs_copy : LoserSide → PreservationContext → Bool
needs_copy loser context =
    if loser.deleted
    then false
    else if loser.is_folder || loser.hash == []
    then false
    else if loser.hash == context.winner_hash
    then false
    else if is_just loser.hash context.ancestor_hash
    then false
    else true

-- What is kept of a losing head, and of a losing commit.
unfoldable pub loser_head : ArbitrationFileState → LoserSide
loser_head file = record {
  hash = file.head.hash;
  size = file.head.size;
  deleted = file.deleted;
  is_folder = file.is_folder;
  device_id = file.head.device_id;
}

unfoldable pub loser_commit : ArbitrationCommit → Str → LoserSide
loser_commit commit device_id = record {
  hash = commit.hash;
  size = commit.size;
  deleted = is_delete commit.kind;
  is_folder = commit.is_folder;
  device_id = device_id;
}

abbrev pub hash_of : Option Version → Option Str
hash_of none = none
hash_of (some v) = some v.hash

abbrev pub clock_of : Option Version → Option LogicalClock
clock_of none = none
clock_of (some v) = some v.clock

-- The version of a conflict copy.
unfoldable pub copy_version : ArbitrationState → LoserSide → PreservationContext → ℕ → Str → Version
copy_version st loser context now copy_path = record {
  id = mint_id st;
  path = copy_path;
  hash = loser.hash;
  size = loser.size;
  device_id = loser.device_id;
  clock = next_clock (some context.base_clock) loser.device_id;
  parent_version = some context.parent_id;
  ts = now;
  kind = conflict_copy;
}

unfoldable pub with_copy : ArbitrationVerdict → Option ChangePayload → ArbitrationVerdict
with_copy verdict none = verdict
with_copy verdict (some copy) = record verdict {
  outcome = record (verdict.outcome) {
    conflict_copy = some copy;
    conflict_copy_path = some (copy.path);
  };
}

pub state-with_copy :
    (verdict : ArbitrationVerdict) (copy : Option ChangePayload)
    → (with_copy verdict copy).state ≡ verdict.state
unfolding with_copy
state-with_copy verdict none = refl
state-with_copy verdict (some copy) = refl

pub result-with_copy :
    (verdict : ArbitrationVerdict) (copy : Option ChangePayload)
    → (with_copy verdict copy).outcome.result ≡ verdict.outcome.result
unfolding with_copy
result-with_copy verdict none = refl
result-with_copy verdict (some copy) = refl

pub new_version_id-with_copy :
    (verdict : ArbitrationVerdict) (copy : Option ChangePayload)
    → (with_copy verdict copy).outcome.new_version_id ≡ verdict.outcome.new_version_id
unfolding with_copy
new_version_id-with_copy verdict none = refl
new_version_id-with_copy verdict (some copy) = refl
