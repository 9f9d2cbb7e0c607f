-- ===== src/Types.antt =====
-- The domain types of packages/core/src/types.ts that the sync engine computes with. An optional
-- flag that the code only tests for truth is a Boolean, and its absence is `false`.
use vaultsyncforagents.Prelude.{ℕ, Bool, true, false, Option, List, Str}

pub data VersionKind : Type 0 where
  edit rename delete conflict_copy restore : VersionKind

pub VersionKind-discrete : Discrete VersionKind
VersionKind-discrete = hlevel

pub record LogicalClock : Type 0 where
  pub counter : ℕ
  pub device_id : Str

pub record Version : Type 0 where
  pub id : Str
  pub path : Str
  pub hash : Str
  pub size : ℕ
  pub device_id : Str
  pub clock : LogicalClock
  pub parent_version : Option Str
  pub ts : ℕ
  pub kind : VersionKind

pub record VaultSettings : Type 0 where
  pub obsidian_sync : Bool
  pub display_name : Str
  pub extra_ignores : List Str

-- `kind === 'delete'` and `kind === 'rename'`.
abbrev pub is_delete : VersionKind → Bool
is_delete delete = true
is_delete _ = false

abbrev pub is_rename : VersionKind → Bool
is_rename rename = true
is_rename _ = false
