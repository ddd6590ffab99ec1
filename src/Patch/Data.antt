-- ===== src/Patch/Data.antt =====
-- internal/configpatch/patch.go: patches, operations and records.
-- `Record.provides`, which only reports list, is left out.
use local_clash.Prelude.{ℕ, ℤ, String, List}
use local_clash.Prelude.Dict.{Dict}
use local_clash.LocalConfig.{OverlayIntent}

pub record Patch : Type 0 where
  pub version : ℤ
  pub patch_id : String
  pub title : String
  pub source : String
  pub source_ref : String
  pub status : String
  pub order_id : String
  pub summary : String
  pub overlay : OverlayIntent

pub record Operation : Type 0 where
  pub op : String
  pub patch_id : String
  pub base_patch_sha256 : String
  pub title : String
  pub source : String
  pub source_ref : String
  pub status : String
  pub order_id : String
  pub summary : String
  pub overlay : OverlayIntent
  pub before_patch_id : String
  pub after_patch_id : String
  pub normalized_order_id : String

pub record Record : Type 0 where
  pub patch : Patch
  pub path : String
  pub sha256 : String

pub record Registry : Type 0 where
  pub dir : String
  pub records : List Record
  pub by_id : Dict Record

pub record Impact : Type 0 where
  pub enabled_before : ℕ
  pub enabled_after : ℕ
  pub patches_changed : List String
  pub patches_removed : List String

-- What the code takes from outside of the repository: the SHA-256 of a value's JSON, and
-- filepath.Join.
pub record Host : Type 0 where
  pub canonical_hash : Patch → String
  pub join_path : String → String → String

-- One constructor for each error message; the arguments are those of the message.
pub data PatchError : Type 0 where
  bad_order_id : String → PatchError
  bad_version : String → ℤ → PatchError
  bad_patch_id : String → PatchError
  bad_status bad_patch_order_id bad_source : String → String → PatchError
  duplicate_patch_id duplicate_case duplicate_order_id : String → String → PatchError
  op_missing op_unsupported : String → PatchError
  op_without_id : String → PatchError
  stale_hash : String → PatchError
  stale_absent stale_present : String → PatchError
  patch_not_found : String → PatchError
  reorder_without_place : PatchError
  no_order_space : String → String → PatchError
  cannot_allocate : String → String → PatchError
  empty_id overlay_conflict : String → PatchError
