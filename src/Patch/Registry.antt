-- ===== src/Patch/Registry.antt =====
-- internal/configpatch/patch.go: the records of a registry, and which of them are valid.
-- The check of a record's file name is left out: it compares names only where files are read.
pub mod Laws
pub mod Order
use Prim.Native.Char.{Char, code}
use local_clash.Prelude.{
  ℕ, zero, suc, ◌+◌, ◌/◌, ◌-◌, ℤ, pos, negsuc, ltb, leb, nat_eq, String, ◌==◌, Bool, true, false,
  not, ◌&&◌, ◌||◌, List, [], ◌∷◌, ◌++◌, ◌<>◌, Option, none, some, is_some, if◌then◌else◌, Result,
  ok, err, ◌>>=◌, ◌>>◌, guard,
}
use local_clash.Prelude.Text.{Unicode, is_blank, trim_space, contains, contains_any, to_lower}
use local_clash.Prelude.Dict.{Dict, lookup, insert, has_key}
use local_clash.Patch.Data.{
  Patch, Record, PatchError, bad_version, bad_patch_id, bad_status, bad_patch_order_id, bad_source,
  duplicate_patch_id, duplicate_case, duplicate_order_id, patch_not_found, reorder_without_place,
  no_order_space, bad_order_id, cannot_allocate,
}
use local_clash.Patch.OrderId.{valid_order_id, parse_order_id, format_order_id}

abbrev pub status_enabled : String
status_enabled = "enabled"

abbrev pub status_disabled : String
status_disabled = "disabled"

abbrev pub status_tombstoned : String
status_tombstoned = "tombstoned"

abbrev pub source_user : String
source_user = "user"

abbrev pub source_policy_template : String
source_policy_template = "policy_template"

unfoldable pub by_id_onto : List Record → Dict Record → Dict Record
unfolding insert
by_id_onto [] out = out
by_id_onto (entry ∷ records) out = by_id_onto records (insert entry.patch.patch_id entry out)

unfoldable pub by_id : List Record → Dict Record
unfolding by_id_onto
by_id records = by_id_onto records []

unfoldable pub upsert_record : List Record → Record → List Record
upsert_record [] next = next ∷ []
upsert_record (entry ∷ records) next =
    if entry.patch.patch_id == next.patch.patch_id
    then next ∷ records
    else entry ∷ upsert_record records next

unfoldable pub remove_record : List Record → String → List Record
remove_record [] patch_id = []
remove_record (entry ∷ records) patch_id =
    let out = remove_record records patch_id in
    if not (entry.patch.patch_id == patch_id) then entry ∷ out else out

unfoldable pub enabled_count : List Record → ℕ
enabled_count [] = 0
enabled_count (entry ∷ records) =
    let count = enabled_count records in
    if entry.patch.status == status_enabled then suc count else count

-- the first value that is not blank, trimmed
unfoldable pub first_non_empty : List String → String
unfolding trim_space
first_non_empty [] = ""
first_non_empty (value ∷ values) =
    if is_blank (trim_space value) then first_non_empty values else trim_space value

abbrev is_zero : ℤ → Bool
is_zero (pos zero) = true
is_zero (pos (suc n)) = false
is_zero (negsuc n) = false

-- `Version == PatchVersion`
abbrev pub is_patch_version : ℤ → Bool
is_patch_version (pos zero) = false
is_patch_version (pos (suc n)) = nat_eq n 0
is_patch_version (negsuc n) = false

unfoldable pub normalize_patch : Patch → Patch
unfolding trim_space first_non_empty
normalize_patch patch =
    let patch_id = trim_space patch.patch_id in
    let title = trim_space patch.title in
    record {
      version = if is_zero patch.version then pos 1 else patch.version;
      patch_id = patch_id;
      title = if is_blank title then patch_id else title;
      source = first_non_empty (patch.source ∷ source_user ∷ []);
      source_ref = trim_space patch.source_ref;
      status = first_non_empty (patch.status ∷ status_enabled ∷ []);
      order_id = trim_space patch.order_id;
      summary = trim_space patch.summary;
      overlay = patch.overlay;
    }

abbrev between : ℕ → ℕ → ℕ → Bool
between low high n = leb low n && leb n high

-- a character outside of patchIDPattern's `[A-Za-z0-9._-]`
abbrev is_bad : Char → Bool
is_bad c =
    let n = code c in
    not (
      between 65 90 n
      || between 97 122 n
      || between 48 57 n
      || nat_eq n 46
      || nat_eq n 95
      || nat_eq n 45)

abbrev is_slash : Char → Bool
is_slash c = nat_eq (code c) 47 || nat_eq (code c) 92

unfoldable pub valid_patch_id : String → Bool
unfolding trim_space contains contains_any
valid_patch_id id =
    let id = trim_space id in
    not (is_blank id || contains id ".." || contains_any is_slash id)
    && not (is_blank id)
    && not (contains_any is_bad id)

unfoldable pub valid_status : String → Bool
valid_status status =
    status == status_enabled || status == status_disabled || status == status_tombstoned

unfoldable pub validate_patch : Patch → Result PatchError (Unit {0})
unfolding valid_patch_id valid_status valid_order_id contains
validate_patch patch = do
  guard (is_patch_version patch.version) (bad_version patch.patch_id patch.version)
  guard (valid_patch_id patch.patch_id) (bad_patch_id patch.patch_id)
  guard (valid_status patch.status) (bad_status patch.patch_id patch.status)
  guard (valid_order_id patch.order_id) (bad_patch_order_id patch.patch_id patch.order_id)
  guard (not (contains patch.source "/" || contains patch.source "\\"))
      (bad_source patch.patch_id patch.source)

-- the maps of `validateRecords`
pub record Seen : Type 0 where
  pub ids : Dict String
  pub lower_ids : Dict String
  pub order_ids : Dict String

abbrev pub is_other : Option String → String → Bool
is_other none id = false
is_other (some other) id = not (other == id)

module _ ⦃u : Unicode⦄ where
  -- one round of the loop of `validateRecords`
  unfoldable pub check_record : Record → Seen → Result PatchError Seen
  unfolding normalize_patch validate_patch has_key lookup insert to_lower
  check_record r seen =
      let patch = normalize_patch r.patch in
      let lower = to_lower patch.patch_id in
      let tombstoned = patch.status == status_tombstoned in
      do
        validate_patch patch
        guard (not (has_key patch.patch_id seen.ids)) (duplicate_patch_id patch.patch_id r.path)
        guard (not (is_other (lookup lower seen.lower_ids) patch.patch_id))
            (duplicate_case lower patch.patch_id)
        guard (tombstoned || not (has_key patch.order_id seen.order_ids))
            (duplicate_order_id patch.order_id patch.patch_id)
        ok record {
          ids = insert patch.patch_id r.path seen.ids;
          lower_ids = insert lower patch.patch_id seen.lower_ids;
          order_ids =
              if tombstoned
              then seen.order_ids
              else insert patch.order_id patch.patch_id seen.order_ids;
        }

  unfoldable pub check_records : List Record → Seen → Result PatchError (Unit {0})
  unfolding check_record
  check_records [] seen = ok tt
  check_records (r ∷ records) seen = check_record r seen >>= λ seen'. check_records records seen'

  -- validateRecords with `checkFilenames` off
  unfoldable pub validate_records : List Record → Result PatchError (Unit {0})
  unfolding check_records
  validate_records records =
      check_records records record { ids = []; lower_ids = []; order_ids = [] }

-- parseOrderID's error, in the words of its callers
abbrev pub in_registry : Result String ℕ → Result PatchError ℕ
in_registry (ok value) = ok value
in_registry (err order_id) = err (bad_order_id order_id)

abbrev pub allocated : String → Result String ℕ → Result PatchError ℕ
allocated patch_id (ok value) = ok value
allocated patch_id (err order_id) = err (cannot_allocate patch_id order_id)

unfoldable pub order_of : Option Record → PatchError → Result PatchError ℕ
unfolding parse_order_id
order_of none missing = err missing
order_of (some r) missing = in_registry (parse_order_id r.patch.order_id)

-- high - low <= 1, where `low` is -1 without an `after_patch_id`
unfoldable pub midpoint : Option ℕ → ℕ → PatchError → Result PatchError String
unfolding format_order_id
midpoint none high full = guard (not (leb high 0)) full >> ok (format_order_id ((high - 1) / 2))
midpoint (some low) high full =
    guard (not (leb high (low + 1))) full >> ok (format_order_id ((low + high) / 2))

-- `low`, which is -1 without an `after_patch_id`
abbrev pub low_end : String → Option Record → Result PatchError (Option ℕ)
low_end id found =
    if is_blank id
    then ok none
    else (order_of found (patch_not_found id) >>= λ value. ok (some value))

abbrev pub high_end : String → Option Record → Result PatchError ℕ
high_end id found = if is_blank id then ok 10000000 else order_of found (patch_not_found id)

unfoldable pub midpoint_order_id : Dict Record → String → String → Result PatchError String
unfolding trim_space lookup
midpoint_order_id records after_patch_id before_patch_id =
    let after = trim_space after_patch_id in
    let before = trim_space before_patch_id in
    do
      guard (not (is_blank after && is_blank before)) reorder_without_place
      low ← low_end after (lookup after records)
      high ← high_end before (lookup before records)
      midpoint low high (no_order_space after before)

-- the loop of `nextUserOrderID`
unfoldable pub max_order : List Record → ℕ → Result PatchError ℕ
unfolding parse_order_id
max_order [] max = ok max
max_order (r ∷ records) max =
    let later = max_order records in
    if r.patch.status == status_tombstoned
    then later max
    else (allocated r.patch.patch_id (parse_order_id r.patch.order_id) >>= λ value.
        later (if ltb max value then value else max))

unfoldable pub next_user_order_id : List Record → Result PatchError String
unfolding max_order format_order_id
next_user_order_id records =
    max_order records 999000000 >>= λ max. ok (format_order_id (max + 1000000))
