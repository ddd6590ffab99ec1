-- ===== src/Patch/Preview/Valid.antt =====
-- The records that a preview leaves are valid as a whole.
use local_clash.Prelude.{
  String, ◌==◌, ◌≡◌, sym, subst, Bool, true, false, not, ◌||◌, List, [], ◌∷◌, All, All-map,
  if◌then◌else◌, ok, >>=-eq-ok, guard-eq-ok, ok_inj, arith,
}
use local_clash.Prelude.Text.{Unicode, to_lower}
use local_clash.Prelude.Dict.{Dict, lookup, insert, has_key, lookup-insert, has_key-insert}
use local_clash.Patch.Data.{
  Patch, Record, Registry, Operation, Host, Impact, duplicate_patch_id, duplicate_case,
  duplicate_order_id,
}
use local_clash.Patch.Registry.{
  Seen, check_record, check_records, validate_records, validate_patch, normalize_patch, is_other,
  status_tombstoned,
}
use local_clash.Patch.Preview.{Draft, preview_from, preview_operations, draft_of, impact_of}

absent-insert :
    (i j v : String) (m : Dict String)
    → has_key j (insert i v m) ≡ false
    → ((i == j) ≡ false) × (has_key j m ≡ false)
absent-insert i j v m h = ground (arith, has_key-insert i j v m)

same_case-insert :
    (i j a b : String) (m : Dict String)
    → (a == b) ≡ false
    → is_other (lookup j (insert i a m)) b ≡ false
    → ((i == j) ≡ false) × (is_other (lookup j m) b ≡ false)
same_case-insert i j a b m e h = ground (arith, lookup-insert i j a m)

unused-insert :
    (gone_r gone_q : Bool) (i j v : String) (m : Dict String)
    → (gone_q || not (has_key j (if gone_r then m else insert i v m))) ≡ true
    → ((gone_r || gone_q || not (i == j)) ≡ true) × ((gone_q || not (has_key j m)) ≡ true)
unused-insert gone_r gone_q i j v m h = ground (arith, has_key-insert i j v m)

module _ ⦃u : Unicode⦄ where
  unfoldable pub normal : Record → Patch
  unfolding normalize_patch
  normal r = normalize_patch r.patch

  unfoldable pub is_gone : Record → Bool
  unfolding normal
  is_gone r = (normal r).status == status_tombstoned

  -- Two records that may stand in one registry: their ids differ, also in lower case, and so do
  -- their order ids unless one of them is tombstoned.
  unfoldable pub Apart : Record → Record → Type 0
  unfolding normal is_gone to_lower
  Apart r q =
      (((normal r).patch_id == (normal q).patch_id) ≡ false)
      × ((to_lower (normal r).patch_id == to_lower (normal q).patch_id) ≡ false)
      × ((is_gone r || is_gone q || not ((normal r).order_id == (normal q).order_id)) ≡ true)

  unfoldable pub RecordsOk : List Record → Type 0
  unfolding normal Apart
  RecordsOk [] = Unit
  RecordsOk (r ∷ rs) = (validate_patch (normal r) ≡ ok tt) × All (Apart r) rs × RecordsOk rs

  -- A record that none of the maps knows.
  abbrev Fresh : Seen → Record → Type 0
  unfolding normal is_gone to_lower
  Fresh seen q =
      (has_key (normal q).patch_id seen.ids ≡ false)
      × (is_other (lookup (to_lower (normal q).patch_id) seen.lower_ids) (normal q).patch_id
          ≡ false)
      × ((is_gone q || not (has_key (normal q).order_id seen.order_ids)) ≡ true)

  abbrev seen_with : Record → Seen → Seen
  unfolding normal is_gone to_lower insert
  seen_with r seen =
      let patch = normal r in
      record {
        ids = insert patch.patch_id r.path seen.ids;
        lower_ids = insert (to_lower patch.patch_id) patch.patch_id seen.lower_ids;
        order_ids =
            if is_gone r
            then seen.order_ids
            else insert patch.order_id patch.patch_id seen.order_ids;
      }

  check_record-eq-ok :
      (r : Record) (seen seen' : Seen)
      → check_record r seen ≡ ok seen'
      → (validate_patch (normal r) ≡ ok tt) × Fresh seen r × (seen_with r seen ≡ seen')
  unfolding check_record normal is_gone seen_with Fresh
  check_record-eq-ok r seen seen' h =
      let patch = normal r in
      let lower = to_lower patch.patch_id in
      let (done, valid, h₁) = >>=-eq-ok (validate_patch patch) _ h in
      let (new_id, h₂) =
        guard-eq-ok (not (has_key patch.patch_id seen.ids))
          (duplicate_patch_id patch.patch_id r.path) _ h₁ in
      let (new_case, h₃) =
        guard-eq-ok (not (is_other (lookup lower seen.lower_ids) patch.patch_id))
          (duplicate_case lower patch.patch_id) _ h₂ in
      let (new_order, h₄) =
        guard-eq-ok (is_gone r || not (has_key patch.order_id seen.order_ids))
          (duplicate_order_id patch.order_id patch.patch_id) _ h₃ in
      (valid, (ground arith, ground arith, new_order), ok_inj h₄)

  Fresh-seen_with :
      (r q : Record) (seen : Seen) → Fresh (seen_with r seen) q → Apart r q × Fresh seen q
  unfolding Fresh seen_with Apart normal is_gone
  Fresh-seen_with r q seen h =
      let a = normal r in
      let b = normal q in
      let (ids, old_ids) = absent-insert a.patch_id b.patch_id r.path seen.ids h.0 in
      let (lower, old_lower) =
        same_case-insert (to_lower a.patch_id) (to_lower b.patch_id) a.patch_id b.patch_id
          seen.lower_ids ids h.1 in
      let (orders, old_orders) =
        unused-insert (is_gone r) (is_gone q) a.order_id b.order_id a.patch_id seen.order_ids h.2 in
      ((ids, lower, orders), (old_ids, old_lower, old_orders))

  check_records-Fresh :
      (rs : List Record) (seen : Seen)
      → check_records rs seen ≡ ok tt
      → All (Fresh seen) rs × RecordsOk rs
  unfolding check_records RecordsOk
  check_records-Fresh [] seen h = (tt, tt)
  check_records-Fresh (r ∷ rs) seen h =
      let (seen', step, rest) = >>=-eq-ok (check_record r seen) (λ s. check_records rs s) h in
      let (valid, fresh, same) = check_record-eq-ok r seen seen' step in
      let (later, good) = check_records-Fresh rs seen' rest in
      let after = subst (λ s. All (Fresh s) rs) (sym same) later in
      (
        (
          fresh,
          All-map (Fresh (seen_with r seen)) (Fresh seen) rs (λ q k. (Fresh-seen_with r q seen k).1)
              after,
        ),
        (
          valid,
          All-map (Fresh (seen_with r seen)) (Apart r) rs (λ q k. (Fresh-seen_with r q seen k).0)
              after,
          good,
        ),
      )

  validate_records-RecordsOk : (rs : List Record) → validate_records rs ≡ ok tt → RecordsOk rs
  unfolding validate_records
  validate_records-RecordsOk rs h = (check_records-Fresh rs _ h).1

  module _ ⦃host : Host⦄ where
    -- The records after a preview that succeeds are valid patches with distinct ids, also in lower
    -- case, and with distinct order ids except for those that are tombstoned.
    pub preview_operations-RecordsOk :
        (registry : Registry) (ops : List Operation) (draft : Draft) (impact : Impact)
        → preview_operations registry ops ≡ ok (draft, impact)
        → RecordsOk draft.records
    unfolding preview_operations
    preview_operations-RecordsOk registry ops draft impact h =
        let (d, run, h₁) = >>=-eq-ok (preview_from registry.dir ops (draft_of registry)) _ h in
        let (checked, valid, h₂) =
          >>=-eq-ok (validate_records d.records) (λ _. ok (d, impact_of registry.records d)) h₁ in
        subst (λ (r : Draft × Impact). RecordsOk r.0.records) (ok_inj h₂)
          (validate_records-RecordsOk d.records valid)
