-- ===== src/Patch/Registry/Laws.antt =====
-- The map of a registry's records, after an insertion and a removal.
use local_clash.Prelude.{
  String, ◌==◌, ◌≡◌, refl, sym, ap, ◌∙◌, false, List, [], ◌∷◌, Option, none, some, if◌then◌else◌,
  arith, eq_iff, Option-cases, Bool-cases, inl, inr, some-injective,
}
use local_clash.Prelude.Dict.{Dict, lookup, insert, lookup-insert}
use local_clash.Patch.Data.{Record}
use local_clash.Patch.Registry.{by_id, by_id_onto, upsert_record, remove_record}

abbrev or_other : Option Record → Option Record → Option Record
or_other none other = other
or_other (some r) other = some r

-- The last record with an id.
last_of : String → List Record → Option Record
last_of id [] = none
last_of id (r ∷ rs) = or_other (last_of id rs) (if r.patch.patch_id == id then some r else none)

lookup-by_id_onto :
    (id : String) (rs : List Record) (out : Dict Record)
    → lookup id (by_id_onto rs out) ≡ or_other (last_of id rs) (lookup id out)
unfolding by_id_onto last_of
lookup-by_id_onto id [] out = refl
lookup-by_id_onto id (r ∷ rs) out = ground (
  arith,
  lookup-by_id_onto id rs (insert r.patch.patch_id r out),
  lookup-insert r.patch.patch_id id r out,
)

lookup-by_id : (id : String) (rs : List Record) → lookup id (by_id rs) ≡ last_of id rs
unfolding by_id lookup
lookup-by_id id rs = ground (arith, lookup-by_id_onto id rs [])

head-same_id :
    (id : String) (x r : Record)
    → (if x.patch.patch_id == id then some x else none) ≡ some r
    → r.patch.patch_id ≡ id
head-same_id id x r h = elim (Bool-cases (x.patch.patch_id == id)) [
  | inl e ↦
      let same : some x ≡ some r = ground arith in
      ap (λ (q : Record). q.patch.patch_id) (sym (some-injective _ _ same))
      ∙ (eq_iff x.patch.patch_id id).0 e
  | inr e ↦ ground arith
]

last_of-same_id :
    (id : String) (rs : List Record) (r : Record) → last_of id rs ≡ some r → r.patch.patch_id ≡ id
unfolding last_of
last_of-same_id id [] r h = cc
last_of-same_id id (x ∷ rs) r h =
    let here = if x.patch.patch_id == id then some x else none in
    elim (Option-cases (last_of id rs)) [
      | inr (y, e) ↦ last_of-same_id id rs r (e ∙ (sym (ap (λ o. or_other o here) e) ∙ h))
      | inl e ↦ head-same_id id x r (sym (ap (λ o. or_other o here) e) ∙ h)
    ]

-- The record found under an id has that id.
pub by_id-same_id :
    (id : String) (rs : List Record) (r : Record)
    → lookup id (by_id rs) ≡ some r
    → r.patch.patch_id ≡ id
by_id-same_id id rs r h = last_of-same_id id rs r (sym (lookup-by_id id rs) ∙ h)

last_of-upsert :
    (id : String) (rs : List Record) (next : Record)
    → (next.patch.patch_id == id) ≡ false
    → last_of id (upsert_record rs next) ≡ last_of id rs
unfolding last_of upsert_record
last_of-upsert id [] next h = ground arith
last_of-upsert id (r ∷ rs) next h =
    ground (arith, last_of-upsert id rs next h, eq_iff r.patch.patch_id next.patch.patch_id)

last_of-remove :
    (id gone : String) (rs : List Record)
    → (gone == id) ≡ false
    → last_of id (remove_record rs gone) ≡ last_of id rs
unfolding last_of remove_record
last_of-remove id gone [] h = refl
last_of-remove id gone (r ∷ rs) h =
    ground (arith, last_of-remove id gone rs h, eq_iff r.patch.patch_id gone)

-- An insertion changes no other id.
pub by_id-upsert :
    (id : String) (rs : List Record) (next : Record)
    → (next.patch.patch_id == id) ≡ false
    → lookup id (by_id (upsert_record rs next)) ≡ lookup id (by_id rs)
by_id-upsert id rs next h =
    lookup-by_id id (upsert_record rs next)
    ∙ (last_of-upsert id rs next h ∙ sym (lookup-by_id id rs))

-- A removal changes no other id.
pub by_id-remove :
    (id gone : String) (rs : List Record)
    → (gone == id) ≡ false
    → lookup id (by_id (remove_record rs gone)) ≡ lookup id (by_id rs)
by_id-remove id gone rs h =
    lookup-by_id id (remove_record rs gone)
    ∙ (last_of-remove id gone rs h ∙ sym (lookup-by_id id rs))
