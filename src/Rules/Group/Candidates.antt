-- ===== src/Rules/Group/Candidates.antt =====
-- The candidates of a proxy group: `candidateProxies` against a plain description.
use local_clash.Prelude.{
  String, ◌≡◌, refl, Bool, true, ◌&&◌, not, List, [], ◌∷◌, eq_iff, eq_refl, arith, map,
}
use local_clash.Prelude.Text.{is_blank, trim_space}
use local_clash.Prelude.Dict.{Dict, insert, has_key, has_key-insert, elem}
use local_clash.Rules.Data.{ProxyGroup}
use local_clash.Rules.Group.{candidates_from, candidate_proxies}

-- A text is among the candidates exactly when it is the trimmed name of some node, is not blank
-- and was not seen before.
elem-candidates_from :
    (x : String) (nodes : List String) (seen : Dict Bool)
    → elem x (candidates_from nodes seen)
      ≡ (elem x (map trim_space nodes) && not (is_blank x) && not (has_key x seen))
unfolding elem candidates_from
elem-candidates_from x [] seen = refl
elem-candidates_from x (raw ∷ nodes) seen = ground (
  arith,
  eq_iff (trim_space raw) x,
  elem-candidates_from x nodes seen,
  elem-candidates_from x nodes (insert (trim_space raw) true seen),
  has_key-insert (trim_space raw) x true seen,
)

elem-candidate_proxies :
    (x : String) (g : ProxyGroup)
    → elem x (candidate_proxies g) ≡ (elem x (map trim_space g.nodes) && not (is_blank x))
unfolding candidate_proxies has_key
elem-candidate_proxies x g = ground (arith, elem-candidates_from x g.nodes [])

-- no text occurs twice
abbrev pub distinct : List String → Bool
distinct [] = true
distinct (x ∷ xs) = not (elem x xs) && distinct xs

distinct-candidates_from :
    (nodes : List String) (seen : Dict Bool) → distinct (candidates_from nodes seen) ≡ true
unfolding candidates_from
distinct-candidates_from [] seen = refl
distinct-candidates_from (raw ∷ nodes) seen = ground (
  arith,
  distinct-candidates_from nodes seen,
  distinct-candidates_from nodes (insert (trim_space raw) true seen),
  elem-candidates_from (trim_space raw) nodes (insert (trim_space raw) true seen),
  has_key-insert (trim_space raw) (trim_space raw) true seen,
  eq_refl (trim_space raw),
)

-- A text is a candidate of a proxy group exactly when it is the trimmed name of one of its nodes and
-- is not blank, and no candidate occurs twice.
pub candidate_proxies_lem :
    (x : String) (g : ProxyGroup)
    → (elem x (candidate_proxies g) ≡ (elem x (map trim_space g.nodes) && not (is_blank x)))
      × (distinct (candidate_proxies g) ≡ true)
candidate_proxies_lem x g =
    (elem-candidate_proxies x g, unfold candidate_proxies in distinct-candidates_from g.nodes [])
