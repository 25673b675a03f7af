-- ===== src/Rdap/Conformance.antt =====
-- internal/rdap/rdap.go: the rdapConformance arrays.
pub mod Laws
use go_rdap_server.Base.{
  Bool, true, false, not, ◌&&◌, ◌||◌, List, [], ◌∷◌, ◌++◌, if◌then◌else◌, GoString, str, str_eq,
}
use go_rdap_server.Rdap.Models.{Conformance}

unfoldable pub new_conformance : Conformance
new_conformance = record { conformance = str "rdap_level_0" ∷ [] }

unfoldable pub new_conformance_2019 : Conformance
new_conformance_2019 = record {
  conformance =
      str "rdap_level_0"
      ∷ str "icann_rdap_technical_implementation_guide_0"
      ∷ str "icann_rdap_response_profile_0"
      ∷ [];
}

unfoldable pub new_conformance_2024 : Conformance
new_conformance_2024 = record {
  conformance =
      str "rdap_level_0"
      ∷ str "icann_rdap_technical_implementation_guide_0"
      ∷ str "icann_rdap_response_profile_0"
      ∷ str "icann_rdap_technical_implementation_guide_1"
      ∷ str "icann_rdap_response_profile_1"
      ∷ [];
}

-- seen[id]
unfoldable pub seen : GoString → List GoString → Bool
seen id [] = false
seen id (x ∷ xs) = str_eq x id || seen id xs

-- The second loop: what `seen` maps to true is the array so far.
unfoldable pub add_extensions : List GoString → List GoString → List GoString
unfolding seen
add_extensions ids [] = ids
add_extensions ids (id ∷ more) =
    add_extensions (if not (str_eq id []) && not (seen id ids) then ids ++ id ∷ [] else ids) more

unfoldable pub with_extensions : Conformance → List GoString → Conformance
unfolding add_extensions
with_extensions c ext_ids = record { conformance = add_extensions c.conformance ext_ids }
