-- ===== src/Filter/Examples.antt =====
-- The suffixes ".jpg" and ".p".
use pfs.Common.{◌≡◌, ◌↔◌, refl, true, false, List, [], ◌∷◌}
use pfs.Filter.{Filter, check_file_filter}
use pfs.Filter.Suffix.{SomeSuffix, check_file_filter_lem}

abbrev two_filters : List Filter
two_filters =
    record { strings = 46 ∷ 106 ∷ 112 ∷ 103 ∷ []; s_len = 4; type = 0 }
    ∷ record { strings = 46 ∷ 112 ∷ []; s_len = 2; type = 0 }
    ∷ []

check_file_filter_lem_example :
    ((check_file_filter false two_filters (97 ∷ 46 ∷ 112 ∷ []) ≡ 0)
      ↔ SomeSuffix two_filters (97 ∷ 46 ∷ 112 ∷ []))
    × (check_file_filter true two_filters (97 ∷ 46 ∷ 112 ∷ []) ≡ 0)
check_file_filter_lem_example =
    check_file_filter_lem two_filters (97 ∷ 46 ∷ 112 ∷ []) (refl, refl, (refl, refl, tt))
