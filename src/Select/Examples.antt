-- ===== src/Select/Examples.antt =====
-- Three servers, of which the one whose turn it is is online.
use pfs.Common.{ℕ, ◌+◌, ◌<◌, ◌≡◌, ◌↔◌, Bool, true, false, none, some, not, ◌==◌, negsuc}
use pfs.Select.{Domain, get_valid_ip_4_up}
use pfs.Select.Turns.{Picks, HasTurn, Rotated, get_valid_ip_4_up_lem}

abbrev three : Domain
three = record { ips = λ k. 100 + k; diskfree = 0; taskcount = 0; load = 0; ipcount = 3; index = 2 }

abbrev but_first : ℕ → Bool
but_first ip = not (ip == 100)

get_valid_ip_4_up_lem_example :
    Picks but_first three (get_valid_ip_4_up but_first false three).sip
    × (((get_valid_ip_4_up but_first false three).ret ≡ negsuc 0)
        ↔ ((get_valid_ip_4_up but_first false three).sip ≡ none))
    × (false ≡ false
        → 0 < 3
        → (k : ℕ) → HasTurn three k
        → Rotated three k (get_valid_ip_4_up but_first false three).domain
          × (but_first (100 + k) ≡ true
              → (get_valid_ip_4_up but_first false three).sip ≡ some (100 + k)))
get_valid_ip_4_up_lem_example = get_valid_ip_4_up_lem but_first false three
