-- ===== src/Lpm/Search.antt =====
-- A lookup that searches the list of routes, which shows that the interface can be met.
use dpdk_starter.Base.{ℕ, refl, Option, none, some}
use dpdk_starter.BestMatch.{best, best-none, best-some}
use dpdk_starter.Lpm.{Route, covers, LpmApi}

abbrev hop_of : Option Route → Option ℕ
hop_of none = none
hop_of (some r) = some r.next_hop

pub search_api : LpmApi
search_api = record {
  lookup = λ routes ip. hop_of (best (λ r. covers r ip) (λ r. r.depth) routes);
  lookup_none = λ routes ip h. rw (best-none (λ r. covers r ip) (λ r. r.depth) routes h) refl;
  lookup_longest = λ before r after ip m h.
      rw (best-some (λ q. covers q ip) (λ q. q.depth) before r after m h) refl;
}
