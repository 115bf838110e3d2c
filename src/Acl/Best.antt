-- ===== src/Acl/Best.antt =====
-- A classifier that searches the list of rules, which shows that the interface can be met.
use dpdk_starter.Base.{ℕ, refl, Option, none, some, List}
use dpdk_starter.BestMatch.{best, best-none, best-some}
use dpdk_starter.Acl.{Rule, Key, matches, AclApi}

abbrev userdata_of : Option Rule → ℕ
userdata_of none = 0
userdata_of (some r) = r.userdata

abbrev best_rule : List Rule → Key → Option Rule
best_rule rules k = best (λ r. matches r k) (λ r. r.priority) rules

pub search_api : AclApi
search_api = record {
  classify = λ rules k. userdata_of (best_rule rules k);
  classify_none = λ rules k h. rw (best-none (λ r. matches r k) (λ r. r.priority) rules h) refl;
  classify_best = λ before r after k m h.
      rw (best-some (λ q. matches q k) (λ q. q.priority) before r after m h) refl;
}
