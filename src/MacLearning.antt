-- ===== src/MacLearning.antt =====
-- hashing/mac_learning/main.c: a table from MAC addresses to ports, two addresses that are learnt, and
-- two that are looked up. The hash table is that of L2Forward.
pub mod Sample
mod Tests
use dpdk_starter.Base.{
  ℕ, ◌≡◌, ◌≢◌, refl, ap, Bool, true, false, Option, none, some, Option-cases, ◌==◌, if◌then◌else◌,
  u16, arith,
}
use dpdk_starter.L2Forward.{HashApi}

abbrev pub mac1 : ℕ
mac1 = 187723572702721

abbrev pub mac2 : ℕ
mac2 = 187723572702722

abbrev pub mac3 : ℕ
mac3 = 187723572702723

-- `Forward to port %u`, or `Flood`.
pub data Decision : Type 0 where
  forward_to : ℕ → Decision
  flood : Decision

module _ (api : HashApi) where
  open api use {Table, add, lookup, lookup-add_ok, lookup-add_failed}

  -- The result of `rte_hash_add_key_data` is not looked at.
  unfoldable pub mac_learn : Table → ℕ → ℕ → Table
  mac_learn t src_mac port = (add t src_mac port).1

  -- 0 and `*port`, or -1.
  unfoldable pub mac_lookup : Table → ℕ → Option ℕ
  mac_lookup t dst_mac = elim (lookup t dst_mac) [ none ↦ none | some p ↦ some (u16 p) ]

  -- A lookup of `main`, and what it prints.
  unfoldable pub decide : Table → ℕ → Decision
  decide t mac = elim (mac_lookup t mac) [ none ↦ flood | some port ↦ forward_to port ]

  unfoldable pub learn_both : Table → Table
  learn_both t = mac_learn (mac_learn t mac1 1) mac2 2

  -- The two lookups of `main`.
  unfoldable pub lookups : Table → Decision × Decision
  lookups t = let t' = learn_both t in (decide t' mac1, decide t' mac3)

  -- A port that is learnt is looked up as the 16 bits that it has, and no other address changes.
  pub mac_lookup-mac_learn :
      (t : Table) (mac port other : ℕ)
      → (add t mac port).0 ≡ true
      → mac_lookup (mac_learn t mac port) other
        ≡ (if mac == other then some (u16 port) else mac_lookup t other)
  unfolding mac_lookup mac_learn
  mac_lookup-mac_learn t mac port other ok = ground (arith, lookup-add_ok t mac port other ok)

  -- If the table has neither address and takes both that are learnt, the first lookup finds port 1, and
  -- the second one floods.
  pub lookups_lem :
      (t : Table)
      → lookup t mac1 ≡ none
      → lookup t mac3 ≡ none
      → (add t mac1 1).0 ≡ true
      → (add (mac_learn t mac1 1) mac2 2).0 ≡ true
      → lookups t ≡ (forward_to 1, flood)
  unfolding lookups learn_both decide mac_lookup mac_learn
  lookups_lem t e e3 ok ok2 = ground (
    arith,
    lookup-add_ok t mac1 1 mac1 ok,
    lookup-add_ok t mac1 1 mac3 ok,
    lookup-add_ok (add t mac1 1).1 mac2 2 mac1 ok2,
    lookup-add_ok (add t mac1 1).1 mac2 2 mac3 ok2,
  )
