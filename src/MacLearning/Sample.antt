-- ===== src/MacLearning/Sample.antt =====
-- hashing/sample/main.c: one number is added to a hash table and looked up.
use dpdk_starter.Base.{ℕ, ◌≡◌, Option, some, if◌then◌else◌, arith}
use dpdk_starter.L2Forward.{HashApi}

abbrev pub key : ℕ
key = 50

abbrev pub value : ℕ
value = 500

module _ (api : HashApi) where
  open api use {Table, add, lookup, lookup-add_ok, lookup-add_failed}

  -- The result of `rte_hash_add_key_data` is not looked at; `none` is the line `Lookup failed`.
  unfoldable pub add_and_lookup : Table → Option ℕ
  add_and_lookup t = lookup (add t key value).1 key

  -- The number is found if the table takes it; otherwise what the table had before is printed.
  pub add_and_lookup_lem :
      (t : Table) → add_and_lookup t ≡ (if (add t key value).0 then some value else lookup t key)
  unfolding add_and_lookup
  add_and_lookup_lem t =
      ground (arith, lookup-add_ok t key value key, lookup-add_failed t key value key)
