-- ===== src/Ring/Counting.antt =====
-- How the ring's calls move objects, as counts.
use dpdk_starter.Base.{
  ℕ, ◌+◌, ◌≡◌, ap, ◌∙◌, List, count, count-append, count-take-drop, take, drop, arith,
}
use dpdk_starter.Ring.{RingApi}

module _ (api : RingApi) where
  open api use {items, enqueue_burst, dequeue_burst, items-enqueue_burst, items-dequeue_burst}

  pub dequeue_burst-count :
      (r : api.Ring) (n a : ℕ)
      → count a (items r) ≡ count a (dequeue_burst r n).0 + count a (items (dequeue_burst r n).1)
  dequeue_burst-count r n a =
      ap (count a) (items-dequeue_burst r n)
      ∙ count-append a (dequeue_burst r n).0 (items (dequeue_burst r n).1)

  -- What is not taken is left to the caller.
  pub enqueue_burst-count :
      (r : api.Ring) (xs : List ℕ) (a : ℕ)
      → count a (items (enqueue_burst r xs).1) + count a (drop (enqueue_burst r xs).0 xs)
        ≡ count a (items r) + count a xs
  enqueue_burst-count r xs a = omega (
    arith,
    ap (count a) (items-enqueue_burst r xs),
    count-append a (items r) (take (enqueue_burst r xs).0 xs),
    count-take-drop a (enqueue_burst r xs).0 xs,
  )
