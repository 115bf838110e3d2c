-- ===== src/UdpPacket/Sending.antt =====
-- The loop of `main` goes on with an mbuf that it has given away.
use dpdk_starter.Base.{ℕ, ◌≡◌, refl, Bool, true, false, List, [], ◌∷◌, ◌++◌, ap, if◌then◌else◌}
use dpdk_starter.UdpPacket.{Use, transmit, free, tx_loop}

-- After a round in which the driver refuses the packet, the loop frees the mbuf, and then hands it to
-- the driver again if there is a further round: a use after free. What was done before is kept.
pub tx_loop-use_after_free :
    (m : ℕ) (before : List Bool) (sent : Bool) (after : List Bool)
    → (rest : List Use) × (tx_loop m (before ++ (false ∷ sent ∷ after))
        ≡ tx_loop m before ++ (transmit m ∷ free m ∷ transmit m ∷ rest))
unfolding tx_loop
tx_loop-use_after_free m [] sent after =
    ((if sent then tx_loop m after else free m ∷ tx_loop m after), refl)
tx_loop-use_after_free m (true ∷ before) sent after =
    let (rest, e) = tx_loop-use_after_free m before sent after in (rest, ap (λ l. transmit m ∷ l) e)
tx_loop-use_after_free m (false ∷ before) sent after =
    let (rest, e) = tx_loop-use_after_free m before sent after in
    (rest, ap (λ l. transmit m ∷ free m ∷ l) e)
