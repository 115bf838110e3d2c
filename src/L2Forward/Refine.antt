-- ===== src/L2Forward/Refine.antt =====
-- The switch against a map from addresses to the ports on which they were last seen.
use dpdk_starter.Base.{
  ℕ, ◌<◌, ◌≡◌, refl, true, Option, none, some, List, [], ◌∷◌, ◌==◌, if◌then◌else◌, arith,
}
use dpdk_starter.L2Forward.{
  HashApi, Action, forward, flood, Arrival, flood_packet, mac_learn, mac_lookup, process_packet,
  flood_from, process_all,
}

-- The port on which an address was last seen.
abbrev pub Seen : Type 0
Seen = ℕ → Option ℕ

abbrev pub see : Seen → Arrival → Seen
see seen a mac = if a.src == mac then some a.in_port else seen mac

abbrev without : ℕ → List ℕ → List ℕ
without p [] = []
without p (q ∷ qs) = if q == p then without p qs else q ∷ without p qs

-- The four ports of the switch but one.
abbrev pub other_ports : ℕ → List ℕ
other_ports p = without p (0 ∷ 1 ∷ 2 ∷ 3 ∷ [])

flood_packet-other_ports : (p : ℕ) → flood_packet p ≡ other_ports p
unfolding flood_packet flood_from
flood_packet-other_ports p = ground arith

unfoldable pub decide_port : Seen → Arrival → Action
decide_port seen a = elim (see seen a a.dst) [
  | some p ↦ forward p
  | none ↦ flood (other_ports a.in_port)
]

-- Each packet goes to the port on which its destination was last seen, this packet included, and to
-- the other three of the four ports if it was never seen.
unfoldable pub decide_all : Seen → List Arrival → List Action
decide_all seen [] = []
decide_all seen (a ∷ rest) = decide_port seen a ∷ decide_all (see seen a) rest

module _ (api : HashApi) where
  open api use {Table, add, lookup, lookup-add_ok}

  -- The table takes every address of the packets (it has room), and their ports are uint16_t.
  abbrev pub AllLearned : Table → List Arrival → Type 0
  AllLearned t [] = Unit {0}
  AllLearned t (a ∷ rest) =
      ((add t a.src a.in_port).0 ≡ true)
      × (a.in_port < 65536)
      × AllLearned (add t a.src a.in_port).1 rest

  -- The table and the map agree.
  abbrev pub Agrees : Table → Seen → Type 0
  Agrees t seen = (mac : ℕ) → mac_lookup api t mac ≡ seen mac

  mac_learn-Agrees :
      (t : Table) (seen : Seen) (a : Arrival)
      → (add t a.src a.in_port).0 ≡ true
      → a.in_port < 65536
      → Agrees t seen
      → Agrees (mac_learn api t a.src a.in_port) (see seen a)
  unfolding mac_learn mac_lookup
  mac_learn-Agrees t seen a done small h mac =
      ground (arith, h mac, lookup-add_ok t a.src a.in_port mac)

  process_packet-decide_port :
      (t : Table) (seen : Seen) (a : Arrival)
      → Agrees (mac_learn api t a.src a.in_port) (see seen a)
      → process_packet api t a ≡ (mac_learn api t a.src a.in_port, decide_port seen a)
  unfolding process_packet decide_port
  process_packet-decide_port t seen a h =
      ground (arith, h a.dst, flood_packet-other_ports a.in_port)

  -- While the table has room and holds the same as the map, the switch forwards and floods every
  -- packet as the map says: to the port on which its destination was last seen, this packet included; or,
  -- if it was never seen, once to each of the ports 0 to 3 but the one that the packet came in on.
  pub process_all-decide_all :
      (t : Table) (seen : Seen) (packets : List Arrival)
      → AllLearned t packets
      → Agrees t seen
      → process_all api t packets ≡ decide_all seen packets
  unfolding process_all decide_all mac_learn
  process_all-decide_all t seen [] l h = refl
  process_all-decide_all t seen (a ∷ rest) l h =
      let h' : Agrees (mac_learn api t a.src a.in_port) (see seen a) =
        mac_learn-Agrees t seen a l.0 l.1 h in
      ground (
        arith,
        process_packet-decide_port t seen a h',
        process_all-decide_all (add t a.src a.in_port).1 (see seen a) rest l.2 h',
      )
