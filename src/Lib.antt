-- ===== src/Lib.antt =====
-- Verification of the DPDK programs of this repository: small C programs that receive, classify,
-- rewrite, queue and transmit packets. DPDK itself is not part of the repository. What a program
-- uses of it is an argument of the definitions: the rings (Ring.antt), the hash table (L2Forward),
-- lib/acl (Acl), lib/lpm (Lpm), lib/eventdev (Eventdev), lib/reorder (Reorder), the room of an mbuf
-- (PacketChange), the checksum of an IPv4 header (StaticNat, UdpPacket), and what the drivers return.
-- Where a theorem relies on the behaviour of such a library, the interface has its documented laws,
-- and a concrete implementation fills it.
--
-- BestMatch is the search for the best element of a list that both lib/acl and lib/lpm promise.
-- Base has the shared names, the Boolean tests and the lists over the native numbers; Packet has the
-- packet memory, from which a program reads bytes and big-endian words at offsets, also behind the
-- end of the data; Rising has lists of numbers that rise. A packet that is only passed on is the
-- number that is its address.
--
-- The programs, by directory:
--   control_data_segregation/main.c: Segregation. Segregation.Classify is `classify_packet` with its
--     two port tests; Segregation.Loop is a round of `main`: dispatch to the two rings, drain of each
--     to the port, statistics. The counters and the clock are 64 bits wide and wrap.
--   thread_parsing/threaded_project: ThreadedPipeline. The loops of rx.c, parser.c and tx.c are three
--     threads that share two rings, `force_quit` and the counters; a step is one call of a ring or of
--     the port, and the steps interleave in any order.
--   graph/pipeline/pipeline.c: GraphPipeline. The six `*_process` functions on the streams between
--     them; a walk runs nodes with work in any order.
--   feature_arc/sample/main.c: FeatureArc. The node table, the arc, and the pipeline that
--     `dump_pipeline` prints. The loop of `dump_pipeline` has fuel, for which the number of features and
--     2 is enough; the arrays' bounds, which the source does not test, give none.
--   l2_forwarding/main.c: L2Forward. Learning, lookup and flooding over four ports.
--   NAT/static_nat/main.c: StaticNat. `simulate_nat` as stores to the packet memory, and a
--     round of `lcore_main`.
--   ports/packet_parsing/packet_parsing.c: PacketParsing. `parse_packet`, with the lines it prints.
--   tranmit_packet/packet_creation/simple_tx.c: UdpPacket. `build_udp_packet` and the sending loop.
--   ACL/muti_rule, ACL/dual_rule_implementation, ACL/exp, ACL/l2fwd_acl, ACL/real_packet_acl: Acl,
--     with one child for each program; the rules, the keys made from packets, and what is done with
--     the result. Acl.Fields has the tables `field_defs` of all five.
--   longest_prefix_match_lpm/simple/main.c: Lpm. The routes and the fate of a packet.
--   graph/rx_drop_sample/sample/main.c: RxDrop. The four nodes and the walks over them.
--   graph/two_start_node/main.c: TwoStarts. The two sources, the worker and the main loop.
--   rss_dpdk/main.c, rss_dpdk/af_packet_rss/main.c: Rss. The number of receive queues, their setup,
--     and the lcores that poll them.
--   reordering/dynamic_seqno/main.c: Seqno. The loop that numbers packets, over a list of bursts.
--   reordering/rx_burst/main2.c, reordering/rx_burst/main.c: Reorder. The loops over the bursts, through
--     a reorder buffer.
--   eventdev/01project, eventdev/02practice, eventdev/practice, eventdev/parsing_event,
--     inter_process_comm/eventdev: Eventdev, over an interface of lib/eventdev.
--     Eventdev.Practice has fuel for the two retry loops, for which 1 attempt and 10 rounds are enough,
--     as has Eventdev.Project, with 1 each; Eventdev.Parsing is the worker, Eventdev.Processes are the
--     two processes, and Eventdev.OneWorker is eventdev/practice.
--   inter_process_comm/ring_full_duplex, inter_process_comm/single_ring_full_duplex: Ipc. The two
--     processes take steps in any order, on the rings and on the cells of rte_malloc (Ipc.Memory);
--     Protocol is the talk without rings, and Refine leads the programs to it. Ipc.Runs has runs of
--     a step relation.
--   inter_process_comm/through_rte_ring, Multi_Process_Messaging and sample_rte_mp: Ipc.Through,
--     Ipc.Ready and Ipc.Payload, in the same manner. In the last two the messages of rte_mp are on
--     their way between a send and the callback, and a send may fail.
--   practice/ring.c: LcoreRing. The two handlers and `main`, in any order.
--   lcore: Lcores. The functions that are launched; the counters that each lcore has of its own.
--   nic_stats/sample: NicStats. The loops are those of ThreadedPipeline; `print_eth_stats` and
--     `print_xstats` with the lines that they print, on what the driver answers.
--   ports/port_mempool: MbufInfo. `print_mbuf_info` and the loop, with the lines that they print.
--   graph/sample, graph/node_sched, graph/two_start_with_worker, graph_private_context/sample,
--     feature_arc/graph_arc: GraphSamples, a child for each. GraphSamples.Walks is their loop.
--   telementry/advanced_stats/main.c: Telemetry. The lcores' increments as loads and stores, and the
--     two handlers. telementry/sample/main.c: Telemetry.Command.
--   rings/sample/simple_ring.c: SimpleRing. The producer, the consumer and the signal, in any order.
--   packet_change/main.c, mempool_membuff/append_prependops.c: PacketChange. `operations` over an
--     interface of lib/mbuf. mempool_membuff/simple.c: PacketChange.Simple.
--   longest_prefix_match_lpm/ipv4table/main.c: Lpm.Table; hashing/mac_learning/main.c: MacLearning;
--     hashing/sample/main.c: MacLearning.Sample.
--   ports/begin/dpdk_tun_echo.c, ports/packet_parsing/rx_tx.c, tranmit_packet/swap_addr/main.c,
--     rxtx_callbacks/sample/simple.c, inter_process_comm/virtu_vhost_ipc: PortLoops, the programs with
--     one loop on a port.
--   Startup has the calls that the programs make before their loops, each call with its result
--     tested or not; Startup.Device is the port that such a sequence of calls leaves, and
--     Startup.Samples, Startup.PortPrograms and Startup.SmallPrograms have the starts of the programs
--     with little more than a start.
--
-- Loops over a burst or a table are recursion on the list. An endless loop is a function of the list
-- of what the driver returns in each round, or a relation between states, so no bound is set on it.
--
-- Not modelled: what is printed (but for PacketParsing, FeatureArc, NicStats and MbufInfo, where it is
-- the result), the contents of configuration structures other than the numbers of queues and the fields
-- of lib/acl, the socket numbers and the sizes of pools; reordering/sample/main.c, whose content is the
-- order in which lib/reorder returns eight packets; and practice/sample.c, which launches a function
-- that prints.
pub mod Acl
pub mod Base
pub mod BestMatch
pub mod Eventdev
pub mod FeatureArc
pub mod GraphPipeline
pub mod GraphSamples
pub mod Ipc
pub mod L2Forward
pub mod LcoreRing
pub mod Lcores
pub mod Lpm
pub mod MacLearning
pub mod MbufInfo
pub mod NicStats
pub mod Packet
pub mod PacketChange
pub mod PacketParsing
pub mod PortLoops
pub mod Reorder
pub mod Ring
pub mod Rising
pub mod Rss
pub mod RxDrop
pub mod Segregation
pub mod Seqno
pub mod SimpleRing
pub mod Startup
pub mod StaticNat
pub mod Telemetry
pub mod ThreadedPipeline
pub mod TwoStarts
pub mod UdpPacket
