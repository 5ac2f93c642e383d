-- ===== src/Lib.antt =====
-- A verification of the C++ core of the maritime mesh network: the OLSR routing protocol with
-- predicted wave heights in RoutingProtocol/, and the mobility model in MobilityModel/.
--
-- A node keeps repositories of links, neighbors, 2-hop neighbors and topology tuples. From them
-- `MprComputation` elects the multipoint relays and `RoutingTableComputation` builds the routing
-- table, by which `RouteOutput` and `RouteInput` forward data. Messages wait in a queue, are put
-- into packets, and are taken out of them by `RecvOlsr`, which hands them to the handlers that
-- keep the repositories. An event is scheduled for each new tuple, which examines it and erases it
-- once it has expired.
--
-- Base: the shared notation; signed integers (Base.Int) and `std::map` as a sorted association
--   list (Base.Dict).
-- Repositories: the tuples of ns-3's olsr-repositories.h with the fields that the code uses, and
--   the constants of RoutingProtocol/ocean-protocol.cc. Times are whole nanoseconds
--   (Repositories.Clock, with the macro DELAY).
-- Mpr: `CoverTwoHopNeighbors` (cover_two_hop_neighbors), `Degree` (degree) and `MprComputation`
--   (mpr_computation) of RoutingProtocol/ocean-protocol.cc. Mpr has steps 1 and 3, Mpr.Choice the
--   steps 4.1 and 4.2, Mpr.Compute the loop. Mpr.Pairs, Mpr.Start and Mpr.Candidates say
--   what the sets hold.
-- Routing: `AddEntry` (add_entry, add_entry_at), `Lookup`, `RemoveEntry`, `Clear`,
--   `GetMainAddress`; Routing.Build is `RoutingTableComputation` (routing_table) in its steps 1 to
--   4, Routing.Hna (hna_routes) its step 5; Routing.Send is `FindSendEntry`, `RouteOutput`,
--   `RouteInput` and `IsMyOwnAddress`.
-- Emf: `SecondsToEmf` and `EmfToSeconds` of RoutingProtocol/olsr-header.cc.
-- Wire: the headers of RoutingProtocol/olsr-header.cc and RoutingProtocol/ocean-olsr-header.cc.
--   Wire.Body has the bodies Mid, Hello, Tc and Hna; Wire.Message has `MessageHeader`
--   (write_header, read_header) and `OceanMessageHeader` (write_ocean, read_ocean); Wire.Packet
--   has `PacketHeader` and the part of `RecvOlsr` that takes a packet apart (receive_packet).
-- Queue: `QueueMessage`, `SendPacket`, `SendQueuedMessages` and the sequence numbers.
-- Generate: `SendHello`, `SendTc`, `SendMid` and `SendHna`; Generate.Periodic is the timers that
--   call them. Intervals are counted in 256ths of a second.
-- Associations: `AddHostNetworkAssociation`, `RemoveHostNetworkAssociation` and
--   `SetRoutingTableAssociation`.
-- Protocol: the state that the handlers and timers share (Protocol.Protocol), the functions that
--   add and remove tuples; Protocol.Links is `LinkTupleAdded`, `LinkTupleUpdated`,
--   `RemoveLinkTuple`, `NeighborLoss` and the two computations on the state; Protocol.Timers is
--   the seven timers of the tuples. Protocol.Timed and Protocol.Tracked are the invariant of the
--   events.
-- Handlers: `GetMessageVTime`; Handlers.Tc, Handlers.Hna and Handlers.Mid are `ProcessTc`,
--   `ProcessHna` and `ProcessMid`; Handlers.Sensing is `LinkSensing`; Handlers.Hello is
--   `ProcessHello` with the three Populate functions; Handlers.Forward is `ForwardDefault`;
--   Handlers.Receive is the loop of `RecvOlsr` over the messages of a packet.
-- Setup: the part of `DoInitialize` that sets the main address and associates the node's other
--   interfaces with it.
-- Mobility: `DoInitialize`, `InitPath`, `GetHeight` and `GetPredictedHeight` of
--   MobilityModel/ocean-mobility-model.cc.
-- System: the node as a system of steps (System.Step): it is initialised, packets arrive and events
--   fire in any order.
-- Tests: the theorems at concrete inputs, and runs of the code.
--
-- The sets that a computation reads from `m_state` are lists in the order of the vectors. What the
-- code asks of ns-3 is a parameter: `Ipv4` (Routing.Ipv4), the lookups of `OlsrState` (its
-- associations: Associations.AssociationState; its vectors: Protocol.OlsrState with the laws
-- Protocol.Laws.IsOlsrState and Repositories.Interface.IsRepository, where a pointer to a tuple is
-- an index into the vector and a write through it changes the vector), static routing
-- (Routing.Hna.StaticRouting with the laws Routing.Hna.Contents.IsStaticRouting),
-- `Buffer::Iterator` and `Packet` (Wire.Buffer with the laws Wire.IsBuffer), the conversion of
-- heights between double and uint32_t (Wire.Message.Heights), and the operations on doubles
-- (Mobility.Doubles). A failed assertion is `none`, but for the one of `AddEntry` on an unknown
-- interface address, which is taken as switched off. Widths are written out (`% 2 ^ 16`, `% 2 ^
-- 32`).
--
-- Fuel. The loop of `MprComputation` gets the number of 2-hop tuples, and the loop over `h` one
-- round more than there are topology tuples: each round but the last removes or routes a tuple.
-- The loop that is to clear the HNA routes gets one round more than there are routes.
-- `FindSendEntry` takes any fuel of one round or more on a table of the computation. The loop
-- over the link messages of a HELLO, and the loop over the messages of a packet, get one round
-- more than there are bytes, and each round takes some. The loop of `SecondsToEmf` gets one
-- round more than the time in 256ths of a second.
--
-- Not modelled: sockets and the rest of the set-up, registration, logging and output, the helper,
-- and the propagation model (doubles). Heights are whole micrometres in `GetMessageVTime`, and
-- abstract in the messages.
pub mod Base
pub mod Repositories
pub mod Mpr
pub mod Routing
pub mod Emf
pub mod Wire
pub mod Queue
pub mod Generate
pub mod Associations
pub mod Protocol
pub mod Handlers
pub mod Mobility
pub mod Setup
pub mod System
mod Tests
