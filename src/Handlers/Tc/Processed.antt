-- ===== src/Handlers/Tc/Processed.antt =====
-- `ProcessTc` on a message that passes its two tests.
use maritime_mesh_network.Base.{◌≡◌, ◌≢◌, none, List, All, elim-cases}
use maritime_mesh_network.Base.Int.{◌+ℤ◌}
use maritime_mesh_network.Repositories.{Ipv4Address, TopologyTuple}
use maritime_mesh_network.Wire.Body.{Tc}
use maritime_mesh_network.Wire.Message.{OceanMessageHeader}
use maritime_mesh_network.Protocol.{Protocol, OlsrState, Context}
use maritime_mesh_network.Protocol.Laws.{IsOlsrState}
use maritime_mesh_network.Handlers.{get_message_v_time}
use maritime_mesh_network.Handlers.Tc.{advertise_all, process_tc}
use maritime_mesh_network.Handlers.Tc.Accepted.{
  AllAdvertised, IsCurrent, KeepsOthers, Has, older_erased, older_others,
  advertise_all-AllAdvertised,
}

-- What a TC message leaves in the topology set, which was `v` and is `w`.
pub record IsProcessed {H : Type 0} (x : Context H) (msg : OceanMessageHeader H) (tc : Tc)
    (v w : List TopologyTuple) : Type 0 where
  pub current : IsCurrent msg.header.originator_address tc.ansn w
  pub others : KeepsOthers msg.header.originator_address v w
  pub advertised :
      All
        (λ a. Has msg.header.originator_address tc.ansn (x.now +ℤ get_message_v_time x msg) a w)
        tc.neighbor_addresses

module _ {H S : Type 0} (st : OlsrState S) (laws : IsOlsrState st) (x : Context H) where
  -- A TC message comes by a symmetric link, and no tuple of its originator is newer. After
  -- `ProcessTc` the topology set has, for each advertised address, a tuple of the originator that
  -- expires at the current time plus the validity time; every tuple of the originator has the ANSN
  -- of the message; and every tuple of another originator is still there.
  pub process_tc-IsProcessed :
      (msg : OceanMessageHeader H) (tc : Tc) (sender : Ipv4Address) (s : Protocol H S)
      → st.find_sym_link_tuple sender x.now s.links ≢ none
      → st.find_newer_topology_tuple msg.header.originator_address tc.ansn s.topology ≡ none
      → IsProcessed x msg tc s.topology (process_tc st x msg tc sender s).topology
  unfolding process_tc
  process_tc-IsProcessed msg tc sender s known newest =
      elim-cases (λ (u : Protocol H S). IsProcessed x msg tc s.topology u.topology)
        (st.find_sym_link_tuple sender x.now s.links) _ _ (λ n. absurd (known n))
        (λ l e. rw newest processed)
    where
      originator : Ipv4Address
      originator = msg.header.originator_address

      erased : Protocol H S
      erased = record s { topology = st.erase_older_topology_tuples originator tc.ansn s.topology }

      all :
          AllAdvertised st laws x originator tc.ansn
            (x.now +ℤ get_message_v_time x msg)
            tc.neighbor_addresses
            erased.topology
            (advertise_all st x originator tc.ansn
              (x.now +ℤ get_message_v_time x msg)
              tc.neighbor_addresses
              erased).topology
      all =
          advertise_all-AllAdvertised st laws x originator tc.ansn _ tc.neighbor_addresses erased (
            rw laws.older (
              older_erased originator tc.ansn s.topology
                (laws.no_newer originator tc.ansn s.topology newest)))

      processed :
          IsProcessed x msg tc s.topology
            (advertise_all st x originator tc.ansn
              (x.now +ℤ get_message_v_time x msg)
              tc.neighbor_addresses
              erased).topology
      processed = record {
        current = all.current;
        others = λ t i ne.
            all.others t (rw laws.older (older_others originator tc.ansn s.topology t i ne)) ne;
        advertised = all.advertised;
      }
