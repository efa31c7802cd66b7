-- ===== src/Sniffer/Tests.antt =====
-- Terminal-Packet-Sniffer/func.c with the field layouts of the protocols and two packets.
use os_network_concurrency_s.Common.{
  ℕ, ◌+◌, ◌*◌, ◌%◌, ◌≡◌, ◌<◌, ◌==◌, if◌then◌else◌, true, refl, List, [], ◌∷◌, none, length,
  get_elem?,
}
use os_network_concurrency_s.Sniffer.Handler.{
  Headers, Packet, Class, Capture, max_packets, no_class,
}
use os_network_concurrency_s.Sniffer.Session.{capture, printed, capture-stores}

-- two bytes in network order
abbrev word_at : ℕ → (ℕ → ℕ) → ℕ
word_at i b = b i * 256 + b (i + 1)

abbrev wire : Headers
wire = record {
  ether_type = word_at 12;
  ether_size = 14;
  ethertype_ip = 0x0800;
  ethertype_arp = 0x0806;
  ethertype_ipv6 = 0x86dd;
  ip_hl = λ b. b 0 % 16;
  ip_p = λ b. b 9;
  ip6_nxt = λ b. b 6;
  ipproto_tcp = 6;
  ipproto_udp = 17;
  th_sport = word_at 0;
  th_dport = word_at 2;
  uh_sport = word_at 0;
  uh_dport = word_at 2;
}

abbrev arp_packet : Packet
arp_packet = record { bytes = λ i. if i == 12 then 8 else if i == 13 then 6 else 0; caplen = 42 }

abbrev other_packet : Packet
other_packet = record { bytes = λ i. 0; caplen = 20 }

abbrev only_http : ℕ → ℕ
only_http i = if i == 0 then b'1' else b'0'

abbrev only_arp : ℕ → ℕ
only_arp i = if i == 3 then b'1' else b'0'

abbrev arp_class : Class
arp_class = record no_class { is_arp = true }

abbrev fresh : Capture
fresh = record { id = 0; p_index = 0; my_data = λ _. none }

abbrev two_packets : List Packet
two_packets = other_packet ∷ arp_packet ∷ []

capture-stores_example :
    ((capture wire only_arp two_packets fresh).id ≡ length (printed wire only_arp two_packets))
    × ((i : ℕ)
        → i < length (printed wire only_arp two_packets)
        → i < max_packets
        → (capture wire only_arp two_packets fresh).my_data i
          ≡ get_elem? (printed wire only_arp two_packets) i)
capture-stores_example = capture-stores wire only_arp two_packets fresh refl
