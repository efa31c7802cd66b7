-- ===== src/Sniffer/Filter.antt =====
-- Terminal-Packet-Sniffer/func.c: which packets the filter lets through.
use os_network_concurrency_s.Common.{ℕ, ◌≡◌, ◌≢◌, ◌⊎◌, ◌↔◌, true, arith, none}
use os_network_concurrency_s.Sniffer.Handler.{
  Class, port_is, print_packet, get_port_name, get_app_protocol_name,
}

-- What the six characters of the filter ask for, as the prompt of the program says.
abbrev pub Selected : (ℕ → ℕ) → Class → Type 0
Selected filter c =
    ((filter 0 ≡ b'1') × (c.is_tcp ≡ true) × (port_is c 80 ≡ true))
    ⊎ (((filter 1 ≡ b'1') × (c.is_tcp ≡ true) × (port_is c 443 ≡ true))
        ⊎ (((filter 2 ≡ b'1') × (port_is c 53 ≡ true))
            ⊎ (((filter 3 ≡ b'1') × (c.is_arp ≡ true))
                ⊎ (((filter 4 ≡ b'1') × (c.is_tcp ≡ true))
                    ⊎ ((filter 5 ≡ b'1') × (c.is_udp ≡ true))))))

-- A filter whose first character is not '0' lets every packet through, whatever the others are.
pub print_packet-all : (filter : ℕ → ℕ) (c : Class) → filter 0 ≢ b'0' → print_packet filter c ≡ true
unfolding print_packet
print_packet-all filter c h = ground arith

-- With '0' in the first place a packet is printed exactly if one of the protocols asked for by the
-- other five characters is its own.
pub print_packet-Selected :
    (filter : ℕ → ℕ) (c : Class)
    → filter 0 ≡ b'0'
    → (print_packet filter c ≡ true) ↔ Selected filter c
unfolding print_packet
print_packet-Selected filter c z = (ground arith, ground arith)

-- The two tables of port names agree wherever the second one names a protocol.
pub get_app_protocol_name-agrees :
    (port : ℕ)
    → (get_app_protocol_name port ≡ none) ⊎ (get_app_protocol_name port ≡ get_port_name port)
unfolding get_port_name get_app_protocol_name
get_app_protocol_name-agrees port = ground arith
