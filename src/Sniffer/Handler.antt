-- ===== src/Sniffer/Handler.antt =====
-- Terminal-Packet-Sniffer/func.c: pckt_handler up to the point where printing starts, and the port
-- names. The header layouts and protocol numbers come from the system's headers: they are the
-- parameter `net`. A packet is its captured bytes by offset; `filter` is the text of filter[7].
use os_network_concurrency_s.Common.{
  ℕ, ◌+◌, ◌*◌, Option, none, some, ltb, ◌==◌, if◌then◌else◌, update, Bool, true, false, ◌&&◌, ◌||◌,
  not,
}

-- Field accessors of <net/ethernet.h>, <netinet/ip.h>, <netinet/ip6.h>, <netinet/tcp.h> and
-- <netinet/udp.h>, with `ntohs` applied; the argument is the bytes from the header on.
pub record Headers : Type 0 where
  pub ether_type : (ℕ → ℕ) → ℕ
  pub ether_size : ℕ
  pub ethertype_ip : ℕ
  pub ethertype_arp : ℕ
  pub ethertype_ipv6 : ℕ
  pub ip_hl : (ℕ → ℕ) → ℕ
  pub ip_p : (ℕ → ℕ) → ℕ
  pub ip6_nxt : (ℕ → ℕ) → ℕ
  pub ipproto_tcp : ℕ
  pub ipproto_udp : ℕ
  pub th_sport : (ℕ → ℕ) → ℕ
  pub th_dport : (ℕ → ℕ) → ℕ
  pub uh_sport : (ℕ → ℕ) → ℕ
  pub uh_dport : (ℕ → ℕ) → ℕ

abbrev pub max_packets : ℕ
max_packets = 10000

-- One entry of `my_data`.
pub record Packet : Type 0 where
  pub bytes : ℕ → ℕ
  pub caplen : ℕ

-- What the decoding at the head of `pckt_handler` finds.
pub record Class : Type 0 where
  pub is_arp : Bool
  pub is_tcp : Bool
  pub is_udp : Bool
  pub src : ℕ
  pub dst : ℕ

-- The globals that the handler changes; `id` is what its first argument points to.
pub record Capture : Type 0 where
  pub id : ℕ
  pub p_index : ℕ
  pub my_data : ℕ → Option Packet

abbrev pub no_class : Class
no_class = record { is_arp = false; is_tcp = false; is_udp = false; src = 0; dst = 0 }

-- `packet + n`
abbrev pub from : ℕ → (ℕ → ℕ) → ℕ → ℕ
from n packet i = packet (n + i)

abbrev pub on : (ℕ → ℕ) → ℕ → Bool
on filter i = filter i == b'1'

-- `src == port || dst == port`
abbrev pub port_is : Class → ℕ → Bool
port_is c port = c.src == port || c.dst == port

-- The loop over the filter tests its first character each time.
unfoldable pub print_packet : (ℕ → ℕ) → Class → Bool
print_packet filter c =
    not (filter 0 == b'0')
    || (on filter 0 && (c.is_tcp && port_is c 80))
    || (on filter 1 && (c.is_tcp && port_is c 443))
    || (on filter 2 && port_is c 53)
    || (on filter 3 && c.is_arp)
    || (on filter 4 && c.is_tcp)
    || (on filter 5 && c.is_udp)

module _ (net : Headers) where
  -- By the protocol number, with the bytes of layer 4.
  pub layer4 : ℕ → (ℕ → ℕ) → Class
  layer4 proto l4 =
      if proto == net.ipproto_tcp
      then record no_class { is_tcp = true; src = net.th_sport l4; dst = net.th_dport l4 }
      else if proto == net.ipproto_udp
      then record no_class { is_udp = true; src = net.uh_sport l4; dst = net.uh_dport l4 }
      else no_class

  pub classify : (ℕ → ℕ) → Class
  classify packet =
      let ether = net.ether_type packet in
      let l3 = from net.ether_size packet in
      if ether == net.ethertype_arp
      then record no_class { is_arp = true }
      else if ether == net.ethertype_ip
      then layer4 (net.ip_p l3) (from (net.ip_hl l3 * 4) l3)
      else if ether == net.ethertype_ipv6
      then layer4 (net.ip6_nxt l3) (from 40 l3)
      else no_class

  -- The packet is stored at the current index in any case; the index moves on if it is printed.
  unfoldable pub pckt_handler : (ℕ → ℕ) → Packet → Capture → Capture
  pckt_handler filter packet s = record {
    id = if print_packet filter (classify packet.bytes) then s.id + 1 else s.id;
    p_index = s.id;
    my_data = if ltb s.id max_packets then update s.my_data s.id (some packet) else s.my_data;
  }

-- `get_port_name` and `get_app_protocol_name`, as the protocols that they name.
pub data Protocol : Type 0 where
  http https dns ftp ssh smtp : Protocol

unfoldable pub get_port_name : ℕ → Option Protocol
get_port_name port =
    if port == 80
    then some http
    else if port == 443
    then some https
    else if port == 53
    then some dns
    else if port == 21
    then some ftp
    else if port == 22
    then some ssh
    else if port == 25
    then some smtp
    else none

-- `none` is "Data".
unfoldable pub get_app_protocol_name : ℕ → Option Protocol
get_app_protocol_name port =
    if port == 80
    then some http
    else if port == 443
    then some https
    else if port == 53
    then some dns
    else none
