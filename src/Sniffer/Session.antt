-- ===== src/Sniffer/Session.antt =====
-- Terminal-Packet-Sniffer/func.c: what a capture leaves for the inspection of the last session.
use native.Mathlib.Nat.{add-zero}
use os_network_concurrency_s.Common.{
  ℕ, zero, suc, ◌+◌, ◌≡◌, ◌<◌, if◌then◌else◌, Bool, true, arith, refl, List, [], ◌∷◌, length,
  get_elem?, Bool-cases, inl, inr,
}
use os_network_concurrency_s.Sniffer.Handler.{
  Headers, Packet, Capture, max_packets, classify, print_packet, pckt_handler,
}

module _ (net : Headers) (filter : ℕ → ℕ) where
  -- `pcap_loop`: the handler on each packet in turn.
  pub capture : List Packet → Capture → Capture
  capture [] s = s
  capture (p ∷ ps) s = capture ps (pckt_handler net filter p s)

  abbrev pub printed? : Packet → Bool
  printed? p = print_packet filter (classify net p.bytes)

  -- The packets that the filter lets through.
  abbrev pub printed : List Packet → List Packet
  printed [] = []
  printed (p ∷ ps) = if printed? p then p ∷ printed ps else printed ps

  -- What a capture has done from `s` to `t`.
  pub record Captured (s t : Capture) (ps : List Packet) : Type 0 where
    pub counted : t.id ≡ s.id + length (printed ps)
    pub kept : (i : ℕ) → i < s.id → t.my_data i ≡ s.my_data i
    pub stored :
        (i : ℕ)
        → i < length (printed ps)
        → s.id + i < max_packets
        → t.my_data (s.id + i) ≡ get_elem? (printed ps) i

  stored_shown :
      (p : Packet) (ps : List Packet) (s : Capture)
      → Captured (pckt_handler net filter p s) (capture ps (pckt_handler net filter p s)) ps
      → printed? p ≡ true
      → (i : ℕ) → i < length (printed (p ∷ ps))
      → s.id + i < max_packets
      → (capture ps (pckt_handler net filter p s)).my_data (s.id + i)
        ≡ get_elem? (printed (p ∷ ps)) i
  unfolding pckt_handler
  stored_shown p ps s r shown zero h lt = rw (add-zero, shown) (ground (arith, shown, r.kept s.id))
  stored_shown p ps s r shown (suc j) h lt = ground (arith, shown, r.stored j)

  capture-Captured : (ps : List Packet) (s : Capture) → Captured s (capture ps s) ps
  unfolding capture pckt_handler
  capture-Captured [] s = record {
    counted = omega arith;
    kept = λ i h. refl;
    stored = λ i h lt. absurd (omega arith);
  }
  capture-Captured (p ∷ ps) s =
      let s' = pckt_handler net filter p s in
      let r : Captured s' (capture ps s') ps = capture-Captured ps s' in
      record {
        counted = ground (arith, r.counted);
        kept = λ i h. ground (arith, r.kept i);
        stored = λ i h lt. elim (Bool-cases (printed? p)) [
          | inl shown ↦ stored_shown p ps s r shown i h lt
          | inr hidden ↦ ground (arith, hidden, r.stored i)
        ];
      }

  -- After a capture that started at index 0, the index is the number of packets that the filter let
  -- through, and the first MAX_PACKETS of those are in `my_data`, in order.
  pub capture-stores :
      (ps : List Packet) (s : Capture)
      → s.id ≡ 0
      → ((capture ps s).id ≡ length (printed ps))
        × ((i : ℕ)
            → i < length (printed ps)
            → i < max_packets
            → (capture ps s).my_data i ≡ get_elem? (printed ps) i)
  capture-stores ps s z =
      let r : Captured s (capture ps s) ps = capture-Captured ps s in
      (ground (arith, r.counted, z), λ i h lt. ground (arith, r.stored i, z))
