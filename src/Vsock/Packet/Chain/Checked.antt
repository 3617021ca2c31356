-- ===== src/Vsock/Packet/Chain/Checked.antt =====
-- What a packet read off a chain promises, src/devices/src/virtio/vsock/packet.rs.
use firecracker.Base.{
  ◌≤◌, ◌≡◌, refl, Bool, true, false, not, Option, none, some, ltb, ◌==◌, Result, ok, err, arith,
  if-split, ap, sym, ◌∙◌, if◌then◌else◌,
}
use mathlib.Core.Option.{none-ne-some}
use firecracker.Queue.Descriptor.{DescriptorChain, is_write_only, next_descriptor}
use firecracker.Vsock.Packet.{
  GuestMemoryError, VsockError, guest_memory_bounds, hdr_desc_too_small, VsockPacketHeader,
  VsockPacket,
}
use firecracker.Vsock.Packet.Chain.{
  PacketMemory, vsock_pkt_hdr_size, max_pkt_buf_size, default_header, bare_packet,
  check_desc_write_only, unless, first_error, check_len, check_buf, check_hdr_desc, init_buf_at,
  init_buf, tx_packet, from_tx_virtq_head, from_rx_virtq_head,
}

pub data OnPacket (P : VsockPacket → Type 0) : Result VsockError VsockPacket → Type 0 where
  refused : {e : VsockError} → OnPacket P (err e)
  accepted : {pkt : VsockPacket} → P pkt → OnPacket P (ok pkt)

weaken_packet :
    {P Q : VsockPacket → Type 0} (r : Result VsockError VsockPacket)
    → ((p : VsockPacket) → P p → Q p)
    → OnPacket P r
    → OnPacket Q r
weaken_packet (err e) f h = refused
weaken_packet (ok p) f (accepted h) = accepted (f p h)

with_fact :
    {F : Type 0} {P : VsockPacket → Type 0} (r : Result VsockError VsockPacket)
    → F
    → OnPacket P r
    → OnPacket (λ p. F × P p) r
with_fact r fact h = weaken_packet r (λ p q. (fact, q)) h

module _ {M : Type 0} (pm : PacketMemory M) (m : M) (head : DescriptorChain) where
  -- The header is in guest memory and in its descriptor, which has the direction.
  pub record IsHeader (direction : Bool) : Type 0 where
    pub way : is_write_only head ≡ direction
    pub inside : pm.check_range m head.addr vsock_pkt_hdr_size ≡ true
    pub room : vsock_pkt_hdr_size ≤ head.len

  -- The buffer is the next descriptor, in guest memory and of the direction.
  pub record HasBuffer (direction : Bool) (pkt : VsockPacket) : Type 0 where
    pub desc : DescriptorChain
    pub linked : next_descriptor pm.guest m head ≡ some desc
    pub way : is_write_only desc ≡ direction
    pub inside : pm.check_range m desc.addr desc.len ≡ true
    pub address : pkt.buf_addr ≡ some desc.addr
    pub size_is : pkt.buf_size ≡ desc.len

  pub data IsTx (pkt : VsockPacket) : Type 0 where
    without_data :
        pm.read_header m head.addr ≡ ok pkt.hdr → pkt.hdr.len ≡ 0 → pkt.buf_addr ≡ none → IsTx pkt
    with_data :
        pm.read_header m head.addr ≡ ok pkt.hdr
        → HasBuffer false pkt
        → pkt.hdr.len ≤ max_pkt_buf_size
        → pkt.hdr.len ≤ pkt.buf_size
        → IsTx pkt

  pub record IsRx (pkt : VsockPacket) : Type 0 where
    pub blank : pkt.hdr ≡ default_header
    pub buffer : HasBuffer true pkt

  unless-OnPacket :
      {P : VsockPacket → Type 0} (o : Option VsockError) (r : Result VsockError VsockPacket)
      → (o ≡ none → OnPacket P r)
      → OnPacket P (unless o r)
  unfolding unless
  unless-OnPacket none r f = f refl
  unless-OnPacket (some e) r f = refused

  direction_lem :
      (desc : DescriptorChain) (expected : Bool)
      → check_desc_write_only desc expected ≡ none
      → is_write_only desc ≡ expected
  unfolding check_desc_write_only
  direction_lem desc true e = ground (arith, e)
  direction_lem desc false e = ground (arith, e)

  no_error : (o p : Option VsockError) → first_error o p ≡ none → (o ≡ none) × (p ≡ none)
  unfolding first_error
  no_error none p e = (refl, e)
  no_error (some x) p e = absurd (none-ne-some x (sym e))

  check_hdr_desc-IsHeader :
      (direction : Bool) → check_hdr_desc pm m head direction ≡ none → IsHeader direction
  unfolding check_hdr_desc
  check_hdr_desc-IsHeader direction e =
      let (way, bounds) =
        no_error (check_desc_write_only head direction)
          (if not (pm.check_range m head.addr vsock_pkt_hdr_size)
            then some guest_memory_bounds
            else if ltb head.len vsock_pkt_hdr_size
            then some (hdr_desc_too_small head.len)
            else none)
          e in
      record {
        way = direction_lem head direction way;
        inside = ground (arith, bounds);
        room = ground (arith, bounds);
      }

  -- The header stays, and the buffer is the next descriptor.
  init_buf_at-HasBuffer :
      (direction : Bool) (pkt : VsockPacket) (o : Option DescriptorChain)
      → next_descriptor pm.guest m head ≡ o
      → OnPacket (λ p. HasBuffer direction p × (p.hdr ≡ pkt.hdr)) (init_buf_at pm m pkt direction o)
  unfolding init_buf_at
  init_buf_at-HasBuffer direction pkt none e = refused
  init_buf_at-HasBuffer direction pkt (some desc) e =
      let P : VsockPacket → Type 0 = λ p. HasBuffer direction p × (p.hdr ≡ pkt.hdr) in
      unless-OnPacket (check_desc_write_only desc direction) _ (λ way.
        if-split (OnPacket P) (not (pm.check_range m desc.addr desc.len)) (λ _. refused)
          (λ t. accepted (
            record {
              desc = desc;
              linked = e;
              way = direction_lem desc direction way;
              inside = ground (arith, t);
              address = refl;
              size_is = refl;
            },
            refl,
          )))

  check_buf-IsTx :
      (hdr : VsockPacketHeader) (r : Result VsockError VsockPacket)
      → pm.read_header m head.addr ≡ ok hdr
      → hdr.len ≤ max_pkt_buf_size
      → OnPacket (λ p. HasBuffer false p × (p.hdr ≡ hdr)) r
      → OnPacket IsTx (check_buf r)
  unfolding check_buf
  check_buf-IsTx hdr (err e) h le f = refused
  check_buf-IsTx hdr (ok pkt) h le (accepted (b, same)) =
      let same_len : pkt.hdr.len ≡ hdr.len = ap (λ (x : VsockPacketHeader). x.len) same in
      if-split (OnPacket IsTx) (ltb pkt.buf_size pkt.hdr.len) (λ _. refused)
        (λ t. accepted (
          with_data (h ∙ sym (ap (λ (x : VsockPacketHeader). ok x) same)) b
            (omega (arith, le, same_len)) (ground (arith, t))))

  tx_packet-IsTx :
      (r : Result GuestMemoryError VsockPacketHeader)
      → pm.read_header m head.addr ≡ r
      → OnPacket IsTx (tx_packet pm m head r)
  unfolding tx_packet init_buf check_len
  tx_packet-IsTx (err e) h = refused
  tx_packet-IsTx (ok hdr) h =
      let pkt = bare_packet head.addr hdr in
      if-split (OnPacket IsTx) (hdr.len == 0)
        (λ t. accepted (without_data h (ground (arith, t)) refl))
        (λ _. unless-OnPacket (check_len pkt) _ (λ t.
          check_buf-IsTx hdr _ h (ground (arith, t))
            (init_buf_at-HasBuffer false pkt (next_descriptor pm.guest m head) refl)))

  -- A packet read off a chain of the guest has its header in a readable descriptor in guest memory.
  -- It has no data, or at most 64 KiB in the next descriptor, which is readable, in guest memory
  -- and as large as the header says. A packet to fill in has an empty header, its header in a
  -- writable descriptor and its buffer in the next, which is writable and in guest memory.
  pub from_virtq_head-IsChecked :
      OnPacket (λ p. IsHeader false × IsTx p) (from_tx_virtq_head pm m head)
      × OnPacket (λ p. IsHeader true × IsRx p) (from_rx_virtq_head pm m head)
  unfolding from_tx_virtq_head from_rx_virtq_head init_buf
  from_virtq_head-IsChecked =
      let P : VsockPacket → Type 0 = λ p. IsHeader false × IsTx p in
      (
        unless-OnPacket (check_hdr_desc pm m head false) _ (λ t.
            if-split (OnPacket P) (not (pm.check_range m head.addr vsock_pkt_hdr_size))
              (λ _. refused)
              (λ _.
                with_fact _ (check_hdr_desc-IsHeader false t)
                  (tx_packet-IsTx (pm.read_header m head.addr) refl))),
        unless-OnPacket (check_hdr_desc pm m head true) _ (λ t.
            with_fact _ (check_hdr_desc-IsHeader true t) (
              weaken_packet _ (λ p f. record { blank = f.1; buffer = f.0 })
                (init_buf_at-HasBuffer true (bare_packet head.addr default_header)
                  (next_descriptor pm.guest m head) refl))),
      )
