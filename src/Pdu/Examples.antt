-- ===== src/Pdu/Examples.antt =====
-- Tests of the packets, and their theorems at concrete inputs.
use firecracker.Base.{◌≡◌, refl, true, some, ok, err, arith}
use firecracker.Pdu.Bytes.{Bytes, bind, byte, ntohs_unchecked, byte_or_zero}
use firecracker.Pdu.Ipv4.{
  from_bytes, version_and_header_len, total_len, checked, write_header, with_payload_len_unchecked,
  invalid_version,
}
use firecracker.Pdu.Udp.{write_incomplete_datagram, finalize}
use firecracker.Pdu.Udp
use firecracker.Pdu.Udp.Roundtrip.{finalize-from_bytes}
use firecracker.Pdu.Ipv4.Roundtrip.{IsRead, write_header-IsRead}
use firecracker.Pdu.Ethernet.{MacAddr, new_with_header}
use firecracker.Pdu.Ethernet
use firecracker.Pdu.Ethernet.Roundtrip.{new_with_header-IsRead}
use firecracker.Pdu.Arp.{bad_operation, request_from_bytes, write_request, write_reply}
use firecracker.Pdu.Arp
use firecracker.Pdu.Arp.Roundtrip.{write_request-IsRead}

abbrev blank : Bytes
blank = record { len = 64; at = λ i. 7 }

-- The version is 0.
old_version : from_bytes true blank ≡ some (err invalid_version)
unfolding from_bytes version_and_header_len bind byte total_len ntohs_unchecked byte_or_zero checked
old_version = refl

write_header-IsRead_example :
    (h : Bytes) × ((p : Bytes) × ((write_header 6 2_852_039_166 2_852_039_167 blank ≡ some (ok h))
        × ((with_payload_len_unchecked 8 true h ≡ some p)
            × IsRead 6 2_852_039_166 2_852_039_167 8 blank p)))
write_header-IsRead_example =
    write_header-IsRead 6 2_852_039_166 2_852_039_167 8 blank (omega arith) (omega arith)
      (omega arith) (λ i. omega arith) (omega arith) (omega arith) (omega arith)

abbrev odd_payload : Bytes
odd_payload = record { len = 3; at = λ i. 9 }

finalize-from_bytes_example :
    (h : Bytes) × ((p : Bytes) × ((write_incomplete_datagram odd_payload blank ≡ some (ok h))
        × ((finalize 53 1_024 (some (2_852_039_166, 2_852_039_167)) h ≡ some p)
            × Udp.Roundtrip.IsRead 2_852_039_166 2_852_039_167 53 1_024 odd_payload blank p)))
finalize-from_bytes_example =
    finalize-from_bytes 2_852_039_166 2_852_039_167 53 1_024 odd_payload blank (omega arith)
      (omega arith) (omega arith) (omega arith) (λ i. omega arith) (λ i. omega arith) (omega arith)
      (omega arith)

abbrev here : MacAddr
here = record { m0 = 6; m1 = 1; m2 = 2; m3 = 3; m4 = 4; m5 = 5 }

abbrev everyone : MacAddr
everyone = record { m0 = 255; m1 = 255; m2 = 255; m3 = 255; m4 = 255; m5 = 255 }

new_with_header-IsRead_example :
    (h : Bytes) × ((p : Bytes) × ((new_with_header everyone here 2_054 blank ≡ some (ok h))
        × ((Ethernet.with_payload_len_unchecked 28 h ≡ some p)
            × Ethernet.Roundtrip.IsRead everyone here 2_054 28 blank p)))
new_with_header-IsRead_example =
    new_with_header-IsRead everyone here 2_054 28 blank (omega arith) (omega arith) (omega arith)

abbrev arp_slice : Bytes
arp_slice = record { len = 28; at = λ i. 7 }

write_request-IsRead_example :
    (p : Bytes) × ((q : Bytes) × ((write_request here 2_852_039_166 everyone 2_852_039_167 arp_slice
          ≡ some (ok p))
        × ((write_reply here 2_852_039_166 everyone 2_852_039_167 arp_slice ≡ some (ok q))
            × ((request_from_bytes p ≡ some (ok p))
                × ((request_from_bytes q ≡ some (err bad_operation))
                    × (Arp.Roundtrip.IsRead here 2_852_039_166 everyone 2_852_039_167 arp_slice 1 p
                        × Arp.Roundtrip.IsRead here 2_852_039_166 everyone 2_852_039_167 arp_slice 2
                            q))))))
write_request-IsRead_example =
    write_request-IsRead here 2_852_039_166 everyone 2_852_039_167 arp_slice refl (omega arith)
      (omega arith)
