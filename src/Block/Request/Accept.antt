-- ===== src/Block/Request/Accept.antt =====
-- The chains that `Request::parse`, src/devices/src/virtio/block/request.rs, accepts.
use firecracker.Base.{ℕ, ◌^◌, ◌<◌, ◌≡◌, refl, true, false, some, ok, arith}
use firecracker.Queue.Descriptor.{DescriptorChain, has_next, is_write_only, next_descriptor}
use firecracker.Block.Request.{
  RequestType, in_request, out_request, flush, get_device_id, unsupported, RequestHeader,
  BlockMemory, Request, header_request, request_type_of, check_status, check_sectors, check_request,
  parse_data, parse_next, parse_header, parse,
}
use firecracker.Block.Request.Parse.{IsData, IsStatus, IsBounded}

module _ (n : ℕ) (req : Request) (s : DescriptorChain) (status : IsStatus req s)
    (fits : n < 2 ^ 54) where
  abbrev before : Request
  before = record req { status_addr = 0 }

  check_status-accepts : check_status before s ≡ ok req
  unfolding check_status
  check_status-accepts = ground arith

  check_request-accepts :
      (t : RequestType) → IsBounded n t req → check_request n t before s ≡ ok req
  unfolding check_request check_sectors
  check_request-accepts in_request b =
      let p = b.transfer refl in ground (arith, check_status-accepts)
  check_request-accepts out_request b =
      let p = b.transfer refl in ground (arith, check_status-accepts)
  check_request-accepts flush b = check_status-accepts
  check_request-accepts get_device_id b =
      let p = b.id_room refl in ground (arith, check_status-accepts)
  check_request-accepts (unsupported k) b = check_status-accepts

  parse_data-accepts :
      (d : DescriptorChain)
      → IsData req d
      → IsBounded n req.type_of req
      → parse_data n (record before { data_addr = 0; data_len = 0 }) d (some s) ≡ ok req
  unfolding parse_data
  parse_data-accepts d x b =
      ground (arith, x.for_in, x.for_out, x.for_id, check_request-accepts req.type_of b)

-- A chain that the guest laid out for a request: a readable head with the header, a data descriptor,
-- and a descriptor for the status.
pub record IsLaidOut {M : Type 0} (bm : BlockMemory M) (m : M) (head : DescriptorChain) (n : ℕ)
    (req : Request) : Type 0 where
  pub readable : is_write_only head ≡ false
  pub header : RequestHeader
  pub at_head : bm.read_header m head.addr ≡ some header
  pub type_is : req.type_of ≡ request_type_of header.request_type
  pub sector_is : req.sector ≡ header.sector
  pub data_desc : DescriptorChain
  pub status_desc : DescriptorChain
  pub first : next_descriptor bm.guest m head ≡ some data_desc
  pub more : has_next data_desc ≡ true
  pub second : next_descriptor bm.guest m data_desc ≡ some status_desc
  pub data_is : IsData req data_desc
  pub status_is : IsStatus req status_desc
  pub bounded : IsBounded n req.type_of req

-- On a disk of fewer than 2 ^ 54 sectors, which no file passes, `parse` accepts every chain that is
-- laid out for a request with data, and returns that request.
pub parse-accepts :
    {M : Type 0} (bm : BlockMemory M) (m : M) (head : DescriptorChain) (n : ℕ) (req : Request)
    → n < 2 ^ 54
    → IsLaidOut bm m head n req
    → parse bm m head n ≡ ok req
unfolding parse parse_header parse_next header_request
parse-accepts bm m head n req fits l =
    simp (l.readable, l.at_head, l.first, l.more, l.second, ← l.type_is, ← l.sector_is)
      (parse_data-accepts n req l.status_desc l.status_is fits l.data_desc l.data_is l.bounded)
