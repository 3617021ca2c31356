-- ===== src/Block/Request.antt =====
-- Requests to a block device, src/devices/src/virtio/block/request.rs: reading one from a chain.

use firecracker.Queue.Memory.{GuestMemory}
pub mod Parse
pub mod Accept
use firecracker.Base.{
  ℕ, ◌+◌, ◌*◌, ◌/◌, ◌%◌, ◌^◌, Bool, true, false, not, ◌&&◌, Option, none, some, ltb, leb, ◌==◌,
  if◌then◌else◌, Result, ok, err,
}
use firecracker.Queue.Descriptor.{DescriptorChain, has_next, is_write_only, next_descriptor}

-- The errors of `block::Error` that a request meets.
pub data Error : Type 0 where
  descriptor_chain_too_short : Error
  descriptor_length_too_small : Error
  guest_memory : Error
  invalid_data_length : Error
  invalid_offset : Error
  unexpected_read_only_descriptor : Error
  unexpected_write_only_descriptor : Error

-- `In` is a read of the disk.
pub data RequestType : Type 0 where
  in_request : RequestType
  out_request : RequestType
  flush : RequestType
  get_device_id : RequestType
  unsupported : ℕ → RequestType

unfoldable pub request_type_of : ℕ → RequestType
request_type_of n =
    if n == 0
    then in_request
    else if n == 1
    then out_request
    else if n == 4
    then flush
    else if n == 8
    then get_device_id
    else unsupported n

abbrev pub is_in : RequestType → Bool
is_in in_request = true
is_in _ = false

abbrev pub is_out : RequestType → Bool
is_out out_request = true
is_out _ = false

abbrev pub is_flush : RequestType → Bool
is_flush flush = true
is_flush _ = false

abbrev pub is_get_device_id : RequestType → Bool
is_get_device_id get_device_id = true
is_get_device_id _ = false

pub record RequestHeader : Type 0 where
  pub request_type : ℕ
  pub sector : ℕ

-- What requests do with guest memory beside the descriptors, of the crate vm-memory: `read_obj` of a
-- header, `write_obj` of a byte and `write_slice`.
pub record BlockMemory (M : Type 0) : Type 0 where
  pub guest : GuestMemory M
  pub read_header : M → ℕ → Option RequestHeader
  pub write_u8 : M → ℕ → ℕ → Option M

pub record Request : Type 0 where
  pub type_of : RequestType
  pub data_len : ℕ
  pub status_addr : ℕ
  pub sector : ℕ
  pub data_addr : ℕ

abbrev pub sector_size : ℕ
sector_size = 512

abbrev pub virtio_blk_id_bytes : ℕ
virtio_blk_id_bytes = 20

unfoldable pub header_request : RequestHeader → Request
header_request h = record {
  type_of = request_type_of h.request_type;
  data_len = 0;
  status_addr = 0;
  sector = h.sector;
  data_addr = 0;
}

unfoldable pub check_status : Request → DescriptorChain → Result Error Request
check_status req status_desc =
    if not (is_write_only status_desc)
    then err unexpected_read_only_descriptor
    else if ltb status_desc.len 1
    then err descriptor_length_too_small
    else ok (record req { status_addr = status_desc.addr })

-- `checked_add` of u64 fails where the sum does not fit.
unfoldable pub check_sectors : ℕ → Request → DescriptorChain → Result Error Request
check_sectors num_disk_sectors req status_desc =
    let top_sector = req.sector + req.data_len / sector_size in
    if not (req.data_len % sector_size == 0)
    then err invalid_data_length
    else if leb (2 ^ 64) top_sector
    then err invalid_offset
    else if ltb num_disk_sectors top_sector
    then err invalid_offset
    else check_status req status_desc

unfoldable pub check_request : ℕ → RequestType → Request → DescriptorChain → Result Error Request
check_request num_disk_sectors in_request req status_desc =
    check_sectors num_disk_sectors req status_desc
check_request num_disk_sectors out_request req status_desc =
    check_sectors num_disk_sectors req status_desc
check_request num_disk_sectors get_device_id req status_desc =
    if ltb req.data_len virtio_blk_id_bytes
    then err invalid_data_length
    else check_status req status_desc
check_request num_disk_sectors flush req status_desc = check_status req status_desc
check_request num_disk_sectors (unsupported n) req status_desc = check_status req status_desc

-- The part for a chain with a data descriptor, where its successor holds the status.
unfoldable pub parse_data :
    ℕ → Request → DescriptorChain → Option DescriptorChain → Result Error Request
parse_data num_disk_sectors req data_desc none = err descriptor_chain_too_short
parse_data num_disk_sectors req data_desc (some status_desc) =
    if is_write_only data_desc && is_out req.type_of
    then err unexpected_write_only_descriptor
    else if not (is_write_only data_desc) && is_in req.type_of
    then err unexpected_read_only_descriptor
    else if not (is_write_only data_desc) && is_get_device_id req.type_of
    then err unexpected_read_only_descriptor
    else check_request num_disk_sectors req.type_of
        (record req { data_addr = data_desc.addr; data_len = data_desc.len }) status_desc

module _ {M : Type 0} (bm : BlockMemory M) where
  unfoldable pub parse_next : M → ℕ → Request → Option DescriptorChain → Result Error Request
  parse_next m num_disk_sectors req none = err descriptor_chain_too_short
  parse_next m num_disk_sectors req (some desc) =
      if not (has_next desc)
      then (if is_flush req.type_of
          then check_request num_disk_sectors req.type_of req desc
          else err descriptor_chain_too_short)
      else parse_data num_disk_sectors req desc (next_descriptor bm.guest m desc)

  unfoldable pub parse_header :
      M → DescriptorChain → ℕ → Option RequestHeader → Result Error Request
  parse_header m avail_desc num_disk_sectors none = err guest_memory
  parse_header m avail_desc num_disk_sectors (some h) =
      parse_next m num_disk_sectors (header_request h) (next_descriptor bm.guest m avail_desc)

  unfoldable pub parse : M → DescriptorChain → ℕ → Result Error Request
  parse m avail_desc num_disk_sectors =
      if is_write_only avail_desc
      then err unexpected_write_only_descriptor
      else parse_header m avail_desc num_disk_sectors (bm.read_header m avail_desc.addr)
