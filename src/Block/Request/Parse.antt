-- ===== src/Block/Request/Parse.antt =====
-- What a request read from a chain promises, src/devices/src/virtio/block/request.rs.
use firecracker.Base.{
  ℕ, ◌+◌, ◌*◌, ◌/◌, ◌%◌, ◌^◌, ◌≤◌, ◌≡◌, refl, sym, ◌∙◌, true, false, not, ◌&&◌, ◌||◌, Option, none,
  some, ltb, leb, ◌==◌, Result, ok, err, arith, if-split,
}
use mathlib.Core.Path.{subst}
use mathlib.Core.Bool.{true≢false}
use firecracker.Queue.Descriptor.{DescriptorChain, has_next, is_write_only, next_descriptor}
use firecracker.Block.Request.{
  Error, RequestType, in_request, out_request, flush, get_device_id, unsupported, is_in, is_out,
  is_flush, is_get_device_id, RequestHeader, BlockMemory, Request, sector_size, virtio_blk_id_bytes,
  header_request, check_status, check_sectors, check_request, parse_data, parse_next, parse_header,
  parse,
}

-- The data descriptor of a request, writable by the device where the device has to write to it.
pub record IsData (req : Request) (d : DescriptorChain) : Type 0 where
  pub address : req.data_addr ≡ d.addr
  pub length_is : req.data_len ≡ d.len
  pub for_in : is_in req.type_of ≡ true → is_write_only d ≡ true
  pub for_out : is_out req.type_of ≡ true → is_write_only d ≡ false
  pub for_id : is_get_device_id req.type_of ≡ true → is_write_only d ≡ true

pub record IsStatus (req : Request) (s : DescriptorChain) : Type 0 where
  pub address : req.status_addr ≡ s.addr
  pub writable : is_write_only s ≡ true
  pub room : 1 ≤ s.len

-- A transfer stays on the disk, and the identifier has room.
pub record IsBounded (num_disk_sectors : ℕ) (t : RequestType) (req : Request) : Type 0 where
  pub transfer :
      is_in t || is_out t ≡ true
      → (req.data_len % sector_size ≡ 0)
        × (req.sector * sector_size + req.data_len ≤ num_disk_sectors * sector_size)
  pub id_room : is_get_device_id t ≡ true → virtio_blk_id_bytes ≤ req.data_len

-- Where the descriptors of the request lie in its chain.
pub data Layout {M : Type 0} (bm : BlockMemory M) (m : M) (head : DescriptorChain) (req : Request)
    : Type 0 where
  bare :
      (s : DescriptorChain)
      → next_descriptor bm.guest m head ≡ some s
      → is_flush req.type_of ≡ true
      → IsStatus req s
      → Layout bm m head req
  with_data :
      (d s : DescriptorChain)
      → next_descriptor bm.guest m head ≡ some d
      → next_descriptor bm.guest m d ≡ some s
      → IsData req d
      → IsStatus req s
      → Layout bm m head req

-- A request, or an error.
pub data OnParse (P : Request → Type 0) : Result Error Request → Type 0 where
  refused : {e : Error} → OnParse P (err e)
  parsed : {req : Request} → P req → OnParse P (ok req)

weaken :
    {P Q : Request → Type 0} (r : Result Error Request)
    → ((req : Request) → P req → Q req)
    → OnParse P r
    → OnParse Q r
weaken (err e) f h = refused
weaken (ok req) f (parsed p) = parsed (f req p)

-- What the checks at the end keep of the request, and what they add.
record IsChecked (num_disk_sectors : ℕ) (t : RequestType) (old : Request) (s : DescriptorChain)
    (req : Request) : Type 0 where
  only_status : req ≡ record old { status_addr = s.addr }
  status : IsStatus req s
  bounded : IsBounded num_disk_sectors t req

no_bounds :
    {num_disk_sectors : ℕ} {t : RequestType} {req : Request}
    → is_in t || is_out t ≡ false
    → is_get_device_id t ≡ false
    → IsBounded num_disk_sectors t req
no_bounds e f = record {
  transfer = λ t. absurd (true≢false (sym t ∙ e));
  id_room = λ t. absurd (true≢false (sym t ∙ f));
}

module _ (num_disk_sectors : ℕ) (req : Request) (s : DescriptorChain) where
  check_status-IsChecked :
      (t : RequestType)
      → IsBounded num_disk_sectors t (record req { status_addr = s.addr })
      → OnParse (IsChecked num_disk_sectors t req s) (check_status req s)
  unfolding check_status
  check_status-IsChecked t b =
      let P = OnParse (IsChecked num_disk_sectors t req s) in
      if-split P (not (is_write_only s)) (λ _. refused)
        (λ w.
          if-split P (ltb s.len 1) (λ _. refused)
            (λ l. parsed (record {
              only_status = refl;
              status = record { address = refl; writable = ground arith; room = ground arith };
              bounded = b;
            })))

  check_sectors-IsChecked :
      (t : RequestType)
      → is_get_device_id t ≡ false
      → OnParse (IsChecked num_disk_sectors t req s) (check_sectors num_disk_sectors req s)
  unfolding check_sectors
  check_sectors-IsChecked t no_id =
      let P = OnParse (IsChecked num_disk_sectors t req s) in
      let top = req.sector + req.data_len / sector_size in
      if-split P (not (req.data_len % sector_size == 0)) (λ _. refused)
        (λ whole.
          if-split P (leb (2 ^ 64) top) (λ _. refused)
            (λ _.
              if-split P (ltb num_disk_sectors top) (λ _. refused)
                (λ inside. check_status-IsChecked t (record {
                  transfer = λ _. (ground arith, ground arith);
                  id_room = λ i. absurd (true≢false (sym i ∙ no_id));
                }))))

  -- The other requests have no bounds.
  check_request-IsChecked :
      (t : RequestType)
      → OnParse (IsChecked num_disk_sectors t req s) (check_request num_disk_sectors t req s)
  unfolding check_request
  check_request-IsChecked in_request = check_sectors-IsChecked in_request refl
  check_request-IsChecked out_request = check_sectors-IsChecked out_request refl
  check_request-IsChecked flush = check_status-IsChecked flush (no_bounds refl refl)
  check_request-IsChecked get_device_id =
      if-split (OnParse (IsChecked num_disk_sectors get_device_id req s))
        (ltb req.data_len virtio_blk_id_bytes) (λ _. refused)
        (λ l.
          check_status-IsChecked get_device_id
            (record { transfer = λ e. absurd (true≢false (sym e)); id_room = λ _. ground arith }))
  check_request-IsChecked (unsupported n) =
      check_status-IsChecked (unsupported n) (no_bounds refl refl)

-- A request that was read from a chain.
pub record IsParsed {M : Type 0} (bm : BlockMemory M) (m : M) (head : DescriptorChain)
    (num_disk_sectors : ℕ) (req : Request) : Type 0 where
  pub readable : is_write_only head ≡ false
  pub layout : Layout bm m head req
  pub bounded : IsBounded num_disk_sectors req.type_of req

module _ {M : Type 0} (bm : BlockMemory M) (m : M) (head : DescriptorChain) (num_disk_sectors : ℕ)
    (readable : is_write_only head ≡ false) where
  abbrev Allowed : Result Error Request → Type 0
  Allowed = OnParse (IsParsed bm m head num_disk_sectors)

  with_data-Allowed :
      (old : Request) (d s : DescriptorChain)
      → next_descriptor bm.guest m head ≡ some d
      → next_descriptor bm.guest m d ≡ some s
      → IsData old d
      → OnParse
          (IsChecked num_disk_sectors old.type_of old s)
          (check_request num_disk_sectors old.type_of old s)
      → Allowed (check_request num_disk_sectors old.type_of old s)
  with_data-Allowed old d s e f data_is =
      weaken (check_request num_disk_sectors old.type_of old s) (λ req c.
        subst
          (λ r.
            IsStatus r s
            → IsBounded num_disk_sectors old.type_of r
            → IsParsed bm m head num_disk_sectors r)
          (sym (c.only_status))
          (λ st b. record {
            readable = readable;
            layout =
                with_data d s e f
                  (record {
                    address = data_is.address;
                    length_is = data_is.length_is;
                    for_in = data_is.for_in;
                    for_out = data_is.for_out;
                    for_id = data_is.for_id;
                  })
                  st;
            bounded = b;
          })
          c.status c.bounded)

  bare-Allowed :
      (old : Request) (s : DescriptorChain)
      → next_descriptor bm.guest m head ≡ some s
      → is_flush old.type_of ≡ true
      → OnParse
          (IsChecked num_disk_sectors old.type_of old s)
          (check_request num_disk_sectors old.type_of old s)
      → Allowed (check_request num_disk_sectors old.type_of old s)
  bare-Allowed old s e f = weaken (check_request num_disk_sectors old.type_of old s) (λ req c.
      subst
        (λ r.
          IsStatus r s
          → IsBounded num_disk_sectors old.type_of r
          → IsParsed bm m head num_disk_sectors r)
        (sym (c.only_status))
        (λ st b. record { readable = readable; layout = bare s e f st; bounded = b }) c.status
        c.bounded)

  parse_data-Allowed :
      (req : Request) (d : DescriptorChain) (o : Option DescriptorChain)
      → next_descriptor bm.guest m head ≡ some d
      → next_descriptor bm.guest m d ≡ o
      → Allowed (parse_data num_disk_sectors req d o)
  unfolding parse_data
  parse_data-Allowed req d none e f = refused
  parse_data-Allowed req d (some s) e f =
      let old : Request = record req { data_addr = d.addr; data_len = d.len } in
      let w = is_write_only d in
      if-split Allowed (w && is_out req.type_of) (λ _. refused)
        (λ t.
          if-split Allowed (not w && is_in req.type_of) (λ _. refused)
            (λ u.
              if-split Allowed (not w && is_get_device_id req.type_of) (λ _. refused)
                (λ v.
                  with_data-Allowed old d s e f
                    (record {
                      address = refl;
                      length_is = refl;
                      for_in = λ i. ground arith;
                      for_out = λ i. ground arith;
                      for_id = λ i. ground arith;
                    })
                    (check_request-IsChecked num_disk_sectors old s req.type_of))))

  parse_next-Allowed :
      (req : Request) (o : Option DescriptorChain)
      → next_descriptor bm.guest m head ≡ o
      → Allowed (parse_next bm m num_disk_sectors req o)
  unfolding parse_next
  parse_next-Allowed req none e = refused
  parse_next-Allowed req (some d) e =
      if-split Allowed (not (has_next d))
        (λ _.
          if-split Allowed (is_flush req.type_of)
            (λ f.
              bare-Allowed req d e f (check_request-IsChecked num_disk_sectors req d req.type_of))
            (λ _. refused))
        (λ _. parse_data-Allowed req d (next_descriptor bm.guest m d) e refl)

-- A request that `parse` returns was read from a readable head and lies in its chain: the status
-- byte is in a writable descriptor; the data, which a flush may leave out, is in a descriptor that
-- the device may write for a read of the disk or of its identifier, and only read for a write. A
-- transfer is of whole sectors and ends on the disk; an identifier has its 20 bytes.
pub parse-IsParsed :
    {M : Type 0} (bm : BlockMemory M) (m : M) (head : DescriptorChain) (num_disk_sectors : ℕ)
    → OnParse (IsParsed bm m head num_disk_sectors) (parse bm m head num_disk_sectors)
unfolding parse parse_header
parse-IsParsed bm m head n =
    if-split (OnParse (IsParsed bm m head n)) (is_write_only head) (λ _. refused)
      (λ r. go r (bm.read_header m head.addr))
  where
    go :
        is_write_only head ≡ false
        → (o : Option RequestHeader) → OnParse (IsParsed bm m head n) (parse_header bm m head n o)
    go r none = refused
    go r (some h) =
        parse_next-Allowed bm m head n r (header_request h) (next_descriptor bm.guest m head) refl
