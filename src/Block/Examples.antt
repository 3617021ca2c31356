-- ===== src/Block/Examples.antt =====
-- Tests of block requests, and their theorems at concrete inputs.
use firecracker.Base.{◌+◌, ◌≡◌, refl, some, ok, arith}
use firecracker.Queue.Flat.{Bytes, put_u16, get_u32, flat}
use firecracker.Queue.Descriptor.{
  DescriptorChain, is_write_only, has_next, next_descriptor, checked_new, read_head, chain_of,
  is_valid_chain, count_down,
}
use mathlib.Core.Bool.{Bool, true}
use firecracker.Base.{ℕ, min}
use firecracker.Block.Finish.{FileEngine, done_later, done_now, not_done}
use firecracker.Block.Request.{BlockMemory, Request, in_request, request_type_of, parse}
use firecracker.Block.Request.Parse.{OnParse, IsParsed, parse-IsParsed}
use firecracker.Block.Request.Accept.{IsLaidOut, parse-accepts}

abbrev block_memory : BlockMemory Bytes
block_memory = record {
  guest = flat;
  read_header = λ m a. some (record { request_type = get_u32 m a; sector = get_u32 m (a + 8) });
  write_u8 = λ m a v. some (put_u16 m a v);
}

-- A table of three descriptors at 0, which chain a header at 256, a sector at 512 and a status byte:
-- a read of the sector 5 of the disk.
abbrev memory : Bytes
memory =
    let put = put_u16 in
    put (put (put (put (put (put (put (put (λ _. 0) 0 256) 12 1) 14 1) 16 512) 24 512) 28 3) 30 2)
      (32 + 12) 2

abbrev full_memory : Bytes
full_memory = let put = put_u16 in put (put (put memory 32 1024) 40 1) 264 5

abbrev head : DescriptorChain
head = record {
  desc_table = 0;
  queue_size = 4;
  ttl = 4;
  index = 0;
  addr = 256;
  len = 0;
  flags = 1;
  next = 1;
}

abbrev data_chain : DescriptorChain
data_chain = record {
  desc_table = 0;
  queue_size = 4;
  ttl = 3;
  index = 1;
  addr = 512;
  len = 512;
  flags = 3;
  next = 2;
}

abbrev status_chain : DescriptorChain
status_chain = record {
  desc_table = 0;
  queue_size = 4;
  ttl = 2;
  index = 2;
  addr = 1024;
  len = 1;
  flags = 2;
  next = 0;
}

abbrev request : Request
request = record {
  type_of = in_request;
  data_len = 512;
  status_addr = 1024;
  sector = 5;
  data_addr = 512;
}

first_test : next_descriptor flat full_memory head ≡ some data_chain
unfolding next_descriptor count_down checked_new read_head chain_of is_valid_chain has_next
first_test = refl

second_test : next_descriptor flat full_memory data_chain ≡ some status_chain
unfolding next_descriptor count_down checked_new read_head chain_of is_valid_chain has_next
second_test = refl

parse-IsParsed_example :
    OnParse (IsParsed block_memory full_memory head 6) (parse block_memory full_memory head 6)
parse-IsParsed_example = parse-IsParsed block_memory full_memory head 6

request-IsLaidOut : IsLaidOut block_memory full_memory head 6 request
unfolding is_write_only has_next request_type_of
request-IsLaidOut = record {
  readable = refl;
  header = record { request_type = 0; sector = 5 };
  at_head = refl;
  type_is = refl;
  sector_is = refl;
  data_desc = data_chain;
  status_desc = status_chain;
  first = first_test;
  more = refl;
  second = second_test;
  data_is = record {
    address = refl;
    length_is = refl;
    for_in = λ _. refl;
    for_out = λ e. cc;
    for_id = λ e. refl;
  };
  status_is = record { address = refl; writable = refl; room = omega arith };
  bounded = record { transfer = λ _. (omega arith, omega arith); id_room = λ e. cc };
}

parse-accepts_example : parse block_memory full_memory head 6 ≡ ok request
parse-accepts_example =
    parse-accepts block_memory full_memory head 6 request (omega arith) request-IsLaidOut

-- An engine of which the file has but 100 bytes for each request.
abbrev engine : FileEngine ℕ Bytes
engine = record {
  read = λ at addr len p e m. (done_now (min len 100), (e, m));
  write = λ at addr len p e m. (done_later, (e, m));
  flush_file = λ p e m. (not_done true, (e, m));
  kick = λ e. e;
}
