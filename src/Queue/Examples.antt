-- ===== src/Queue/Examples.antt =====
-- Tests of virtio queues, and their theorems at concrete inputs.
use firecracker.Base.{ℕ, ◌<◌, ◌≡◌, refl, Bool, true, some, [], ◌∷◌, arith}
use firecracker.Queue.Descriptor.{
  DescriptorChain, checked_new, read_head, chain_of, is_valid_chain, has_next, count_down,
  next_descriptor,
}
use firecracker.Queue.Rings.{
  try_enable_notification, Queue, returns, new, actual_size, len, pop, is_valid, is_placed,
  out_of_range, avail_idx, and_then, unwrap, pop_of, do_pop_unchecked, advance, slot_addr,
  used_event, prepare_kick,
}
use firecracker.Queue.Chain.{here, then_next, IsWithin, Follows-IsWithin}
use firecracker.Queue.Drain.{none_yet, then_pop, IsDrained, Pops-IsDrained}
use firecracker.Queue.Used.{add_used, OnAdd, add_used-OnAdd}
use firecracker.Queue.Notify.{OnEnable, try_enable_notification-OnEnable}
use firecracker.Queue.Kick.{Crosses, prepare_kick-Crosses}
use firecracker.Queue.Flat.{Bytes, put_u16, flat, flat-IsMemory}

-- A queue of four with its rings, and two chains made available: the loop 1 - 2 - 1 and the last.
abbrev queue : Queue
queue = record (new 256) {
  size = 4;
  ready = true;
  desc_table = 0;
  avail_ring = 256;
  used_ring = 512;
  next_avail = 65_535;
  next_used = 65_535;
  uses_notif_suppression = true;
  num_added = 2;
}

abbrev memory : Bytes
memory =
    let put = put_u16 in
    put (put (put (put (put (put (put (put (λ _. 0) 28 1) 30 2) 44 1) 46 1) 258 1) 266 1) 260 3) 268
      65_534

abbrev chain : ℕ → ℕ → ℕ → ℕ → DescriptorChain
chain index ttl flags next = record {
  desc_table = 0;
  queue_size = 4;
  ttl = ttl;
  index = index;
  addr = 0;
  len = 0;
  flags = flags;
  next = next;
}

is_valid_test : is_valid flat queue memory ≡ returns true
unfolding is_valid is_placed out_of_range len avail_idx and_then unwrap actual_size new
is_valid_test = refl

len_test : len flat queue memory ≡ returns 2
unfolding len avail_idx and_then unwrap actual_size new
len_test = refl

first_test : checked_new flat memory 0 4 1 ≡ some (chain 1 4 1 2)
unfolding checked_new read_head chain_of is_valid_chain has_next
first_test = refl

second_test : next_descriptor flat memory (chain 1 4 1 2) ≡ some (chain 2 3 1 1)
unfolding next_descriptor count_down checked_new read_head chain_of is_valid_chain has_next
second_test = refl

pop_test : pop flat queue memory ≡ returns (some (chain 1 4 1 2), record queue { next_avail = 0 })
unfolding pop pop_of do_pop_unchecked advance slot_addr len avail_idx and_then unwrap actual_size
    new checked_new read_head chain_of is_valid_chain has_next
pop_test = refl

pop_second_test :
    pop flat (record queue { next_avail = 0 }) memory
    ≡ returns (some (chain 3 4 0 0), record queue { next_avail = 1 })
unfolding pop pop_of do_pop_unchecked advance slot_addr len avail_idx and_then unwrap actual_size
    new checked_new read_head chain_of is_valid_chain has_next
pop_second_test = refl

used_event_test : used_event flat queue memory ≡ returns 65_534
unfolding used_event unwrap actual_size new
used_event_test = refl

Follows-IsWithin_example : IsWithin flat memory 0 4 1 (chain 2 3 1 1) × (1 < 4)
Follows-IsWithin_example =
    Follows-IsWithin flat memory 0 4 1 {c = chain 1 4 1 2} first_test (then_next here second_test)

Pops-IsDrained_example :
    IsDrained flat memory queue 2
      (chain 1 4 1 2 ∷ chain 3 4 0 0 ∷ [])
      (record queue { next_avail = 1 })
unfolding actual_size new
Pops-IsDrained_example =
    Pops-IsDrained flat memory queue 2 (omega arith) (omega arith) len_test
      (then_pop pop_test (then_pop pop_second_test none_yet))

add_used-OnAdd_example : OnAdd flat queue memory 3 512 (add_used flat queue memory 3 512)
unfolding actual_size new
add_used-OnAdd_example =
    add_used-OnAdd flat flat-IsMemory queue memory 3 512 (omega arith) (omega arith) (omega arith)

prepare_kick-Crosses_example :
    (b : Bool) × ((prepare_kick flat queue memory ≡ returns (b, record queue { num_added = 0 }))
      × ((b ≡ true → Crosses queue 65_534) × (Crosses queue 65_534 → b ≡ true)))
prepare_kick-Crosses_example =
    prepare_kick-Crosses flat queue memory 65_534 refl used_event_test (omega arith) (omega arith)
      (omega arith)

-- All chains popped.
abbrev drained : Queue
drained = record queue { next_avail = 1 }

try_enable_notification-OnEnable_example :
    OnEnable flat drained memory (try_enable_notification flat drained memory)
unfolding actual_size new
try_enable_notification-OnEnable_example =
    try_enable_notification-OnEnable flat flat-IsMemory drained (omega arith) (omega arith)
      (omega arith) memory refl
