-- ===== src/Bus/Owners.antt =====
-- `Bus::insert`, src/devices/src/bus.rs: devices do not overlap, and each keeps its addresses.
use firecracker.Base.{
  ℕ, ◌+◌, ◌-◌, ◌^◌, ◌≤◌, ◌<◌, ◌≡◌, ◌⊎◌, inl, inr, refl, ap, sym, ◌∙◌, Bool, true, false, ◌&&◌,
  Option, some, [], ◌∷◌, ltb, leb, ◌==◌, if◌then◌else◌, u64, Result, ok, err, if-split, Bool-cases,
  arith,
}
use mathlib.Core.Path.{subst}
use mathlib.Core.Bool.{true≢false}
use firecracker.Bus.{
  Error, overlap, Entry, Bus, first_before, get_device, put, has_start, is_some, starts_after,
  insert,
}
use firecracker.Bus.Lookup.{
  get_device-cases, before_all, here_lem, past_lem, skip_lem, not_here, none_lem, found,
}

abbrev pub in_range : ℕ → ℕ → ℕ → Bool
in_range base len addr = leb base addr && ltb addr (base + len)

module _ {D : Type 0} where
  -- The ranges have addresses, end at the bound and do not overlap; the highest is the first.
  abbrev pub Below : ℕ → Bus D → Type 0
  Below bound [] = Unit
  Below bound (e ∷ es) = (e.start + e.len ≤ bound) × (0 < e.len) × Below e.start es

  -- What is in no range of the bus.
  abbrev Fits : ℕ → ℕ → Bus D → Type 0
  Fits base len [] = Unit
  Fits base len (e ∷ es) = ((base + len ≤ e.start) ⊎ (e.start + e.len ≤ base)) × Fits base len es

  -- The outcome of an insertion.
  pub data OnInsert (device : D) (base len : ℕ) (bus : Bus D)
      : Result {0, 0} Error Unit × Bus D → Type 0 where
    empty : len ≡ 0 → OnInsert device base len bus (err overlap, bus)
    taken :
        (addr : ℕ)
        → base ≤ addr
        → addr < base + len
        → is_some (get_device addr bus) ≡ true
        → OnInsert device base len bus (err overlap, bus)
    inserted :
        {bus' : Bus D}
        → Below (2 ^ 64) bus'
        → ((addr : ℕ)
            → get_device addr bus' ≡ (
                if in_range base len addr then some (addr - base, device) else get_device addr bus))
        → OnInsert device base len bus (ok tt, bus')

  Below-Fits :
      (base len bound : ℕ) (bus : Bus D) → bound ≤ base → Below bound bus → Fits base len bus
  Below-Fits base len bound [] le v = tt
  Below-Fits base len bound (e ∷ es) le (top, some_len, rest) =
      (inr (omega (arith, le, top)), Below-Fits base len e.start es (omega (arith, le, top)) rest)

  -- Where the checks find nothing, the range fits.
  checked-Fits :
      (base len bound : ℕ) (bus : Bus D)
      → 0 < len
      → Below bound bus
      → is_some (get_device base bus) ≡ false
      → starts_after base (first_before (base + len - 1) bus) ≡ false
      → Fits base len bus
  unfolding is_some starts_after
  checked-Fits base len bound [] pos v h k = tt
  checked-Fits base len bound (e ∷ es) pos (top, some_len, rest) h k =
      elim (Bool-cases (leb e.start (base + len - 1))) [
        | inl t ↦
            let before : leb base e.start ≡ false =
              sym ((before_all base len bound (base + len - 1) e es).0 t) ∙ k in
            let away : e.start + e.len ≤ base = not_here base e es (ground (arith, before)) h in
            (inr away, Below-Fits base len e.start es (ground (arith, before)) rest)
        | inr t ↦ (
          inl (ground (arith, t)),
          checked-Fits base len e.start es pos rest
              (ap (λ o. is_some o) (sym (skip_lem base e es (ground (arith, t, pos)))) ∙ h)
              (sym ((before_all base len bound (base + len - 1) e es).1 t) ∙ k),
        )
      ]

  put-Below :
      (new_entry : Entry D) (bound : ℕ) (bus : Bus D)
      → 0 < new_entry.len
      → new_entry.start + new_entry.len ≤ bound
      → Below bound bus
      → Fits new_entry.start new_entry.len bus
      → Below bound (put new_entry bus)
  unfolding put
  put-Below n bound [] pos le v f = (le, pos, tt)
  put-Below n bound (e ∷ es) pos le (top, some_len, rest) (f, fs) =
      if-split (Below bound) (ltb e.start n.start)
        (λ t. (le, pos, (ground (arith, t, f, some_len, pos), some_len, rest)))
        (λ t.
          if-split (Below bound) (e.start == n.start)
            (λ same. absurd (ground (arith, same, f, pos, some_len)))
            (λ other. (
              top,
              some_len,
              put-Below n e.start es pos (ground (arith, t, f, other, pos, some_len)) rest fs,
            )))

  -- What the bus finds once the entry is in.
  abbrev expected : Entry D → ℕ → Bus D → Option (ℕ × D)
  expected n a bus =
      if in_range n.start n.len a then some (a - n.start, n.device) else get_device a bus

  in_lem :
      (n : Entry D) (a : ℕ) (bus : Bus D)
      → n.start ≤ a
      → a < n.start + n.len
      → some (a - n.start, n.device) ≡ expected n a bus
  in_lem n a bus lo hi =
      if-split (λ o. some (a - n.start, n.device) ≡ o) (in_range n.start n.len a) (λ _. refl)
        (λ t. absurd (ground (arith, lo, hi, t)))

  out_lem :
      (n : Entry D) (a : ℕ) (bus : Bus D)
      → ((a < n.start) ⊎ (n.start + n.len ≤ a))
      → get_device a bus ≡ expected n a bus
  out_lem n a bus out =
      if-split (λ o. get_device a bus ≡ o) (in_range n.start n.len a)
        (λ t. absurd (ground (arith, out, t))) (λ _. refl)

  put-get_device :
      (n : Entry D) (bound a : ℕ) (bus : Bus D)
      → 0 < n.len
      → Below bound bus
      → Fits n.start n.len bus
      → get_device a (put n bus) ≡ expected n a bus
  unfolding put
  put-get_device n bound a [] pos v f =
      get_device-cases a n [] (λ o. o ≡ expected n a []) (in_lem n a [])
        (λ lo past. none_lem a ∙ out_lem n a [] (inr past)) (λ below. out_lem n a [] (inl below))
  put-get_device n bound a (e ∷ es) pos (top, some_len, rest) (f, fs) =
      let P : Bus D → Type 0 = λ b. get_device a b ≡ expected n a (e ∷ es) in
      let Q : Option (ℕ × D) → Type 0 = λ o. o ≡ expected n a (e ∷ es) in
      if-split P (ltb e.start n.start)
        (λ t.
          get_device-cases a n (e ∷ es) Q (in_lem n a (e ∷ es))
            (λ lo past.
              sym (past_lem a e es (ground (arith, t, lo)) (ground (arith, f, t, lo, pos)))
              ∙ out_lem n a (e ∷ es) (inr past))
            (λ below. out_lem n a (e ∷ es) (inl below)))
        (λ t.
          if-split P (e.start == n.start) (λ same. absurd (ground (arith, same, f, pos, some_len)))
            (λ other.
              let after : n.start + n.len ≤ e.start = ground (arith, t, other, f, some_len) in
              get_device-cases a e (put n es) Q
                (λ lo hi.
                  sym (here_lem a e es lo hi)
                  ∙ out_lem n a (e ∷ es) (inr (omega (arith, after, lo))))
                (λ lo past.
                  sym (past_lem a e es lo past)
                  ∙ out_lem n a (e ∷ es) (inr (omega (arith, after, lo))))
                (λ below.
                  put-get_device n e.start a es pos rest fs
                  ∙ ap (λ o. if in_range n.start n.len a then some (a - n.start, n.device) else o)
                      (sym (skip_lem a e es below)))))

  -- A device that starts in the range has the address where it starts.
  started :
      (base len bound : ℕ) (bus : Bus D)
      → 0 < len
      → Below bound bus
      → starts_after base (first_before (base + len - 1) bus) ≡ true
      → (a : ℕ) × (base ≤ a) × (a < base + len) × (is_some (get_device a bus) ≡ true)
  unfolding first_before starts_after
  started base len bound [] pos v k = absurd (true≢false (sym k))
  started base len bound (e ∷ es) pos (top, some_len, rest) k =
      elim (Bool-cases (leb e.start (base + len - 1))) [
        | inl t ↦
            let in_it = sym ((before_all base len bound (base + len - 1) e es).0 t) ∙ k in
            (e.start, ground (arith, in_it), ground (arith, t, pos), found e es some_len)
        | inr t ↦
            let (a, lo, hi, has) =
              started base len e.start es pos rest
                (sym ((before_all base len bound (base + len - 1) e es).1 t) ∙ k) in
            (a, lo, hi, ap (λ o. is_some o) (skip_lem a e es (ground (arith, t, hi))) ∙ has)
      ]

  no_start :
      (base len : ℕ) (bus : Bus D)
      → 0 < len
      → (bound : ℕ) → Below bound bus
      → Fits base len bus
      → has_start base bus ≡ false
  unfolding has_start
  no_start base len [] pos bound v f = refl
  no_start base len (e ∷ es) pos bound (top, some_len, rest) (f, fs) =
      ground (arith, f, pos, some_len, no_start base len es pos e.start rest fs)

  -- On a bus whose ranges do not overlap and end below 2 ^ 64, for a range that does so too, `insert`
  -- refuses an empty range and one with an address that a device has. Otherwise the ranges still do
  -- not overlap, the new device has the addresses of its range, counted from its base, and every
  -- other address has what it had.
  pub insert-OnInsert :
      (device : D) (base len : ℕ) (bus : Bus D)
      → base + len ≤ 2 ^ 64
      → Below (2 ^ 64) bus
      → OnInsert device base len bus (insert device base len bus)
  unfolding insert
  insert-OnInsert device base len bus fits v =
      let P = OnInsert device base len bus in
      let last : u64 (base + len - 1) ≡ base + len - 1 = omega (arith, fits) in
      if-split P (len == 0) (λ t. empty (ground (arith, t)))
        (λ t.
          let pos : 0 < len = ground (arith, t) in
          if-split P (is_some (get_device base bus))
            (λ h. taken base (omega arith) (omega (arith, pos)) h)
            (λ h.
              if-split P (starts_after base (first_before (u64 (base + len - 1)) bus))
                (λ k.
                  let (a, lo, hi, has) =
                    started base len (2 ^ 64) bus pos v
                      (ap (λ (x : ℕ). starts_after base (first_before x bus)) (sym last) ∙ k) in
                  taken a lo hi has)
                (λ k.
                  let f =
                    checked-Fits base len (2 ^ 64) bus pos v h
                      (ap (λ (x : ℕ). starts_after base (first_before x bus)) (sym last) ∙ k) in
                  let n : Entry D = record { start = base; len = len; device = device } in
                  subst (λ b. P (if b then err overlap else ok tt, put n bus))
                    (sym (no_start base len bus pos (2 ^ 64) v f))
                    (inserted (put-Below n (2 ^ 64) bus pos fits v f)
                      (λ a. put-get_device n (2 ^ 64) a bus pos v f)))))
