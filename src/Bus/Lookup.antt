-- ===== src/Bus/Lookup.antt =====
-- `Bus::get_device`, src/devices/src/bus.rs, on the first device of a list and on the others.
use firecracker.Base.{
  ℕ, ◌+◌, ◌-◌, ◌≤◌, ◌<◌, ◌≡◌, inl, inr, refl, ap, sym, ◌∙◌, true, false, Option, none, some, [],
  ◌∷◌, ltb, leb, if-split, lt-or-le, arith,
}
use mathlib.Core.Bool.{true≢false}
use firecracker.Bus.{Entry, Bus, first_before, owned, get_device, is_some, starts_after}

module _ {D : Type 0} where
  -- What holds of the entry, of no device and of the rest of the bus holds of the device found.
  pub get_device-cases :
      (a : ℕ) (e : Entry D) (es : Bus D) (P : Option (ℕ × D) → Type 0)
      → (e.start ≤ a → a < e.start + e.len → P (some (a - e.start, e.device)))
      → (e.start ≤ a → e.start + e.len ≤ a → P none)
      → (a < e.start → P (get_device a es))
      → P (get_device a (e ∷ es))
  unfolding get_device owned first_before
  get_device-cases a e es P here past skip =
      if-split (λ o. P (owned a o)) (leb e.start a)
        (λ t.
          if-split P (ltb (a - e.start) e.len)
            (λ u. here (ground (arith, t)) (ground (arith, t, u)))
            (λ u. past (ground (arith, t)) (ground (arith, t, u))))
        (λ t. skip (ground (arith, t)))

  pub before_all :
      (base len bound a : ℕ) (e : Entry D) (es : Bus D)
      → (leb e.start a ≡ true → starts_after base (first_before a (e ∷ es)) ≡ leb base e.start)
        × (leb e.start a ≡ false
            → starts_after base (first_before a (e ∷ es)) ≡ starts_after base (first_before a es))
  unfolding first_before starts_after
  before_all base len bound a e es = ((λ t. rw t refl), (λ t. rw t refl))

  pub here_lem :
      (a : ℕ) (e : Entry D) (es : Bus D)
      → e.start ≤ a
      → a < e.start + e.len
      → get_device a (e ∷ es) ≡ some (a - e.start, e.device)
  here_lem a e es lo hi =
      get_device-cases a e es (λ o. o ≡ some (a - e.start, e.device)) (λ _ _. refl)
        (λ _ past. absurd (omega (arith, hi, past))) (λ below. absurd (omega (arith, lo, below)))

  pub past_lem :
      (a : ℕ) (e : Entry D) (es : Bus D)
      → e.start ≤ a
      → e.start + e.len ≤ a
      → get_device a (e ∷ es) ≡ none
  past_lem a e es lo past =
      get_device-cases a e es (λ o. o ≡ none) (λ _ hi. absurd (omega (arith, hi, past)))
        (λ _ _. refl) (λ below. absurd (omega (arith, lo, below)))

  pub skip_lem :
      (a : ℕ) (e : Entry D) (es : Bus D) → a < e.start → get_device a (e ∷ es) ≡ get_device a es
  skip_lem a e es below =
      get_device-cases a e es (λ o. o ≡ get_device a es) (λ lo _. absurd (omega (arith, lo, below)))
        (λ lo _. absurd (omega (arith, lo, below))) (λ _. refl)

  pub not_here :
      (a : ℕ) (e : Entry D) (es : Bus D)
      → e.start ≤ a
      → is_some (get_device a (e ∷ es)) ≡ false
      → e.start + e.len ≤ a
  unfolding is_some
  not_here a e es lo h = elim (lt-or-le a (e.start + e.len)) [
    | inl hi ↦ absurd (true≢false (sym (ap (λ o. is_some o) (here_lem a e es lo hi)) ∙ h))
    | inr past ↦ past
  ]

  pub none_lem : (a : ℕ) → none ≡ get_device {D = D} a []
  unfolding get_device owned first_before
  none_lem a = refl

  pub found : (e : Entry D) (es : Bus D) → 0 < e.len → is_some (get_device e.start (e ∷ es)) ≡ true
  unfolding is_some
  found e es some_len =
      ap (λ o. is_some o) (here_lem e.start e es (omega arith) (omega (arith, some_len)))
