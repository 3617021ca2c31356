-- ===== src/Tcp/Segment/Options.antt =====
-- When the loop of `parse_mss_option_unchecked`, src/dumbo/src/pdu/tcp.rs, ends.
use firecracker.Base.{
  ℕ, zero, suc, ◌+◌, ◌<◌, ◌≡◌, ◌≢◌, refl, Option, none, some, List, [], ◌∷◌, length, drop, ◌==◌,
  if-split, Result, arith, length-drop, drop-drop, sym, ◌∙◌, ◌⊎◌, inl, inr,
}
use firecracker.Tcp.Segment.{Error, parse_options}

none-ne : {r : Result Error (Option ℕ)} → none ≢ some r
none-ne e = cc

zero_or_pos : (n : ℕ) → (n ≡ 0) ⊎ (0 < n)
zero_or_pos zero = inl refl
zero_or_pos (suc n) = inr (omega arith)

-- An option of unknown kind and of length 0, with two bytes after it, somewhere in `b`.
pub record IsStuck (b : List ℕ) : Type 0 where
  pub position : ℕ
  pub kind : ℕ
  pub hi : ℕ
  pub lo : ℕ
  pub rest : List ℕ
  pub unknown : 2 < kind
  pub found : drop position b ≡ kind ∷ 0 ∷ hi ∷ lo ∷ rest

later : {b : List ℕ} (n : ℕ) → IsStuck (drop n b) → IsStuck b
later {b} n s = record {
  position = n + s.position;
  kind = s.kind;
  hi = s.hi;
  lo = s.lo;
  rest = s.rest;
  unknown = s.unknown;
  found = sym (drop-drop n s.position b) ∙ s.found;
}

-- With a round for each byte and one more the loop ends, unless the bytes hold an option of unknown
-- kind and of length 0.
pub parse_options_total :
    (fuel : ℕ) (b : List ℕ) → length b < fuel → parse_options fuel b ≡ none → IsStuck b
unfolding parse_options
parse_options_total zero b h = absurd (omega arith)
parse_options_total (suc fuel) [] h = λ e. absurd (none-ne (sym e))
parse_options_total (suc fuel) (kind ∷ []) h = λ e. absurd (none-ne (sym e))
parse_options_total (suc fuel) (kind ∷ len ∷ []) h = λ e. absurd (none-ne (sym e))
parse_options_total (suc fuel) (kind ∷ len ∷ hi ∷ []) h = λ e. absurd (none-ne (sym e))
parse_options_total (suc fuel) (kind ∷ len ∷ hi ∷ lo ∷ rest) h =
    if-split (λ r. r ≡ none → IsStuck (kind ∷ len ∷ hi ∷ lo ∷ rest)) (kind == 0)
      (λ _ e. absurd (none-ne (sym e)))
      (λ n0.
        if-split (λ r. r ≡ none → IsStuck (kind ∷ len ∷ hi ∷ lo ∷ rest)) (kind == 1)
          (λ _ e.
            later {b = kind ∷ len ∷ hi ∷ lo ∷ rest} 1
              (parse_options_total fuel (len ∷ hi ∷ lo ∷ rest) (omega arith) e))
          (λ n1.
            if-split (λ r. r ≡ none → IsStuck (kind ∷ len ∷ hi ∷ lo ∷ rest)) (kind == 2)
              (λ _ e. absurd (none-ne (sym e)))
              (λ n2 e. elim (zero_or_pos len) [
                | inl z ↦ record {
                  position = 0;
                  kind = kind;
                  hi = hi;
                  lo = lo;
                  rest = rest;
                  unknown = ground arith;
                  found = rw z;
                }
                | inr p ↦ later {b = kind ∷ len ∷ hi ∷ lo ∷ rest} len (
                    parse_options_total fuel (drop len (kind ∷ len ∷ hi ∷ lo ∷ rest))
                      (omega (arith, length-drop len (kind ∷ len ∷ hi ∷ lo ∷ rest))) e)
              ])))

-- An unknown option of length 0 is never left: no number of rounds is enough.
pub parse_options-diverges :
    (fuel kind hi lo : ℕ) (rest : List ℕ)
    → 2 < kind
    → parse_options fuel (kind ∷ 0 ∷ hi ∷ lo ∷ rest) ≡ none
unfolding parse_options
parse_options-diverges zero kind hi lo rest h = refl
parse_options-diverges (suc fuel) kind hi lo rest h =
    ground (arith, parse_options-diverges fuel kind hi lo rest h)
