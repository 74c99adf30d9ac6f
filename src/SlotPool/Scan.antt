-- ===== src/SlotPool/Scan.antt =====
-- What the acquiring loops of `SlotPool` find.
use orteaf.Prelude.{
  ℕ, zero, suc, ◌≡◌, refl, ap, Bool, false, not, List, [], ◌∷◌, if◌then◌else◌, length, get_or,
  arith,
}
use orteaf.SlotPool.{Handle, Traits, SlotPool, invalid_handle, make_handle}
use orteaf.SlotPool.Acquire.{scan, try_acquire_created, try_reserve_uncreated}

module _ {P R C W : Type 0} (t : Traits P R C W) where
  -- Popping the back of the freelist and pushing it back again looks at the same slot each round.
  scan_top :
      (wanted : Bool → Bool) (k : ℕ) (p : SlotPool P W) (idx : ℕ) (rest : List ℕ)
      → p.freelist ≡ idx ∷ rest
      → scan t wanted (suc k) p ≡ (
          if wanted (get_or p.created idx false)
          then (make_handle t p idx, record p { freelist = rest })
          else (invalid_handle t, p))
  unfolding scan
  scan_top wanted zero p idx rest e = ground arith
  scan_top wanted (suc k) p idx rest e =
      ground (arith, scan_top wanted k (record p { freelist = idx ∷ rest }) idx rest refl)

  scan-zero :
      (wanted : Bool → Bool) (k : ℕ) (p : SlotPool P W)
      → k ≡ 0
      → scan t wanted k p ≡ (invalid_handle t, p)
  unfolding scan
  scan-zero wanted zero p e = refl
  scan-zero wanted (suc k) p e = absurd (omega arith)

  pub try_acquire-empty :
      (p : SlotPool P W)
      → p.freelist ≡ []
      → (try_acquire_created t p ≡ (invalid_handle t, p))
        × (try_reserve_uncreated t p ≡ (invalid_handle t, p))
  unfolding try_acquire_created try_reserve_uncreated
  try_acquire-empty p e = (
    scan-zero (λ created. created) (length p.freelist) p (ap length e),
    scan-zero not (length p.freelist) p (ap length e),
  )

  -- Both acquiring methods decide by the slot on top of the freelist alone. If its created flag is
  -- the wanted one, the slot leaves the freelist and its handle is returned. Otherwise the call
  -- returns the invalid handle and the pool stays as it was, whatever the other free slots are.
  pub try_acquire-top :
      (p : SlotPool P W) (idx : ℕ) (rest : List ℕ)
      → p.freelist ≡ idx ∷ rest
      → let taken : Handle × SlotPool P W = (make_handle t p idx, record p { freelist = rest }) in
        let missed : Handle × SlotPool P W = (invalid_handle t, p) in
        let flag = get_or p.created idx false in
        (try_acquire_created t p ≡ (if flag then taken else missed))
        × (try_reserve_uncreated t p ≡ (if flag then missed else taken))
  unfolding try_acquire_created try_reserve_uncreated
  try_acquire-top p idx rest e = ground (
    arith,
    scan_top (λ created. created) (length rest) p idx rest e,
    scan_top not (length rest) p idx rest e,
  )
