-- ===== src/Sii/Pdo.antt =====
-- The loop of ecx_siiPDO ends on every EEPROM.
use e_rob_soem_linux.Base.{
  ℕ, zero, suc, ◌+◌, ◌≤◌, ◌<◌, ◌≡◌, arith, some, ltb, Bool-cases, inl, inr, refl,
}
use e_rob_soem_linux.Sii.{Reader}
use e_rob_soem_linux.Sii.Sections.{Pdo, max_eepdo, pdo_round, pdo_loop}

module _ {S : Type 0} (io : Reader S) where
  pdo_round_counts :
      (a c total : ℕ) (p : Pdo) (s : S)
      → let (a', c', total', p', s') = pdo_round io a c total p s in
        (p'.npdo ≡ p.npdo + 1) × (p'.size ≡ p.size) × (p.npdo + 2 ≡ max_eepdo → c' ≡ p.size)
  pdo_round_counts a c total p s = ground arith

  -- As many rounds as there are free places in the table of PDOs (511 at the start of `ecx_siiPDO`)
  -- end its loop, whatever lengths the EEPROM states, and the last PDO is within the table.
  pub pdo_loop_total :
      (fuel a c total : ℕ) (p : Pdo) (s : S)
      → p.npdo + 1 < max_eepdo
      → max_eepdo ≤ p.npdo + 1 + fuel
      → (r : ℕ × Pdo × S) × (pdo_loop io fuel a c total p s ≡ some r) × (r.1.npdo < max_eepdo)
  unfolding pdo_loop
  pdo_loop_total zero a c total p s h k = absurd (omega arith)
  pdo_loop_total (suc fuel) a c total p s h k =
      let (a', c', total', p', s') = pdo_round io a c total p s in
      let (one_more, same_size, full) = pdo_round_counts a c total p s in
      elim (Bool-cases (ltb c' p'.size)) [
        | inr done ↦ ((total', p', s'), rw (done, pdo_loop) refl, omega (arith, one_more))
        | inl going ↦
            let room : p'.npdo + 1 < max_eepdo = grind arith in
            let (r, e, fits) = pdo_loop_total fuel a' c' total' p' s' room (omega arith) in
            (r, rw (going, pdo_loop) e, fits)
      ]
