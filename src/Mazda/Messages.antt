-- ===== src/Mazda/Messages.antt =====
-- The checksum of the steering message of selfdrive/car/mazda/mazdacan.py.
use openpilot9xxcivic.Prelude.{
  ℕ, ℤ, pos, negsuc, ◌+ℤ◌, ◌-ℤ◌, ltb_ℤ, pos_part, neg_part, ◌+◌, ◌*◌, ◌%◌, ◌≡◌, arith, -ℤ_parts,
  if◌then◌else◌,
}
use openpilot9xxcivic.Mazda.{Lkas, mod_256, raw_checksum, steering_checksum}

-- The bytes that the checksum covers, with the constant part of the angle.
abbrev pub covered : (ctr hi lo : ℕ) → Lkas → ℕ
covered ctr hi lo lkas = ctr + hi + lo + lkas.err_bit_1 + lkas.err_bit_2 * 16 + lkas.bit_1 * 32 + 2

-- A residue after the shifts, from the positive and the negative part of the difference.
checked :
    (x : ℤ) (n : ℕ)
    → pos_part x + n ≡ 249 + neg_part x
    → (mod_256 (
            if ltb_ℤ x (pos 0)
            then (if ltb_ℤ x (negsuc 255) then x +ℤ pos 512 else x +ℤ pos 256)
            else x)
          + n)
        % 256
      ≡ 249
unfolding ◌+ℤ◌
checked (pos m) n h = ground arith
checked (negsuc m) n h = ground arith

difference :
    (ctr hi lo : ℕ) (lkas : Lkas)
    → pos_part (raw_checksum ctr (pos hi) (pos lo) lkas) + covered ctr hi lo lkas
      ≡ 249 + neg_part (raw_checksum ctr (pos hi) (pos lo) lkas)
unfolding raw_checksum
difference ctr hi lo lkas =
    let x_1 = pos 249 -ℤ pos ctr in
    let x_2 = x_1 -ℤ pos hi in
    let x_3 = x_2 -ℤ pos lo in
    let x_4 = x_3 -ℤ pos lkas.err_bit_1 in
    let x_5 = x_4 -ℤ pos (lkas.err_bit_2 * 16) in
    let x_6 = x_5 -ℤ pos (lkas.bit_1 * 32) in
    omega (
      arith,
      -ℤ_parts (pos 249) (pos ctr),
      -ℤ_parts x_1 (pos hi),
      -ℤ_parts x_2 (pos lo),
      -ℤ_parts x_3 (pos lkas.err_bit_1),
      -ℤ_parts x_4 (pos (lkas.err_bit_2 * 16)),
      -ℤ_parts x_5 (pos (lkas.bit_1 * 32)),
      -ℤ_parts x_6 (pos 2),
    )

-- The checksum makes the sum of the covered bytes 249 modulo 256.
pub steering_checksum_lem :
    (ctr hi lo : ℕ) (lkas : Lkas)
    → (steering_checksum ctr (pos hi) (pos lo) lkas + covered ctr hi lo lkas) % 256 ≡ 249
unfolding steering_checksum
steering_checksum_lem ctr hi lo lkas =
    checked (raw_checksum ctr (pos hi) (pos lo) lkas) (covered ctr hi lo lkas)
      (difference ctr hi lo lkas)
