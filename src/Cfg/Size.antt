-- ===== src/Cfg/Size.antt =====
-- The payload size that a config response allows: `aoecmd_cfg_rsp`.
use aoe.Prelude.{
  ℕ, ◌+◌, ◌-◌, ◌*◌, ◌/◌, ◌%◌, ◌^◌, ◌≤◌, ◌<◌, ◌≡◌, refl, arith, ltb, ◌==◌, ◌⊎◌, inl, inr, Bool-cases,
}
use aoe.Types.{default_bcnt}
use aoe.Cfg.{rsp_bcnt}

-- A number of sectors that the target takes at once and that fits into one packet.
abbrev pub Fits : ℕ → ℕ → ℕ → Type 0
Fits mtu scnt n = (n ≤ scnt) × (36 + n * 512 ≤ mtu)

sectors :
    (mtu : ℕ)
    → 36 ≤ mtu
    → mtu < 2 ^ 16
    → (mtu % 2 ^ 16 + 2 ^ 16 - 36) % 2 ^ 16 / 512 ≡ (mtu - 36) / 512
sectors mtu h l =
    let a : (mtu % 2 ^ 16 + 2 ^ 16 - 36) % 2 ^ 16 ≡ mtu - 36 = omega arith in rw a refl

-- For an interface whose MTU holds the headers and fits 16 bits, the size is that of the most sectors
-- that the target takes at once and that fit into one packet, or the default where not one does. It
-- is never more than 65024 bytes, so the 16 bits that hold it are enough.
pub rsp_bcnt_lem :
    (mtu scnt : ℕ)
    → 36 ≤ mtu
    → mtu < 2 ^ 16
    → ((rsp_bcnt mtu scnt ≡ default_bcnt) × ((n : ℕ) → Fits mtu scnt n → n ≡ 0))
      ⊎ ((n : ℕ) × (rsp_bcnt mtu scnt ≡ n * 512)
          × (1 ≤ n)
          × (n ≤ 127)
          × Fits mtu scnt n
          × ((m : ℕ) → Fits mtu scnt m → m ≤ n))
unfolding rsp_bcnt
rsp_bcnt_lem mtu scnt h l =
    let room = (mtu - 36) / 512 in
    let e = sectors mtu h l in
    elim (Bool-cases (ltb scnt room)) [
      | inl y ↦ elim (Bool-cases (scnt == 0)) [
        | inl z ↦ inl (rw (e, y, z) refl, λ n f. ground (arith, f.0))
        | inr z ↦ inr (
          scnt,
          rw (e, y, z) refl,
          ground arith,
          ground arith,
          (omega arith, ground arith),
          λ m f. f.0,
        )
      ]
      | inr y ↦ elim (Bool-cases (room == 0)) [
        | inl z ↦ inl (rw (e, y, z) refl, λ n f. ground (arith, f.1))
        | inr z ↦ inr (
          room,
          rw (e, y, z) refl,
          ground arith,
          omega arith,
          (ground arith, omega arith),
          λ m f. omega (arith, f.1),
        )
      ]
    ]
