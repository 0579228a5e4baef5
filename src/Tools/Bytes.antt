-- ===== src/Tools/Bytes.antt =====
-- Numbers as bytes: `hnputl`, `nhgetl`, `hnputs`, `nhgets`.
use aoe.Prelude.{ℕ, ◌+◌, ◌*◌, ◌%◌, ◌^◌, ◌≡◌, ◌<◌, arith}
use aoe.Tools.{hnputl, hnputs, nhgetl, nhgets}
use aoe.Tools.San.{probe_tag}

-- What `hnputl` and `hnputs` write is read back, in 32 and in 16 bits.
pub nhgetl-hnputl : (n : ℕ) → (nhgetl (hnputl n) ≡ n % 2 ^ 32) × (nhgets (hnputs n) ≡ n % 2 ^ 16)
unfolding nhgetl hnputl nhgets hnputs
nhgetl-hnputl n = (omega arith, omega arith)

-- The tag of a probe: its id above, its sectors below.
pub probe_tag_lem : (id k : ℕ) → id < 2 ^ 16 → k < 2 ^ 8 → probe_tag id (k * 512) ≡ id * 2 ^ 16 + k
unfolding probe_tag
probe_tag_lem id k h l = omega arith
