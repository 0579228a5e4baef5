-- ===== src/Tools/San/Probes.antt =====
-- The probes of a lun and their answers: `jprobe`, `jinput`.
use aoe.Prelude.{
  ◌⊎◌, inl, inr, ◌∙◌, Bool-cases, ltb, modify, set, Option, none, List, ◌∷◌, ℕ, zero, suc, ◌+◌, ◌-◌,
  ◌*◌, ◌/◌, ◌%◌, ◌^◌, ◌≤◌, ◌<◌, ◌≡◌, refl, ap, true, false, some, [], arith, ◌==◌, length,
  get_elem?, All,
}
use aoe.Types.{AoeHdr}
use aoe.Tools.San.{
  San, Lun, Sent, walk, findlun, probe, probes_down, jprobe, jinput, ata_input, at_lun, answered,
}
use aoe.Tools.Bytes.{probe_tag_lem}
use aoe.Tools.San.Luns.{IsSorted, walk-at}

-- The packet fits the MTU and carries a whole number of sectors, at least one.
abbrev pub IsProbe : ℕ → ℕ → Sent → Type 0
IsProbe ea mtu p = (k : ℕ) × (p.len ≡ 36 + k * 512) × (1 ≤ k) × (p.len ≤ mtu) × (p.hdr.src ≡ ea)

probes-IsProbe :
    (ea mtu : ℕ) (lun : Lun) (k : ℕ)
    → k * 512 + 36 ≤ mtu
    → All (IsProbe ea mtu) (probes_down ea lun k)
unfolding probes_down probe
probes-IsProbe ea mtu lun zero h = tt
probes-IsProbe ea mtu lun (suc k) h = (
  (suc k, refl, omega arith, omega (arith, h), refl),
  probes-IsProbe ea mtu lun k (omega (arith, h)),
)

length-probes : (ea : ℕ) (lun : Lun) (k : ℕ) → length (probes_down ea lun k) ≡ k
unfolding probes_down
length-probes ea lun zero = refl
length-probes ea lun (suc k) = ap suc (length-probes ea lun k)

nothing_fits : (mtu : ℕ) → mtu < 36 → (mtu - 36) / 512 ≡ 0
nothing_fits mtu h = omega arith

jprobe-short : (ea mtu : ℕ) (lun : Lun) → mtu < 36 → jprobe ea mtu lun ≡ []
unfolding jprobe probes_down
jprobe-short ea mtu lun h = ap (probes_down ea lun) (nothing_fits mtu h)

-- For an MTU that holds the headers, `jprobe` sends one packet for each number of sectors that fits,
-- and each of them fits the MTU.
pub jprobe_lem :
    (ea mtu : ℕ) (lun : Lun)
    → 36 ≤ mtu
    → All (IsProbe ea mtu) (jprobe ea mtu lun) × (length (jprobe ea mtu lun) ≡ (mtu - 36) / 512)
unfolding jprobe
jprobe_lem ea mtu lun h = (
  probes-IsProbe ea mtu lun ((mtu - 36) / 512) (omega arith),
  length-probes ea lun ((mtu - 36) / 512),
)

-- The answer to a packet: both addresses change places, and AOEFL_RSP is set.
abbrev pub answer_to : AoeHdr → AoeHdr
answer_to h = record h { src = h.dst; dst = h.src; verfl = h.verfl + 2 ^ 3 }

jinput-answered :
    (ea mtu : ℕ) (e : San) (lun : Lun) (i k scnt : ℕ)
    → walk (lun.major % 2 ^ 16) lun.minor lun.ea e.luns ≡ (i, true)
    → get_elem? e.luns i ≡ some lun
    → 2 ^ 15 ≤ lun.id
    → lun.id < 2 ^ 16
    → k < 2 ^ 8
    → jinput ea mtu e (answer_to (probe ea lun (k * 512)).hdr) scnt
      ≡ (true, [], at_lun (answered k) i e)
unfolding jinput probe findlun ata_input
jinput-answered ea mtu e lun i k scnt w g lo hi s =
    let t = probe_tag_lem lun.id k hi s in
    let top : ((lun.id * 2 ^ 16 + k) / 2 ^ 31 % 2 == 0) ≡ false = ground (arith, lo, hi, s) in
    let up : (lun.id * 2 ^ 16 + k) / 2 ^ 16 ≡ lun.id = omega (arith, s) in
    let low : (lun.id * 2 ^ 16 + k) % 2 ^ 8 ≡ k = omega (arith, s) in
    let same : (lun.id == lun.id) ≡ true = ground arith in rw (t, top, w, g, up, low, same) refl

-- The greater of two numbers.
abbrev pub IsGreater : ℕ → ℕ → ℕ → Type 0
IsGreater a b c = (a ≤ c) × (b ≤ c) × ((c ≡ a) ⊎ (c ≡ b))

answered-IsGreater : (k : ℕ) (l : Lun) → IsGreater l.maxsect k (answered k l).maxsect
answered-IsGreater k l = elim (Bool-cases (ltb l.maxsect k)) [
  | inl y ↦ rw y (ground (arith, y), omega arith, inr refl)
  | inr n ↦ rw n (omega arith, ground (arith, n), inl refl)
]

modify-set :
    (g : Lun → Lun) (ps : List Lun) (i : ℕ) (l : Lun)
    → get_elem? ps i ≡ some l
    → modify g ps i ≡ set ps i (g l)
modify-set g [] i l h = refl
modify-set g (p ∷ ps) zero l h =
    ap (λ q. g q ∷ ps) (ap (λ (o : Option Lun). elim o [ none ↦ p | some x ↦ x ]) h)
modify-set g (p ∷ ps) (suc i) l h = ap (λ qs. p ∷ qs) (modify-set g ps i l h)

-- The answer to the probe of any of an interface's luns, with so many sectors, is useful: it makes
-- the lun's `maxsect` the greater of what it was and of these sectors, and changes nothing else. The
-- luns are in order, the shelf fits its field, the id has the highest of its sixteen bits set, and the
-- sectors fit a byte.
pub jinput-probe :
    (ea mtu : ℕ) (e : San) (lun : Lun) (i k scnt : ℕ)
    → IsSorted e.luns
    → get_elem? e.luns i ≡ some lun
    → lun.major < 2 ^ 16
    → 2 ^ 15 ≤ lun.id
    → lun.id < 2 ^ 16
    → k < 2 ^ 8
    → (m : ℕ) × IsGreater lun.maxsect k m
      × (jinput ea mtu e (answer_to (probe ea lun (k * 512)).hdr) scnt
          ≡ (true, [], record e { luns = set e.luns i (record lun { maxsect = m }) }))
jinput-probe ea mtu e lun i k scnt o g major lo hi s =
    let cut : lun.major % 2 ^ 16 ≡ lun.major = omega (arith, major) in
    let w = ap (λ n. walk n lun.minor lun.ea e.luns) cut ∙ walk-at e.luns i lun o g in
    (
      (answered k lun).maxsect,
      answered-IsGreater k lun,
      jinput-answered ea mtu e lun i k scnt w g lo hi s
          ∙ ap (λ ls. (true, [], record e { luns = ls })) (modify-set (answered k) e.luns i lun g),
    )
