-- ===== src/Open/Work.antt =====
-- What a device keeps while its work runs: `aoecmd_sleepwork`.
use aoe.Prelude.{
  choose, ℕ, ◌≡◌, refl, ◌∙◌, Bool, true, false, ◌&&◌, not, if◌then◌else◌, Bool-cases, inl, inr,
}
use aoe.Types.{AoeDev, State}
use aoe.Ident.{sleepwork_newsize}
use aoe.Open.{gd_begin, gd_fail, gd_publish, three_allocs, aoeblk_gdalloc, aoecmd_sleepwork}

-- Its numbers, who uses it, and how far a flush is with it.
abbrev pub Core : Type 0
Core = ℕ × ℕ × ℕ × ℕ × ℕ × Bool × Bool × Bool

abbrev pub core : AoeDev → Core
core d = (
  d.sysminor, d.aoemajor, d.aoeminor, d.nopen, d.ref, d.flags.tkill, d.flags.freeing, d.flags.freed,
)

newsize-core : (d : AoeDev) → core (sleepwork_newsize d) ≡ core d
unfolding sleepwork_newsize
newsize-core d =
    choose (λ x. core x ≡ core d) d.flags.newsize
      (record d { flags = record d.flags { up = true; newsize = false } }) d (λ y. refl) (λ n. refl)

gdalloc-core : (s : State) → core (aoeblk_gdalloc s).dev ≡ core s.dev
unfolding aoeblk_gdalloc gd_begin gd_fail gd_publish
gdalloc-core s =
    elim (Bool-cases (s.dev.flags.gdalloc && not s.dev.flags.tkill && not s.dev.flags.gd_now)) [
      | inl y ↦ elim (Bool-cases (three_allocs s.kern.allocs).0) [
        | inl z ↦ rw (y, z) refl
        | inr z ↦ rw (y, z) refl
      ]
      | inr n ↦ rw n refl
    ]

pub sleepwork-core : (s : State) → core (aoecmd_sleepwork s).dev ≡ core s.dev
unfolding aoecmd_sleepwork
sleepwork-core s =
    let t = if s.dev.flags.gdalloc then aoeblk_gdalloc s else s in
    newsize-core t.dev
    ∙ choose (λ x. core x.dev ≡ core s.dev) s.dev.flags.gdalloc (aoeblk_gdalloc s) s
        (λ y. gdalloc-core s) (λ n. refl)
