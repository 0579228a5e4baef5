-- ===== src/Flush/Worked.antt =====
-- What a device and the list keep while the scheduled work runs: `flush_scheduled_work`.
use aoe.Prelude.{
  choose, ℕ, ◌/◌, ◌<◌, ◌≡◌, refl, sym, Bool, false, List, [], ◌∷◌, if◌then◌else◌, count, All,
}
use mathlib.Core.Path.{subst}
use aoe.Types.{AoeDev, State, Kern, Env}
use aoe.Open.{aoecmd_sleepwork}
use aoe.Open.Work.{Core, core, sleepwork-core}
use aoe.Flush.{scheduled}
use aoe.Flush.Kept.{IsSettled}

abbrev run_one : Env → AoeDev → Kern → State
run_one e d k =
    let s : State = record { dev = d; kern = k } in
    if e.work_pending d.sysminor then aoecmd_sleepwork s else s

run_one-core : (e : Env) (d : AoeDev) (k : Kern) → core (run_one e d k).dev ≡ core d
run_one-core e d k =
    let s : State = record { dev = d; kern = k } in
    choose (λ (x : State). core x.dev ≡ core d) (e.work_pending d.sysminor) (aoecmd_sleepwork s) s
      (λ y. sleepwork-core s) (λ n. refl)

All-scheduled :
    (P : Core → Type 0) (e : Env) (ds : List AoeDev) (k : Kern)
    → All (λ d. P (core d)) ds
    → All (λ d. P (core d)) (scheduled e ds k).0
unfolding scheduled
All-scheduled P e [] k h = tt
All-scheduled P e (d ∷ ds) k h =
    (subst P (sym (run_one-core e d k)) h.0, All-scheduled P e ds (run_one e d k).kern h.1)

pub count-scheduled :
    (p : Core → Bool) (e : Env) (ds : List AoeDev) (k : Kern)
    → count (λ d. p (core d)) (scheduled e ds k).0 ≡ count (λ d. p (core d)) ds
unfolding scheduled
count-scheduled p e [] k = refl
count-scheduled p e (d ∷ ds) k =
    rw (run_one-core e d k, count-scheduled p e ds (run_one e d k).kern) refl

pub scheduled-IsSettled :
    (e : Env) (n : ℕ) (ds : List AoeDev) (k : Kern)
    → All (IsSettled e n) ds
    → All (IsSettled e n) (scheduled e ds k).0
scheduled-IsSettled e n ds k h =
    All-scheduled (λ c. (c.6 ≡ false) × (c.7 ≡ false) × (c.0 / e.aoe_partitions < n)) e ds k h
