-- ===== src/Flush/Kept.antt =====
-- What the passes of a flush leave, and which minor numbers they give back.
use aoe.Prelude.{
  ℕ, ◌/◌, ◌<◌, ◌≡◌, refl, ap, sym, ◌∙◌, Bool, true, false, some, List, [], ◌∷◌, arith, leb, ◌&&◌,
  ◌||◌, not, if◌then◌else◌, length, length-set, set, All, Bool-cases, inl, inr,
}
use mathlib.Core.Path.{subst}
use aoe.Types.{AoeDev, State, Kern, Env, DevFlags}
use aoe.Minors.{minor_free}
use aoe.Fail.Downdev.{aoedev_downdev_lem}
use aoe.Devs.{Driver}
use aoe.Flush.{Wanted, is_doomed, kill, pass_one, going, gone, freedev, pass_two, pass_three, sweep}

-- No other flush is at work on the device, and its number is inside the bitmap.
abbrev pub IsSettled : Env → ℕ → AoeDev → Type 0
IsSettled e n d =
    (d.flags.freeing ≡ false) × (d.flags.freed ≡ false) × (d.sysminor / e.aoe_partitions < n)

abbrev pub leaves : Wanted → AoeDev → Bool
leaves w d = is_doomed w d || d.flags.tkill

abbrev pub staying : Wanted → List AoeDev → List AoeDev
staying w [] = []
staying w (d ∷ ds) = if leaves w d then staying w ds else d ∷ staying w ds

abbrev pub given_back : Env → Wanted → List AoeDev → List Bool → List Bool
given_back e w [] used = used
given_back e w (d ∷ ds) used =
    let returned = given_back e w ds (set used (d.sysminor / e.aoe_partitions) false) in
    let kept = given_back e w ds used in if leaves w d then returned else kept

freedev-going :
    (e : Env) (d : AoeDev) (used : List Bool)
    → going d ≡ true
    → d.sysminor / e.aoe_partitions < length used
    → freedev e d used ≡ some (gone d, set used (d.sysminor / e.aoe_partitions) false)
unfolding freedev minor_free
freedev-going e d used g l =
    let inside : leb (length used) (d.sysminor / e.aoe_partitions) ≡ false = ground arith in
    rw (g, inside) refl

freedev-staying :
    (e : Env) (d : AoeDev) (used : List Bool) → going d ≡ false → freedev e d used ≡ some (d, used)
unfolding freedev
freedev-staying e d used g = rw g refl

-- The second and third pass over what the first has left.
abbrev Swept : Env → Wanted → List AoeDev → List AoeDev → List Bool → Type 0
Swept e w ds marks used =
    (rest : List AoeDev) × (pass_two e marks used ≡ some (rest, given_back e w ds used))
    × (pass_three rest ≡ staying w ds)

module _ (e : Env) (w : Wanted) (d : AoeDev) (ds marks : List AoeDev) (used : List Bool) where
  Swept-going :
      (m : AoeDev)
      → leaves w d ≡ true
      → going m ≡ true
      → m.sysminor ≡ d.sysminor
      → d.sysminor / e.aoe_partitions < length used
      → Swept e w ds marks (set used (d.sysminor / e.aoe_partitions) false)
      → Swept e w (d ∷ ds) (m ∷ marks) used
  unfolding pass_two pass_three
  Swept-going m l g same inside r =
      let f = freedev-going e m used g (rw same inside) in
      (gone m ∷ r.0, rw (f, same, r.1, l) refl, rw (l, r.2) refl)

  Swept-staying :
      leaves w d ≡ false
      → d.flags.freed ≡ false
      → going d ≡ false
      → Swept e w ds marks used
      → Swept e w (d ∷ ds) (d ∷ marks) used
  unfolding pass_two pass_three
  Swept-staying l f g r =
      (d ∷ r.0, rw (freedev-staying e d used g, r.1, l) refl, rw (l, f, r.2) refl)

pub kill-flags :
    (e : Env) (s : State) → (kill e s).dev.flags ≡ record s.dev.flags { up = false; tkill = true }
unfolding kill
kill-flags e s = ap (λ (f : DevFlags). record f { tkill = true }) (aoedev_downdev_lem e s).0

kill-sysminor : (e : Env) (s : State) → (kill e s).dev.sysminor ≡ s.dev.sysminor
unfolding kill
kill-sysminor e s = (aoedev_downdev_lem e s).5

kill-going : (e : Env) (s : State) → s.dev.flags.freeing ≡ false → going (kill e s).dev ≡ true
kill-going e s f = ap (λ (g : DevFlags). g.tkill && not g.freeing) (kill-flags e s) ∙ ap not f

unmarked-going : (d : AoeDev) → d.flags.freeing ≡ false → d.flags.tkill ≡ true → going d ≡ true
unmarked-going d f t = rw (f, t) refl

idle-going : (d : AoeDev) → d.flags.tkill ≡ false → going d ≡ false
idle-going d t = rw t refl

IsSettled-set :
    (e : Env) (ds : List AoeDev) (used : List Bool) (n : ℕ)
    → All (IsSettled e (length used)) ds
    → All (IsSettled e (length (set used n false))) ds
IsSettled-set e ds used n h = rw (length-set used n false) h

pass_one-doomed :
    (e : Env) (w : Wanted) (d : AoeDev) (ds : List AoeDev) (k : Kern)
    → is_doomed w d ≡ true
    → let s = kill e (record { dev = d; kern = k }) in
      (pass_one e w (d ∷ ds) k).0 ≡ s.dev ∷ (pass_one e w ds s.kern).0
unfolding pass_one
pass_one-doomed e w d ds k y = rw y refl

pass_one-spared :
    (e : Env) (w : Wanted) (d : AoeDev) (ds : List AoeDev) (k : Kern)
    → is_doomed w d ≡ false
    → (pass_one e w (d ∷ ds) k).0 ≡ d ∷ (pass_one e w ds k).0
unfolding pass_one
pass_one-spared e w d ds k n = rw n refl

swept :
    (e : Env) (w : Wanted) (ds : List AoeDev) (k : Kern) (used : List Bool)
    → All (IsSettled e (length used)) ds
    → Swept e w ds (pass_one e w ds k).0 used
unfolding pass_one pass_two pass_three
swept e w [] k used h = ([], refl, refl)
swept e w (d ∷ ds) k used h =
    let n = d.sysminor / e.aoe_partitions in
    let fewer = IsSettled-set e ds used n h.1 in
    let s0 : State = record { dev = d; kern = k } in
    let s = kill e s0 in
    let goal = λ (ms : List AoeDev). Swept e w (d ∷ ds) ms used in
    let inside : n < length used = h.0.2 in
    elim (Bool-cases (is_doomed w d)) [
      | inl y ↦
          let r = swept e w ds s.kern (set used n false) fewer in
          subst goal (sym (pass_one-doomed e w d ds k y)) (
            Swept-going e w d ds (pass_one e w ds s.kern).0 used s.dev
              (ap (λ c. c || d.flags.tkill) y) (kill-going e s0 h.0.0) (kill-sysminor e s0) inside
              r)
      | inr x ↦ subst goal (sym (pass_one-spared e w d ds k x)) (elim (Bool-cases d.flags.tkill) [
        | inl y ↦
            let r = swept e w ds k (set used n false) fewer in
            Swept-going e w d ds (pass_one e w ds k).0 used d (rw (x, y) refl)
              (unmarked-going d h.0.0 y) refl inside r
        | inr y ↦
            Swept-staying e w d ds (pass_one e w ds k).0 used (rw (x, y) refl) h.0.1
              (idle-going d y) (swept e w ds k used h.1)
      ])
    ]

pub sweep_lem :
    (e : Env) (w : Wanted) (drv : Driver)
    → All (IsSettled e (length drv.used_minors)) drv.devlist
    → (k : Kern) × (sweep e w drv
        ≡ some (record {
          devlist = staying w drv.devlist;
          kern = k;
          used_minors = given_back e w drv.devlist drv.used_minors;
        }))
unfolding sweep
sweep_lem e w drv h =
    let r = swept e w drv.devlist drv.kern drv.used_minors h in
    ((pass_one e w drv.devlist drv.kern).1, rw (r.1, r.2) refl)
