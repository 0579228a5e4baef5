-- ===== src/Tools/San/Learned.antt =====
-- What an interface's thread has learned stays in order: `jinput`, `jcheck`.
use aoe.Prelude.{
  ℕ, zero, suc, ◌+◌, ◌/◌, ◌%◌, ◌^◌, ◌≡◌, inl, inr, refl, ap, sym, ◌∙◌, Bool, true, false, Option,
  none, some, List, [], ◌∷◌, arith, ◌==◌, ◌||◌, not, leb, if◌then◌else◌, Bool-cases, get_elem?,
  modify, All,
}
use mathlib.Core.Path.{subst}
use aoe.Types.{AoeHdr}
use aoe.Tools.San.{
  San, Lun, Targ, Sent, Input, walk, insert_at, new_lun, found_or_new, findlun, inserttarg, at_lun,
  config_at, config_input, answered, ata_at, ata_input, jinput, discover,
}
use aoe.Tools.San.Targs
use aoe.Tools.San.Luns
use aoe.Tools.San.Check.{Turn, heard, sent_before, turns, jcheck}

abbrev targ : Lun → Targ
targ l = record { major = l.major; minor = l.minor }

-- The target of each lun is in the list.
abbrev Listed : List Targ → List Lun → Type 0
Listed ts ps = All (λ p. Targs.Among (targ p) ts) ps

-- The luns and the targets are in order, with none twice, and no lun's target is missing.
abbrev pub IsLearned : San → Type 0
IsLearned e = Luns.IsSorted e.luns × Targs.IsSorted e.targlist × Listed e.targlist e.luns

-- The same place: shelf, slot and address.
abbrev SamePlace : Lun → Lun → Type 0
SamePlace p q = (p.major ≡ q.major) × (p.minor ≡ q.minor) × (p.ea ≡ q.ea)

abbrev Keeps : (Lun → Lun) → Type 0
Keeps g = (p : Lun) → SamePlace (g p) p

moved-Before :
    (p q p' q' : Lun) → SamePlace p' p → SamePlace q' q → Luns.Before p q → Luns.Before p' q'
moved-Before p q p' q' h k b = ground (arith, h.0, h.1, h.2, k.0, k.1, k.2, b)

head_modify :
    (g : Lun → Lun) (p : Lun) (ps : List Lun) (i : ℕ)
    → Keeps g
    → Luns.BeforeHead p ps
    → Luns.BeforeHead p (modify g ps i)
head_modify g p [] i k b = tt
head_modify g p (q ∷ ps) zero k b = moved-Before p q p (g q) (refl, refl, refl) (k q) b
head_modify g p (q ∷ ps) (suc i) k b = b

head_moved :
    (p p' : Lun) (ps : List Lun) → SamePlace p' p → Luns.BeforeHead p ps → Luns.BeforeHead p' ps
head_moved p p' [] h b = tt
head_moved p p' (q ∷ ps) h b = moved-Before p q p' q h (refl, refl, refl) b

modify-IsSorted :
    (g : Lun → Lun) (ps : List Lun) (i : ℕ)
    → Keeps g
    → Luns.IsSorted ps
    → Luns.IsSorted (modify g ps i)
modify-IsSorted g [] i k s = tt
modify-IsSorted g (p ∷ ps) zero k s = (head_moved p (g p) ps (k p) s.0, s.1)
modify-IsSorted g (p ∷ ps) (suc i) k s = (head_modify g p ps i k s.0, modify-IsSorted g ps i k s.1)

targ_of : (p q : Lun) → SamePlace p q → targ p ≡ targ q
targ_of p q h =
    let both : ℕ → ℕ → Targ = λ a b. record { major = a; minor = b } in
    ap (λ a. both a p.minor) h.0 ∙ ap (both q.major) h.1

modify-Listed :
    (g : Lun → Lun) (ts : List Targ) (ps : List Lun) (i : ℕ)
    → Keeps g
    → Listed ts ps
    → Listed ts (modify g ps i)
modify-Listed g ts [] i k l = tt
modify-Listed g ts (p ∷ ps) zero k l =
    (subst (λ t. Targs.Among t ts) (sym (targ_of (g p) p (k p))) l.0, l.1)
modify-Listed g ts (p ∷ ps) (suc i) k l = (l.0, modify-Listed g ts ps i k l.1)

at_lun-IsLearned :
    (g : Lun → Lun) (i : ℕ) (e : San) → Keeps g → IsLearned e → IsLearned (at_lun g i e)
at_lun-IsLearned g i e k h =
    (modify-IsSorted g e.luns i k h.0, h.1, modify-Listed g e.targlist e.luns i k h.2)

-- One more target, and one more lun.
more-Listed :
    (nt : Targ) (ts : List Targ) (ps : List Lun)
    → Targs.IsSorted ts
    → Listed ts ps
    → Listed (inserttarg nt ts) ps
more-Listed nt ts [] s l = tt
more-Listed nt ts (p ∷ ps) s l =
    (((Targs.inserttarg_lem nt ts s).1 (targ p)).1 (inr l.0), more-Listed nt ts ps s l.1)

insert_at-Listed :
    (n : Lun) (ts : List Targ) (ps : List Lun) (i : ℕ)
    → Targs.Among (targ n) ts
    → Listed ts ps
    → Listed ts (insert_at ps i n)
insert_at-Listed n ts ps zero a l = (a, l)
insert_at-Listed n ts [] (suc i) a l = (a, tt)
insert_at-Listed n ts (p ∷ ps) (suc i) a l = (l.0, insert_at-Listed n ts ps i a l.1)

-- The luns are in order, whatever `findlun` answers.
luns_of :
    (a : AoeHdr) (e : San) (r : Option ℕ × San)
    → Luns.IsSorted e.luns
    → Luns.Found a e r
    → Luns.IsSorted r.1.luns
luns_of a e (none, e') s f = rw f.1 s
luns_of a e (some i, e') s f = f.3

targets_of :
    (a : AoeHdr) (e : San) (r : ℕ × Bool)
    → IsLearned e
    → let e' = (found_or_new a e r).1 in Targs.IsSorted e'.targlist × Listed e'.targlist e'.luns
targets_of a e (i, true) h = (h.1, h.2)
targets_of a e (i, false) h = elim (Bool-cases (a.cmd == 0)) [
  | inl y ↦ rw y (h.1, h.2)
  | inr n ↦
      let nt : Targ = record { major = a.major; minor = a.minor } in
      let m = Targs.inserttarg_lem nt e.targlist h.1 in
      rw n (
        m.0,
        insert_at-Listed (new_lun a.major a.minor a.src e.id) (inserttarg nt e.targlist) e.luns i
            ((m.1 nt).1 (inl refl)) (more-Listed nt e.targlist e.luns h.1 h.2),
      )
]

found_targets :
    (e : San) (a : AoeHdr)
    → IsLearned e
    → Targs.IsSorted (findlun e a).1.targlist × Listed (findlun e a).1.targlist (findlun e a).1.luns
unfolding findlun
found_targets e a h = targets_of a e (walk a.major a.minor a.src e.luns) h

findlun-IsLearned : (e : San) (a : AoeHdr) → IsLearned e → IsLearned (findlun e a).1
findlun-IsLearned e a h =
    let t = found_targets e a h in
    (luns_of a e (findlun e a) h.0 (Luns.findlun_lem e a h.0), t.0, t.1)

config-IsLearned :
    (ea mtu scnt i : ℕ) (e : San) (o : Option Lun)
    → IsLearned e
    → IsLearned (config_at ea mtu scnt e i o).2
config-IsLearned ea mtu scnt i e none h = h
config-IsLearned ea mtu scnt i e (some l) h = elim (Bool-cases l.probed) [
  | inl y ↦ rw y h
  | inr n ↦ rw n (
      at_lun-IsLearned (λ p. record p { nsect = scnt; probed = true }) i e (λ p. (refl, refl, refl))
        h)
]

ata-IsLearned :
    (tag i : ℕ) (e : San) (o : Option Lun) → IsLearned e → IsLearned (ata_at tag e i o).2
ata-IsLearned tag i e none h = h
ata-IsLearned tag i e (some l) h = elim (Bool-cases (l.id == tag / 2 ^ 16)) [
  | inl y ↦ rw y (at_lun-IsLearned (answered (tag % 2 ^ 8)) i e (λ p. (refl, refl, refl)) h)
  | inr n ↦ rw n h
]

of_config :
    (ea mtu scnt : ℕ) (r : Option ℕ × San)
    → IsLearned r.1
    → IsLearned (config_input ea mtu scnt r).2
unfolding config_input
of_config ea mtu scnt (none, e) h = h
of_config ea mtu scnt (some i, e) h = config-IsLearned ea mtu scnt i e (get_elem? e.luns i) h

of_ata : (tag : ℕ) (r : Option ℕ × San) → IsLearned r.1 → IsLearned (ata_input tag r).2
unfolding ata_input
of_ata tag (none, e) h = h
of_ata tag (some i, e) h = ata-IsLearned tag i e (get_elem? e.luns i) h

-- A choice between results.
either : (b : Bool) (r s : Input) → IsLearned r.2 → IsLearned s.2 → IsLearned (if b then r else s).2
either true r s h k = h
either false r s h k = k

jinput-IsLearned :
    (ea mtu : ℕ) (e : San) (a : AoeHdr) (scnt : ℕ)
    → IsLearned e
    → IsLearned (jinput ea mtu e a scnt).2
unfolding jinput
jinput-IsLearned ea mtu e a scnt h =
    let f = findlun-IsLearned e a h in
    let c = of_config ea mtu scnt (findlun e a) f in
    let t = of_ata a.tag (findlun e a) f in
    let no : Input = (false, [], e) in
    let ata : Input = if a.cmd == 0 then ata_input a.tag (findlun e a) else no in
    let cfg : Input = if a.cmd == 1 then config_input ea mtu scnt (findlun e a) else ata in
    let tagged : Input = if a.tag / 2 ^ 31 % 2 == 0 then no else cfg in
    let t' = either (a.cmd == 0) (ata_input a.tag (findlun e a)) no t h in
    let c' = either (a.cmd == 1) (config_input ea mtu scnt (findlun e a)) ata c t' in
    either (a.verfl / 2 ^ 3 % 2 == 0 || not (a.verfl / 2 ^ 2 % 2 == 0)) no tagged h
      (either (a.tag / 2 ^ 31 % 2 == 0) no cfg h c')

heard-IsLearned :
    (ea mtu : ℕ) (e : San) (o : Option (AoeHdr × ℕ)) → IsLearned e → IsLearned (heard ea mtu e o).2
heard-IsLearned ea mtu e none h = h
heard-IsLearned ea mtu e (some (a, scnt)) h = jinput-IsLearned ea mtu e a scnt h

before-IsLearned :
    (ps : List Sent) (r : List Sent × San) → IsLearned r.1 → IsLearned (sent_before ps r).1
before-IsLearned ps (qs, e) h = h

turns-IsLearned :
    (waitsecs ea mtu t : ℕ) (ks : List Turn) (e : San)
    → IsLearned e
    → IsLearned (turns waitsecs ea mtu t ks e).1
unfolding turns
turns-IsLearned waitsecs ea mtu t [] e h = h
turns-IsLearned waitsecs ea mtu t (k ∷ ks) e h = elim (Bool-cases (leb (t + waitsecs) k.nt)) [
  | inl y ↦ rw y h
  | inr n ↦
      let r = heard ea mtu e k.packet in
      rw n (
        before-IsLearned r.1 (turns waitsecs ea mtu (if r.0 then k.later else t) ks r.2) (
          turns-IsLearned waitsecs ea mtu (if r.0 then k.later else t) ks r.2
            (heard-IsLearned ea mtu e k.packet h)))
]

-- Whatever packets come to an interface's thread, its luns and the targets stay in order, with none
-- twice, and the target of each lun that it knows is in the list of targets, so that the report
-- has it.
pub jcheck-IsLearned :
    (waitsecs ea mtu t : ℕ) (ks : List Turn) (e : San)
    → IsLearned e
    → IsLearned (jcheck waitsecs ea mtu t ks e).1
unfolding jcheck
jcheck-IsLearned waitsecs ea mtu t ks e h =
    before-IsLearned (discover ea ∷ []) (turns waitsecs ea mtu t ks e)
      (turns-IsLearned waitsecs ea mtu t ks e h)
