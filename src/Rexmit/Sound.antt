-- ===== src/Rexmit/Sound.antt =====
-- Sending deferred frames again leaves every free frame with its slot, and the windows as they are.
use aoe.Prelude.{
  ℕ, zero, suc, ◌+◌, ◌≡◌, refl, Bool, true, false, Option, none, some, List, [], ◌∷◌, arith, All,
  ◌==◌, ltb, leb, ◌&&◌, not, if◌then◌else◌, Bool-cases, inl, inr,
}
use mathlib.Core.Path.{subst}
use aoe.Prelude.Int.{char_inc, ltb_ℤ}
use aoe.Types.{AoeTgt, Frame, State, Env, next_alloc}
use aoe.Clock.{tsince_hr}
use aoe.Ifs.{ifrotate}
use aoe.Tgt.{new_target}
use aoe.Targets.{Slots, count_untainted}
use aoe.Frames.{on_target, newtframe, newframe, rotated}
use aoe.Frames.Home.{IsOf, HomedFrom}
use aoe.Frames.Sound.{
  IsSound, on_target-IsSound, freetframe-IsSound, newtframe-IsSound, newframe-IsSound,
}
use aoe.Send.{target_in, dev_tag, nout_inc, payload_size, ata_rw_frameinit, transmit, hash_frame}
use aoe.Rexmit.{
  ktcomplete, readdressed, report, zero_filled, probe_frame, resend_on, resend_rotated, resend,
  send_probe, probe, reassign, reassign_frame, probe_if, is_zero, Deferred, drop, keep, ready,
  reassigned, scaled_rto, classify, add_wait, release, settle_deferred, walk_deferred,
  rexmit_deferred,
}

IsSound-either {ℓ} :
    {A : Type ℓ} (c : Bool) (x y : A × State)
    → IsSound x.1
    → IsSound y.1
    → IsSound (if c then x else y).1
IsSound-either true x y h k = h
IsSound-either false x y h k = k

transmit-IsSound : (e : Env) (f : Frame) (s : State) → IsSound s → IsSound (transmit e f s).1
unfolding transmit
transmit-IsSound e f s w = elim (Bool-cases (next_alloc s.kern.allocs).0) [
  | inl y ↦ rw y w
  | inr n ↦ rw n w
]

sent-IsSound : (e : Env) (f : Frame) (s : State) → IsSound s → IsSound (hash_frame (transmit e f s))
unfolding hash_frame
sent-IsSound e f s w = transmit-IsSound e f s w

rotated-same : (t : AoeTgt) → ((rotated t).ffree ≡ t.ffree) × ((rotated t).maxout ≡ t.maxout)
unfolding ifrotate
rotated-same t = (ground arith, ground arith)

rotated-IsSound : (i : ℕ) (s : State) → IsSound s → IsSound (on_target rotated i s)
rotated-IsSound i s w =
    on_target-IsSound rotated i s (λ t. (rotated-same t).0) (λ t. (rotated-same t).1) w

resend_rotated-IsSound :
    (e : Env) (f : Frame) (tag : ℕ) (o : Option AoeTgt) (s : State)
    → IsSound s
    → IsSound (resend_rotated e f tag o s)
unfolding resend_rotated resend_on ktcomplete report
resend_rotated-IsSound e f tag none s w = w
resend_rotated-IsSound e f tag (some t) s w =
    let s' = on_target rotated f.t s in
    sent-IsSound e (readdressed e f tag t) (report f tag s') (rotated-IsSound f.t s w)

resend-IsSound : (e : Env) (f : Frame) (s : State) → IsSound s → IsSound (resend e f s)
unfolding resend dev_tag
resend-IsSound e f s w =
    resend_rotated-IsSound e f (dev_tag e s.dev).0 (ifrotate (target_in s.dev.targets f.t))
      (record s { dev = (dev_tag e s.dev).1 }) w

frameinit-IsSound :
    (e : Env) (f : Frame) (s : State) → IsSound s → IsSound (ata_rw_frameinit e f s).1
unfolding ata_rw_frameinit dev_tag
frameinit-IsSound e f s w =
    on_target-IsSound _ f.t (record s { dev = (dev_tag e s.dev).1 }) (λ t. refl) (λ t. refl) w

send_probe-IsSound : (e : Env) (r : Option Frame × State) → IsSound r.1 → IsSound (send_probe e r)
unfolding send_probe
send_probe-IsSound e (none, s) w = w
send_probe-IsSound e (some f, s) w =
    let n = payload_size s.dev in
    let r = ata_rw_frameinit e (probe_frame n f) (on_target rotated f.t s) in
    sent-IsSound e (zero_filled e n r.0) r.1
      (frameinit-IsSound e (probe_frame n f) (on_target rotated f.t s) (rotated-IsSound f.t s w))

target_in-free :
    (n i k : ℕ) (ts : Slots) → k ≡ n + i → HomedFrom n ts → All (IsOf k) (target_in ts i).ffree
unfolding new_target
target_in-free n i k [] e w = tt
target_in-free n zero k (none ∷ ts) e w = tt
target_in-free n zero k (some t ∷ ts) e w = subst (λ m. All (IsOf m) t.ffree) (omega arith) w.0
target_in-free n (suc i) k (none ∷ ts) e w = target_in-free (suc n) i k ts (omega arith) w
target_in-free n (suc i) k (some t ∷ ts) e w = target_in-free (suc n) i k ts (omega arith) w.1

pub probe-IsSound : (e : Env) (i : ℕ) (s : State) → IsSound s → IsSound (probe e i s)
unfolding probe
probe-IsSound e i s w =
    let t = target_in s.dev.targets i in
    send_probe-IsSound e (newtframe e t i s)
      (newtframe-IsSound e t i s (target_in-free 0 i i s.dev.targets (omega arith) w.homed) w)

reassign-IsSound : (f : Frame) (r : Option Frame × State) → IsSound r.1 → IsSound (reassign f r).1
unfolding reassign
reassign-IsSound f (none, s) w = w
reassign-IsSound f (some nf, s) w = elim (Bool-cases (nf.t == f.t)) [
  | inl y ↦ rw y (freetframe-IsSound nf s w)
  | inr n ↦ rw n w
]

pub probe_if-IsSound :
    (e : Env) (want : Bool) (i : ℕ) (s : State) → IsSound s → IsSound (probe_if e want i s)
unfolding probe_if
probe_if-IsSound e true i s w =
    on_target-IsSound _ i (probe e i s) (λ t. refl) (λ t. refl) (probe-IsSound e i s w)
probe_if-IsSound e false i s w = w

reassigned-IsSound :
    (e : Env) (u : ℕ) (f : Frame) (r : Option (Frame × Frame) × State)
    → IsSound r.1
    → IsSound (reassigned e u f r).1
unfolding reassigned
reassigned-IsSound e u f (none, s) w = w
reassigned-IsSound e u f (some (old, nf), s) w =
    let want = is_zero (target_in s.dev.targets f.t).nout_probes && ltb 0 u in
    freetframe-IsSound old (probe_if e want f.t s) (probe_if-IsSound e want f.t s w)

classify-IsSound :
    (e : Env) (u : ℕ) (f : Frame) (s : State) → IsSound s → IsSound (classify e u f s).1
unfolding classify reassign_frame
classify-IsSound e u f s w =
    let t = target_in s.dev.targets f.t in
    let gone : Deferred × State = (drop, s) in
    let stays : Deferred × State = (keep, s) in
    let goes : Deferred × State = (ready f, s) in
    let due = if ltb_ℤ (tsince_hr e f) (scaled_rto s.dev t) then stays else goes in
    let probing = if u == 0 then gone else due in
    let moved = reassigned e u f (reassign f (newframe e s)) in
    let tainted = if not f.probe then moved else probing in
    let clean = if f.probe then gone else goes in
    IsSound-either (t.taint == 0) clean tainted (IsSound-either f.probe gone goes w w) (
      IsSound-either (not f.probe) moved probing
        (reassigned-IsSound e u f (reassign f (newframe e s))
          (reassign-IsSound f (newframe e s) (newframe-IsSound e s w)))
        (IsSound-either (u == 0) gone due w
          (IsSound-either (ltb_ℤ (tsince_hr e f) (scaled_rto s.dev t)) stays goes w w)))

release-IsSound : (e : Env) (f : Frame) (s : State) → IsSound s → IsSound (release e f s).1
unfolding release
release-IsSound e f s w =
    let t = target_in s.dev.targets f.t in
    let since = tsince_hr e f in
    let g = record f {
      waited = add_wait f.waited since;
      waited_total = add_wait f.waited_total since;
    } in
    let inc = λ (t : AoeTgt). record (nout_inc t) {
      nout_probes = if f.probe then char_inc t.nout_probes else t.nout_probes;
    } in
    IsSound-either (leb t.maxout t.nout) (f ∷ [], s) ([], resend e g (on_target inc f.t s)) w
      (resend-IsSound e g (on_target inc f.t s)
        (on_target-IsSound inc f.t s (λ t. refl) (λ t. refl) w))

settle_deferred-IsSound :
    (e : Env) (f : Frame) (r : Deferred × State) → IsSound r.1 → IsSound (settle_deferred e f r).1
unfolding settle_deferred
settle_deferred-IsSound e f (drop, s) w = freetframe-IsSound f s w
settle_deferred-IsSound e f (keep, s) w = w
settle_deferred-IsSound e f (ready g, s) w = release-IsSound e g s w

walk_deferred-IsSound :
    (e : Env) (u : ℕ) (fs : List Frame) (s : State) → IsSound s → IsSound (walk_deferred e u fs s).1
unfolding walk_deferred
walk_deferred-IsSound e u [] s w = w
walk_deferred-IsSound e u (f ∷ fs) s w =
    let r = settle_deferred e f (classify e u f s) in
    walk_deferred-IsSound e u fs r.1
      (settle_deferred-IsSound e f (classify e u f s) (classify-IsSound e u f s w))

pub rexmit_deferred-IsSound : (e : Env) (s : State) → IsSound s → IsSound (rexmit_deferred e s)
unfolding rexmit_deferred
rexmit_deferred-IsSound e s w =
    walk_deferred-IsSound e (count_untainted s.dev.targets) s.dev.rexmitq s w
