-- ===== src/Rexmit/Account.antt =====
-- Sending deferred frames again keeps the account of outstanding commands.
use aoe.Prelude.{
  ℕ, zero, suc, ◌<◌, ◌≡◌, refl, sym, ◌∙◌, Bool, true, false, Option, none, some, List, [], ◌∷◌,
  arith, ◌==◌, ltb, leb, if◌then◌else◌, Bool-cases, inl, inr, ◌&&◌, not,
}
use mathlib.Core.Path.{subst}
use aoe.Prelude.Int.{ltb_ℤ, char_inc}
use aoe.Types.{AoeTgt, Frame, State, Env}
use aoe.Clock.{tsince_hr}
use aoe.Ifs.{ifrotate}
use aoe.Targets.{Slots, first_null, count_untainted}
use aoe.Targets.Bytes.{Every}
use aoe.Frames.{rotated, on_target, aoe_freetframe, newtframe, newframe}
use aoe.Frames.View.{view, view-rotated, view-freetframe, view-newtframe, view-newframe}
use aoe.Frames.Newframe.{first_null-bare}
use aoe.Frames.Quiet.{bare}
use aoe.Send.{payload_size, target_in, dev_tag, nout_inc, ata_rw_frameinit}
use aoe.Send.Account.{
  Balanced, IsBalanced, HasInterface, one_of, IsBalanced-of_view, inc-Balanced, same-Balanced,
  sent-Balanced, frameinit-Balanced, t-frameinit,
}
use aoe.Rexmit.{
  ktcomplete, readdressed, report, zero_filled, probe_frame, resend_on, resend_rotated, resend,
  send_probe, probe, reassign, reassign_frame, probe_if, Deferred, drop, keep, ready, is_zero,
  add_wait, reassigned, classify, release, settle_deferred, walk_deferred, rexmit_deferred,
  scaled_rto,
}

-- A target with an interface has one to rotate to.
ifrotate-HasInterface : (t : AoeTgt) → HasInterface t → (u : AoeTgt) × (ifrotate t ≡ some u)
unfolding ifrotate
ifrotate-HasInterface t h = found (ifrotate t) refl
  where
    found : (o : Option AoeTgt) → ifrotate t ≡ o → (u : AoeTgt) × (ifrotate t ≡ some u)
    found (some u) e = (u, e)
    found none e = absurd (ground arith)

wired-target_in :
    (ts : Slots) (i : ℕ)
    → Every HasInterface (bare ts)
    → i < first_null ts
    → HasInterface (target_in ts i)
wired-target_in [] i w l = absurd (omega arith)
wired-target_in (none ∷ ts) i w l = absurd (omega arith)
wired-target_in (some t ∷ ts) zero w l = w.0
wired-target_in (some t ∷ ts) (suc i) w l = wired-target_in ts i w.1 (omega arith)

same_counts :
    (e : Env) (f : Frame) (tag : ℕ) (t : AoeTgt) (s : State)
    → Balanced (one_of f.t) (view s)
    → Balanced (one_of (readdressed e f tag t).t) (view (report f tag s))
unfolding readdressed report
same_counts e f tag t s b = b

resend_on-Balanced :
    (e : Env) (f : Frame) (tag : ℕ) (t : AoeTgt) (s : State)
    → Balanced (one_of f.t) (view s)
    → IsBalanced (resend_on e f tag t s)
unfolding resend_on
resend_on-Balanced e f tag t s b =
    sent-Balanced e (readdressed e f tag t) (report f tag s) (same_counts e f tag t s b)

-- Without an interface the slot is none of the targets at the front, and nothing was counted.
uncounted :
    (j : ℕ) (s : State)
    → Balanced (one_of j) (view s)
    → (j < first_null s.dev.targets → ⊥)
    → IsBalanced s
uncounted j s b n = record {
  hashed = b.hashed;
  wired = b.wired;
  nouts = λ i l.
      let here : i < first_null s.dev.targets = omega (arith, first_null-bare s.dev.targets) in
      elim (Bool-cases (j == i)) [
        | inl y ↦ let same : j ≡ i = ground arith in absurd (n (omega arith))
        | inr z ↦ ground (arith, b.nouts i l)
      ];
}

some_is_not_none : (u : AoeTgt) → some u ≡ none → ⊥
some_is_not_none u e = cc

resend_rotated-Balanced :
    (e : Env) (f : Frame) (tag : ℕ) (o : Option AoeTgt) (s : State)
    → o ≡ ifrotate (target_in s.dev.targets f.t)
    → Balanced (one_of f.t) (view s)
    → IsBalanced (resend_rotated e f tag o s)
unfolding resend_rotated ktcomplete
resend_rotated-Balanced e f tag none s q b = uncounted f.t s b (λ l.
    let (u, r) =
      ifrotate-HasInterface (target_in s.dev.targets f.t)
        (wired-target_in s.dev.targets f.t b.wired l) in
    (some_is_not_none u (sym r ∙ sym q)))
resend_rotated-Balanced e f tag (some t) s q b =
    resend_on-Balanced e f tag t (on_target rotated f.t s)
      (subst (Balanced (one_of f.t)) (sym (view-rotated f.t s)) b)

-- `resend` of a frame that is counted among its target's.
pub resend-Balanced :
    (e : Env) (f : Frame) (s : State) → Balanced (one_of f.t) (view s) → IsBalanced (resend e f s)
unfolding resend dev_tag
resend-Balanced e f s b =
    resend_rotated-Balanced e f (dev_tag e s.dev).0 _ (record s { dev = (dev_tag e s.dev).1 }) refl
      b

probe_counts :
    (e : Env) (n : ℕ) (f : Frame) (s : State)
    → IsBalanced s
    → let r = ata_rw_frameinit e (probe_frame n f) s in
      Balanced (one_of (zero_filled e n r.0).t) (view r.1)
unfolding zero_filled
probe_counts e n f s b =
    let r = ata_rw_frameinit e (probe_frame n f) s in
    subst (λ j. Balanced (one_of j) (view r.1)) (sym (t-frameinit e (probe_frame n f) s))
      (frameinit-Balanced e (probe_frame n f) s b)

send_probe-Balanced :
    (e : Env) (r : Option Frame × State) → IsBalanced r.1 → IsBalanced (send_probe e r)
unfolding send_probe
send_probe-Balanced e (none, s) b = b
send_probe-Balanced e (some f, s) b =
    let n = payload_size s.dev in
    let r = ata_rw_frameinit e (probe_frame n f) (on_target rotated f.t s) in
    sent-Balanced e (zero_filled e n r.0) r.1 (
      probe_counts e n f (on_target rotated f.t s)
        (IsBalanced-of_view s (on_target rotated f.t s) (view-rotated f.t s) b))

pub probe-Balanced : (e : Env) (i : ℕ) (s : State) → IsBalanced s → IsBalanced (probe e i s)
unfolding probe
probe-Balanced e i s b =
    let r = newtframe e (target_in s.dev.targets i) i s in
    send_probe-Balanced e r
      (IsBalanced-of_view s r.1 (view-newtframe e (target_in s.dev.targets i) i s) b)

reassign-Balanced :
    (f : Frame) (r : Option Frame × State) → IsBalanced r.1 → IsBalanced (reassign f r).1
unfolding reassign
reassign-Balanced f (none, s) b = b
reassign-Balanced f (some nf, s) b = elim (Bool-cases (nf.t == f.t)) [
  | inl y ↦ rw y (IsBalanced-of_view s (aoe_freetframe nf s) (view-freetframe nf s) b)
  | inr n ↦ rw n b
]

reassign_frame-Balanced :
    (e : Env) (f : Frame) (s : State) → IsBalanced s → IsBalanced (reassign_frame e f s).1
unfolding reassign_frame
reassign_frame-Balanced e f s b =
    reassign-Balanced f (newframe e s) (IsBalanced-of_view s (newframe e s).1 (view-newframe e s) b)

pub probe_if-Balanced :
    (e : Env) (want : Bool) (i : ℕ) (s : State) → IsBalanced s → IsBalanced (probe_if e want i s)
unfolding probe_if
probe_if-Balanced e true i s b =
    same-Balanced _ i (probe e i s) (λ t. refl) (λ t w. w) (probe-Balanced e i s b)
probe_if-Balanced e false i s b = b

freed-Balanced : (f : Frame) (s : State) → IsBalanced s → IsBalanced (aoe_freetframe f s)
freed-Balanced f s b = IsBalanced-of_view s (aoe_freetframe f s) (view-freetframe f s) b

reassigned-Balanced :
    (e : Env) (u : ℕ) (f : Frame) (r : Option (Frame × Frame) × State)
    → IsBalanced r.1
    → IsBalanced (reassigned e u f r).1
unfolding reassigned
reassigned-Balanced e u f (none, s) b = b
reassigned-Balanced e u f (some (old, nf), s) b =
    let want = is_zero (target_in s.dev.targets f.t).nout_probes && ltb 0 u in
    freed-Balanced old (probe_if e want f.t s) (probe_if-Balanced e want f.t s b)

-- A choice between two outcomes keeps the account if both do.
either-Balanced {ℓ} :
    {A : Type ℓ} (c : Bool) (x y : A × State)
    → IsBalanced x.1
    → IsBalanced y.1
    → IsBalanced (if c then x else y).1
either-Balanced true x y b b' = b
either-Balanced false x y b b' = b'

pub choice-Balanced :
    (c : Bool) (x y : State) → IsBalanced x → IsBalanced y → IsBalanced (if c then x else y)
choice-Balanced true x y b b' = b
choice-Balanced false x y b b' = b'

classify-Balanced :
    (e : Env) (u : ℕ) (f : Frame) (s : State) → IsBalanced s → IsBalanced (classify e u f s).1
unfolding classify
classify-Balanced e u f s b =
    let t = target_in s.dev.targets f.t in
    let gone : Deferred × State = (drop, s) in
    let stays : Deferred × State = (keep, s) in
    let goes : Deferred × State = (ready f, s) in
    let due = if ltb_ℤ (tsince_hr e f) (scaled_rto s.dev t) then stays else goes in
    let probing = if u == 0 then gone else due in
    let moved = reassigned e u f (reassign_frame e f s) in
    let tainted = if not f.probe then moved else probing in
    let clean = if f.probe then gone else goes in
    either-Balanced (t.taint == 0) clean tainted (either-Balanced f.probe gone goes b b) (
      either-Balanced (not f.probe) moved probing
        (reassigned-Balanced e u f (reassign_frame e f s) (reassign_frame-Balanced e f s b))
        (either-Balanced (u == 0) gone due b
          (either-Balanced (ltb_ℤ (tsince_hr e f) (scaled_rto s.dev t)) stays goes b b)))

release-Balanced : (e : Env) (f : Frame) (s : State) → IsBalanced s → IsBalanced (release e f s).1
unfolding release
release-Balanced e f s b =
    let t = target_in s.dev.targets f.t in
    let since = tsince_hr e f in
    let g = record f {
      waited = add_wait f.waited since;
      waited_total = add_wait f.waited_total since;
    } in
    let inc = λ (t : AoeTgt). record (nout_inc t) {
      nout_probes = if f.probe then char_inc t.nout_probes else t.nout_probes;
    } in
    either-Balanced (leb t.maxout t.nout) (f ∷ [], s) ([], resend e g (on_target inc f.t s)) b
      (resend-Balanced e g (on_target inc f.t s) (inc-Balanced inc f.t s (λ t. refl) (λ t w. w) b))

settle_deferred-Balanced :
    (e : Env) (f : Frame) (r : Deferred × State)
    → IsBalanced r.1
    → IsBalanced (settle_deferred e f r).1
unfolding settle_deferred
settle_deferred-Balanced e f (drop, s) b = freed-Balanced f s b
settle_deferred-Balanced e f (keep, s) b = b
settle_deferred-Balanced e f (ready g, s) b = release-Balanced e g s b

walk_deferred-Balanced :
    (e : Env) (u : ℕ) (fs : List Frame) (s : State)
    → IsBalanced s
    → IsBalanced (walk_deferred e u fs s).1
unfolding walk_deferred
walk_deferred-Balanced e u [] s b = b
walk_deferred-Balanced e u (f ∷ fs) s b =
    let r = settle_deferred e f (classify e u f s) in
    walk_deferred-Balanced e u fs r.1
      (settle_deferred-Balanced e f (classify e u f s) (classify-Balanced e u f s b))

-- `rexmit_deferred` keeps each target's count of outstanding commands equal to the number of its
-- frames in the hash, whatever it frees, reassigns, probes and sends again on the way.
pub rexmit_deferred-Balanced :
    (e : Env) (s : State) → IsBalanced s → IsBalanced (rexmit_deferred e s)
unfolding rexmit_deferred
rexmit_deferred-Balanced e s b =
    walk_deferred-Balanced e (count_untainted s.dev.targets) s.dev.rexmitq s b
