-- ===== src/Rsp/Account.antt =====
-- A response keeps the account of outstanding commands.
use aoe.Prelude.{
  ℕ, ◌+◌, ◌≡◌, refl, Bool, true, false, Option, none, some, List, [], ◌∷◌, arith, if◌then◌else◌,
}
use aoe.Prelude.Int.{ℤ, pos}
use aoe.Types.{AoeTgt, Frame, Response, State, Env, unknown_device}
use aoe.Clock.{tsince, tsince_hr, to_int}
use aoe.Tgt.{grow_window}
use aoe.Targets.{gettgt}
use aoe.Frames.{getframe, getframe_deferred, on_dev, on_target}
use aoe.Frames.Hash.{Buckets, IsHashed, Got, getframe_lem}
use aoe.Frames.View.{view}
use aoe.Send.Account.{Balanced, IsBalanced, is_of, same-Balanced}
use aoe.Timer.Account.{pending, dec-Balanced}
use aoe.Rexmit.{ktcomplete}
use aoe.Work.Account.{aoecmd_work-Balanced}
use aoe.Rsp.{
  averaged, calc_rttavg, say, found_late, late_at, unexpected, answered, rsp_deferred, credited,
  rsp_active, is_for, aoecmd_ata_rsp,
}

grow_window-nout : (t : AoeTgt) → ((grow_window t).nout ≡ t.nout) × ((grow_window t).ifs ≡ t.ifs)
unfolding grow_window
grow_window-nout t = (ground arith, ground arith)

calc_rttavg-Balanced :
    {extra : ℕ → ℕ} (o : Option ℕ) (rtt : ℤ) (s : State)
    → Balanced extra (view s)
    → Balanced extra (view (calc_rttavg o rtt s))
unfolding calc_rttavg
calc_rttavg-Balanced none rtt s b = b
calc_rttavg-Balanced (some i) rtt s b =
    same-Balanced grow_window i (on_dev (averaged rtt) s) (λ t. (grow_window-nout t).0)
      (λ t w. rw (grow_window-nout t).1 w) b

late_at-Balanced : (o : Option ℕ) (s : State) → IsBalanced s → IsBalanced (late_at o s)
unfolding late_at
late_at-Balanced none s b = b
late_at-Balanced (some i) s b = same-Balanced found_late i s (λ t. refl) (λ t w. w) b

unexpected-Balanced :
    (e : Env) (r : Response) (s : State) → IsBalanced s → IsBalanced (unexpected e r s).1
unfolding unexpected
unexpected-Balanced e r s b =
    let rtt = to_int (pos (tsince e.jiffies_to_usecs e.jiffies r.hdr.tag)) in
    late_at-Balanced (gettgt s.dev.targets r.hdr.src) (calc_rttavg none rtt s)
      (calc_rttavg-Balanced none rtt s b)

answered-Balanced :
    (e : Env) (r : Response) (f : Frame) (s : State)
    → IsBalanced s
    → IsBalanced (answered e r f s).1
unfolding answered ktcomplete
answered-Balanced e r f s b = aoecmd_work-Balanced e s b

rsp_deferred-Balanced :
    (e : Env) (r : Response) (x : Option Frame × List Frame) (s : State)
    → IsBalanced s
    → IsBalanced (rsp_deferred e r x s).1
unfolding rsp_deferred
rsp_deferred-Balanced e r (none, q) s b = unexpected-Balanced e r s b
rsp_deferred-Balanced e r (some f, q) s b =
    let s' = on_dev (λ d. record d { rexmitq = q }) s in
    answered-Balanced e r f (calc_rttavg none (tsince_hr e f) s')
      (calc_rttavg-Balanced none (tsince_hr e f) s' b)

-- The frame that the response takes out is still counted.
taken_out :
    (tag : ℕ) (f : Frame) (bs : Buckets) (s : State)
    → IsBalanced s
    → Got tag s.dev.factive (some f) bs
    → IsHashed bs
    → Balanced (pending (f ∷ [])) (view (on_dev (λ d. record d { factive = bs }) s))
taken_out tag f bs s b got h = record {
  hashed = h;
  wired = b.wired;
  nouts = λ i l. ground (arith, b.nouts i l, got.1 (is_of i));
}

rsp_active-Balanced :
    (e : Env) (r : Response) (x : Option Frame × Buckets) (s : State)
    → Got r.hdr.tag s.dev.factive x.0 x.1
    → IsHashed x.1
    → IsBalanced s
    → IsBalanced (rsp_active e r x s).1
unfolding rsp_active
rsp_active-Balanced e r (none, bs) s got h b =
    rsp_deferred-Balanced e r (getframe_deferred r.hdr.tag s.dev.rexmitq) s b
rsp_active-Balanced e r (some f, bs) s got h b =
    let s1 = on_dev (λ d. record d { factive = bs }) s in
    let s2 = calc_rttavg (some f.t) (tsince_hr e f) s1 in
    answered-Balanced e r f (on_target (credited f) f.t s2) (
      dec-Balanced (credited f) f [] s2 (λ t. refl) (λ t w. w)
        (calc_rttavg-Balanced (some f.t) (tsince_hr e f) s1 (taken_out r.hdr.tag f bs s b got h)))

chosen-Balanced :
    (c : Bool) (x y : Bool × State)
    → IsBalanced x.1
    → IsBalanced y.1
    → IsBalanced (if c then x else y).1
chosen-Balanced true x y b b' = b
chosen-Balanced false x y b b' = b'

-- A response keeps each target's count of outstanding commands equal to the number of its frames
-- in the hash: whether it answers an active frame, a deferred one, or none, and whether the device
-- is known, and whatever work the device does once the window has room.
pub aoecmd_ata_rsp-Balanced :
    (e : Env) (r : Response) (s : State) → IsBalanced s → IsBalanced (aoecmd_ata_rsp e r s).1
unfolding aoecmd_ata_rsp
aoecmd_ata_rsp-Balanced e r s b =
    let s' = on_dev (λ d. record d { ref = d.ref + 1 }) s in
    let got = getframe_lem r.hdr.tag s.dev.factive b.hashed in
    let x = getframe r.hdr.tag s.dev.factive in
    chosen-Balanced (is_for s.dev r) (rsp_active e r x s')
      (true, say (unknown_device r.hdr.major r.hdr.minor) s)
      (rsp_active-Balanced e r x s' got.0 got.1 b) b
