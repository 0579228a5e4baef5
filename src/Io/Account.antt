-- ===== src/Io/Account.antt =====
-- The end of a command keeps the account of outstanding commands.
use aoe.Prelude.{
  ℕ, ◌-◌, ◌*◌, ◌^◌, ◌≡◌, refl, Option, none, some, List, [], ◌∷◌, ltb, ◌==◌, ◌&&◌, ◌||◌,
  if◌then◌else◌,
}
use aoe.Types.{AoeTgt, Frame, Response, State, Env, Buf, next_alloc}
use aoe.Ifs.{getif}
use aoe.Targets.{count_untainted}
use aoe.Frames.{aoe_freetframe, on_target}
use aoe.Frames.View.{view-freetframe}
use aoe.Send.{target_in}
use aoe.Send.Account.{IsBalanced, HasInterface, IsBalanced-of_view, same-Balanced}
use aoe.Rexmit.{probe_if, is_zero}
use aoe.Rexmit.Account.{choice-Balanced, probe_if-Balanced}
use aoe.Fail.{aoe_end_buf, aoe_failbuf}
use aoe.Fail.Account.{end_buf-Balanced, failbuf-Balanced}
use aoe.Timer.Account.{modified-nd}
use aoe.Ident.{ataid_complete, identified, resized, schedule_work}
use aoe.Io.{
  sent_ata, ata_failed, fail_buf, bvcpy, found_at, no_loss, read_done, ident_done, dispatch,
  ktio_check, untaint, end_if_last, buf_at, one_less, ktio_finish, ktiocomplete, flush_frame,
  flush_frames, aoe_flush_iocq,
}

-- What a response means changes no count.
fail_buf-Balanced : (o : Option Buf) (s : State) → IsBalanced s → IsBalanced (fail_buf o s)
unfolding fail_buf
fail_buf-Balanced none s b = b
fail_buf-Balanced (some c) s b = b

bvcpy-Balanced :
    (o : Option Buf) (f : Frame) (r : Response) (n : ℕ) (s : State)
    → IsBalanced s
    → IsBalanced (bvcpy o f r n s)
unfolding bvcpy
bvcpy-Balanced none f r n s b = b
bvcpy-Balanced (some c) f r n s b = b

found_at-HasInterface : (o : Option ℕ) (t : AoeTgt) → HasInterface t → HasInterface (found_at o t)
unfolding found_at
found_at-HasInterface none t w = w
found_at-HasInterface (some i) t w =
    rw (modified-nd (λ p. record p { lost = 0 }) t.ifs i 0 (λ p. refl)) w

found_at-nout : (o : Option ℕ) (t : AoeTgt) → (found_at o t).nout ≡ t.nout
unfolding found_at
found_at-nout none t = refl
found_at-nout (some i) t = refl

no_loss-Balanced :
    (f : Frame) (r : Response) (s : State) → IsBalanced s → IsBalanced (no_loss f r s)
unfolding no_loss
no_loss-Balanced f r s b =
    same-Balanced (λ t. found_at (getif t r.dev) t) f.t s (λ t. found_at-nout (getif t r.dev) t)
      (λ t w. found_at-HasInterface (getif t r.dev) t w) b

read_done-Balanced :
    (o : Option Buf) (f : Frame) (r : Response) (n : ℕ) (s : State)
    → IsBalanced s
    → IsBalanced (read_done o f r n s)
unfolding read_done
read_done-Balanced o f r n s b =
    let failed = fail_buf o s in
    let good = no_loss f r (bvcpy o f r n s) in
    let kb = fail_buf-Balanced o s b in
    choice-Balanced (ltb r.len n) failed (if ltb f.iter.size n then failed else good) kb (
      choice-Balanced (ltb f.iter.size n) failed good kb
        (no_loss-Balanced f r (bvcpy o f r n s) (bvcpy-Balanced o f r n s b)))

ataid-Balanced : (id : List ℕ) (s : State) → IsBalanced s → IsBalanced (ataid_complete id s)
unfolding ataid_complete
ataid-Balanced id s b =
    let d = identified id s.dev in
    choice-Balanced (d.flags.gdalloc || d.flags.newsize) (record s { dev = d })
      (record s { dev = resized d.capacity d.ssize d; kern = schedule_work s.kern }) b
      (sized d.capacity)
  where
    sized :
        (o : Option ℕ)
        → IsBalanced (record s {
          dev = resized o (identified id s.dev).ssize (identified id s.dev);
          kern = schedule_work s.kern;
        })
    sized none = b
    sized (some c) = b

ident_done-Balanced : (r : Response) (s : State) → IsBalanced s → IsBalanced (ident_done r s)
unfolding ident_done
ident_done-Balanced r s b =
    let s' = record s { kern = record s.kern { allocs = (next_alloc s.kern.allocs).1 } } in
    let ok = (next_alloc s.kern.allocs).0 in
    choice-Balanced (ltb r.len 512) s (if ok then ataid_complete r.bytes s' else s') b
      (choice-Balanced ok (ataid_complete r.bytes s') s' (ataid-Balanced r.bytes s' b) b)

dispatch-Balanced :
    (o : Option Buf) (f : Frame) (r : Response) (s : State)
    → IsBalanced s
    → IsBalanced (dispatch o f r s)
unfolding dispatch
dispatch-Balanced o f r s b =
    let out = sent_ata f.skb in
    let c = out.cmdstat in
    let n = out.scnt * 2 ^ 9 in
    let ident = if c == 0xec then ident_done r s else s in
    let write = if c == 0x30 || c == 0x34 then no_loss f r s else ident in
    choice-Balanced (c == 0x20 || c == 0x24) (read_done o f r n s) write
      (read_done-Balanced o f r n s b)
      (choice-Balanced (c == 0x30 || c == 0x34) (no_loss f r s) ident (no_loss-Balanced f r s b)
        (choice-Balanced (c == 0xec) (ident_done r s) s (ident_done-Balanced r s b) b))

ktio_check-Balanced :
    (o : Option Buf) (f : Frame) (r : Option Response) (s : State)
    → IsBalanced s
    → IsBalanced (ktio_check o f r s)
unfolding ktio_check
ktio_check-Balanced o f none s b = fail_buf-Balanced o s b
ktio_check-Balanced o f (some r) s b =
    choice-Balanced (ata_failed r.ata.cmdstat) (fail_buf o s) (dispatch o f r s)
      (fail_buf-Balanced o s b) (dispatch-Balanced o f r s b)

untaint-Balanced : (e : Env) (i : ℕ) (s : State) → IsBalanced s → IsBalanced (untaint e i s)
unfolding untaint
untaint-Balanced e i s b =
    let t = target_in s.dev.targets i in
    let less = λ (t : AoeTgt). record t { taint = t.taint - 1 } in
    let s' = on_target less i s in
    let want = ltb 1 t.taint && is_zero t.nout_probes && ltb 0 (count_untainted s'.dev.targets) in
    choice-Balanced (t.taint == 0) s (probe_if e want i s') b
      (probe_if-Balanced e want i s' (same-Balanced less i s (λ t. refl) (λ t w. w) b))

end_if_last-Balanced :
    (e : Env) (o : Option Buf) (s : State) → IsBalanced s → IsBalanced (end_if_last e o s)
unfolding end_if_last
end_if_last-Balanced e none s b = b
end_if_last-Balanced e (some c) s b =
    choice-Balanced (c.nframesout == 0 && c.iter.size == 0) (aoe_end_buf e c s) s
      (end_buf-Balanced e c s b) b

one_less-Balanced : (o : Option ℕ) (s : State) → IsBalanced s → IsBalanced (one_less o s)
unfolding one_less
one_less-Balanced none s b = b
one_less-Balanced (some id) s b = b

freed-Balanced : (f : Frame) (s : State) → IsBalanced s → IsBalanced (aoe_freetframe f s)
freed-Balanced f s b = IsBalanced-of_view s (aoe_freetframe f s) (view-freetframe f s) b

ktio_finish-Balanced :
    (e : Env) (f : Frame) (s : State) → IsBalanced s → IsBalanced (ktio_finish e f s)
unfolding ktio_finish
ktio_finish-Balanced e f s b =
    let s1 = untaint e f.t s in
    let s2 = aoe_freetframe f s1 in
    let s3 = one_less f.buf s2 in
    end_if_last-Balanced e (buf_at f.buf s3) s3
      (one_less-Balanced f.buf s2 (freed-Balanced f s1 (untaint-Balanced e f.t s b)))

-- The completion of a command keeps each target's count of outstanding commands equal to the number
-- of its frames in the hash: for a probe, a failed, short or good response or none, through the
-- probe of a tainted target, and through the work that starts when a request has ended.
pub ktiocomplete-Balanced :
    (e : Env) (f : Frame) (s : State) → IsBalanced s → IsBalanced (ktiocomplete e f s)
unfolding ktiocomplete
ktiocomplete-Balanced e f s b =
    let c = ktio_check (buf_at f.buf s) f f.r_skb s in
    ktio_finish-Balanced e f (if f.probe then s else c)
      (choice-Balanced f.probe s c b (ktio_check-Balanced (buf_at f.buf s) f f.r_skb s b))

flush_frame-Balanced :
    (e : Env) (f : Frame) (s : State) → IsBalanced s → IsBalanced (flush_frame e f s)
unfolding flush_frame
flush_frame-Balanced e f s b =
    let s1 = one_less f.buf s in
    let s2 = aoe_failbuf e f.buf s1 in
    freed-Balanced f s2 (failbuf-Balanced e f.buf s1 (one_less-Balanced f.buf s b))

flush_frames-Balanced :
    (e : Env) (fs : List Frame) (s : State) → IsBalanced s → IsBalanced (flush_frames e fs s)
unfolding flush_frames
flush_frames-Balanced e [] s b = b
flush_frames-Balanced e (f ∷ fs) s b =
    flush_frames-Balanced e fs (flush_frame e f s) (flush_frame-Balanced e f s b)

-- Flushing what the completion threads have not seen to keeps the account.
pub flush_iocq-Balanced : (e : Env) (s : State) → IsBalanced s → IsBalanced (aoe_flush_iocq e s)
unfolding aoe_flush_iocq
flush_iocq-Balanced e s b =
    flush_frames-Balanced e s.kern.completions
      (record s { kern = record s.kern { completions = [] } }) b
