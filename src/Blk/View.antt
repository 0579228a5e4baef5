-- ===== src/Blk/View.antt =====
-- Requests and bufs apart: taking a buf and ending requests leave targets and frames alone.
use aoe.Prelude.{
  ℕ, ◌≡◌, refl, ap, ◌∙◌, Bool, true, Option, none, some, List, [], ◌∷◌, get_elem?, Bool-cases, inl,
  inr,
}
use aoe.Types.{Bio, Request, State, next_alloc}
use aoe.Targets.{Slots}
use aoe.Frames.Hash.{Buckets}
use aoe.Frames.Quiet.{bare}
use aoe.Frames.View.{view}
use aoe.Blk.{
  find_rq, start_request, init_buf, alloc_buf, buf_of_queue, buf_of_request, buf_in_progress,
  nextbuf_from, nextbuf, end_request, fail_each, fail_queue, fail_pending, set_dev,
}

-- The targets, free lists and all, and the active frames.
abbrev pub whole : State → Slots × Buckets
whole s = (s.dev.targets, s.dev.factive)

pub view_of_whole : (s s' : State) → whole s' ≡ whole s → view s' ≡ view s
view_of_whole s s' e = ap (λ (x : Slots × Buckets). (bare x.0, x.1)) e

whole-init_buf : (rq : Request) (b : Option Bio) (s : State) → whole (init_buf rq b s).1 ≡ whole s
unfolding init_buf
whole-init_buf rq none s = refl
whole-init_buf rq (some b) s = refl

whole-alloc_buf : (o : Option Request) (s : State) → whole (alloc_buf o s).1 ≡ whole s
unfolding alloc_buf
whole-alloc_buf none s = refl
whole-alloc_buf (some rq) s = elim (Bool-cases (next_alloc s.kern.allocs).0) [
  | inl y ↦ rw y (whole-init_buf rq (get_elem? rq.bios s.dev.ip.nxbio) _)
  | inr n ↦ rw n
]

whole-buf_of_queue : (q : List Request) (s : State) → whole (buf_of_queue q s).1 ≡ whole s
unfolding buf_of_queue start_request
whole-buf_of_queue [] s = refl
whole-buf_of_queue (rq ∷ rest) s =
    whole-alloc_buf (some rq) (set_dev s (start_request rq rest s.dev))

whole-buf_of_request :
    (o : Option ℕ) (q : List Request) (s : State) → whole (buf_of_request o q s).1 ≡ whole s
unfolding buf_of_request
whole-buf_of_request none q s = whole-buf_of_queue q s
whole-buf_of_request (some id) q s = whole-alloc_buf (find_rq id s.dev.started) s

whole-buf_in_progress :
    (o : Option ℕ) (q : List Request) (s : State) → whole (buf_in_progress o q s).1 ≡ whole s
unfolding buf_in_progress
whole-buf_in_progress none q s = whole-buf_of_request s.dev.ip.rq q s
whole-buf_in_progress (some id) q s = refl

whole-nextbuf_from : (o : Option (List Request)) (s : State) → whole (nextbuf_from o s).1 ≡ whole s
unfolding nextbuf_from
whole-nextbuf_from none s = refl
whole-nextbuf_from (some q) s = whole-buf_in_progress s.dev.ip.buf q s

pub whole-nextbuf : (s : State) → whole (nextbuf s).1 ≡ whole s
unfolding nextbuf
whole-nextbuf s = whole-nextbuf_from s.dev.blkq s

pub whole-end_request : (id : ℕ) (ff : Bool) (s : State) → whole (end_request id ff s) ≡ whole s
unfolding end_request
whole-end_request id ff s = refl

whole-fail_each : (q : List Request) (s : State) → whole (fail_each q s) ≡ whole s
unfolding fail_each
whole-fail_each [] s = refl
whole-fail_each (rq ∷ rest) s =
    let s' = record s { dev = record s.dev { started = rq ∷ s.dev.started } } in
    whole-fail_each rest (end_request rq.id true s') ∙ whole-end_request rq.id true s'

whole-fail_queue : (o : Option (List Request)) (s : State) → whole (fail_queue o s) ≡ whole s
unfolding fail_queue
whole-fail_queue none s = refl
whole-fail_queue (some q) s = whole-fail_each q s

pub whole-fail_pending : (s : State) → whole (fail_pending s) ≡ whole s
unfolding fail_pending
whole-fail_pending s = whole-fail_queue s.dev.blkq s

pub view-nextbuf : (s : State) → view (nextbuf s).1 ≡ view s
view-nextbuf s = view_of_whole s (nextbuf s).1 (whole-nextbuf s)

pub view-fail_pending : (s : State) → view (fail_pending s) ≡ view s
view-fail_pending s = view_of_whole s (fail_pending s) (whole-fail_pending s)
