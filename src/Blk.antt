-- ===== src/Blk.antt =====
-- Requests, bios and bufs, aoecmd.c: `rqbiocnt`, `bufinit`, `nextbuf`, the accounting of
-- `aoe_end_buf` and `aoe_end_request`; aoedev.c: `aoe_failip`'s loop.
pub mod View
use aoe.Prelude.{
  ℕ, ◌+◌, ◌-◌, ◌%◌, ◌^◌, Bool, true, Option, none, some, List, [], ◌∷◌, ◌++◌, map, ltb, ◌==◌, ◌&&◌,
  not, if◌then◌else◌, length, get_elem?,
}
use aoe.Types.{AoeDev, Bio, Request, Buf, State, Kern, next_alloc}
use aoe.Ifs.{same}

abbrev pub find_rq : ℕ → List Request → Option Request
find_rq id [] = none
find_rq id (r ∷ rs) = if r.id == id then some r else find_rq id rs

abbrev pub on_rq : (Request → Request) → ℕ → List Request → List Request
on_rq g id [] = []
on_rq g id (r ∷ rs) = (if r.id == id then g r else r) ∷ on_rq g id rs

abbrev pub drop_rq : ℕ → List Request → List Request
drop_rq id [] = []
drop_rq id (r ∷ rs) = let rest = drop_rq id rs in if r.id == id then rest else r ∷ rest

abbrev pub find_buf : ℕ → List Buf → Option Buf
find_buf id [] = none
find_buf id (b ∷ bs) = if b.id == id then some b else find_buf id bs

abbrev pub on_buf : (Buf → Buf) → ℕ → List Buf → List Buf
on_buf g id [] = []
on_buf g id (b ∷ bs) = (if b.id == id then g b else b) ∷ on_buf g id bs

abbrev pub drop_buf : ℕ → List Buf → List Buf
drop_buf id [] = []
drop_buf id (b ∷ bs) = let rest = drop_buf id bs in if b.id == id then rest else b ∷ rest

abbrev pub set_dev : State → AoeDev → State
set_dev s d = record s { dev = d }

-- `nextbuf` takes the head of the queue where no request is in progress: the request is started,
-- `special` is its count of bios.
pub start_request : Request → List Request → AoeDev → AoeDev
start_request rq rest d = record d {
  blkq = some rest;
  started = record rq { special = length rq.bios } ∷ d.started;
  ip = record d.ip { rq = some rq.id; nxbio = 0 };
}

-- A buf for the next bio of the request in progress; behind the last the request is no longer in
-- progress. `none` for the bio is a request without one, at which the code would fault.
pub init_buf : Request → Option Bio → State → Option Buf × State
init_buf rq none s = (none, s)
init_buf rq (some bio) s =
    let d = s.dev in
    let buf : Buf = record {
      id = s.kern.fresh;
      nframesout = 0;
      bio = d.ip.nxbio;
      write = bio.write;
      iter = bio.iter;
      rq = rq.id;
    } in
    let nx = d.ip.nxbio + 1 in
    (
      some buf,
      record {
        dev = record d {
          bufs = buf ∷ d.bufs;
          ip = record {
            buf = some buf.id;
            nxbio = nx;
            rq = if ltb nx (length rq.bios) then some rq.id else none;
          };
        };
        kern = record s.kern { fresh = s.kern.fresh + 1 };
      },
    )

-- The allocation from `bufpool` may fail.
pub alloc_buf : Option Request → State → Option Buf × State
unfolding init_buf
alloc_buf none s = (none, s)
alloc_buf (some rq) s =
    let (ok, rest) = next_alloc s.kern.allocs in
    let s' = record s { kern = record s.kern { allocs = rest } } in
    if ok then init_buf rq (get_elem? rq.bios s.dev.ip.nxbio) s' else (none, s')

pub buf_of_queue : List Request → State → Option Buf × State
unfolding start_request alloc_buf
buf_of_queue [] s = (none, s)
buf_of_queue (rq ∷ rest) s = alloc_buf (some rq) (set_dev s (start_request rq rest s.dev))

pub buf_of_request : Option ℕ → List Request → State → Option Buf × State
unfolding buf_of_queue alloc_buf
buf_of_request none q s = buf_of_queue q s
buf_of_request (some id) q s = alloc_buf (find_rq id s.dev.started) s

pub buf_in_progress : Option ℕ → List Request → State → Option Buf × State
unfolding buf_of_request
buf_in_progress (some id) q s = (find_buf id s.dev.bufs, s)
buf_in_progress none q s = buf_of_request s.dev.ip.rq q s

pub nextbuf_from : Option (List Request) → State → Option Buf × State
unfolding buf_in_progress
nextbuf_from none s = (none, s)
nextbuf_from (some q) s = buf_in_progress s.dev.ip.buf q s

-- `nextbuf`; none is NULL.
unfoldable pub nextbuf : State → Option Buf × State
unfolding nextbuf_from
nextbuf s = nextbuf_from s.dev.blkq s

-- `__blk_end_request` for each bio of a request in turn, and the request is gone.
pub ended_by : Bool → Option Request → Kern → Kern
ended_by fastfail none k = k
ended_by fastfail (some rq) k = record k {
  ended =
      k.ended
      ++ (record { rq = rq.id; bios = map (λ b. not fastfail && not b.error) rq.bios }) ∷ [];
}

-- `aoe_end_request` as far as running the queue again.
unfoldable pub end_request : ℕ → Bool → State → State
unfolding ended_by
end_request id fastfail s =
    let d = s.dev in
    record {
      dev = record d {
        ip = record d.ip { rq = if same (some id) d.ip.rq then none else d.ip.rq };
        started = drop_rq id d.started;
      };
      kern = ended_by fastfail (find_rq id d.started) s.kern;
    }

-- `blk_peek_request`, `blk_start_request` and `aoe_end_request(d, rq, 1)` until the queue is empty.
unfoldable pub fail_each : List Request → State → State
unfolding end_request
fail_each [] s = s
fail_each (rq ∷ rest) s =
    fail_each rest
      (end_request rq.id true (record s { dev = record s.dev { started = rq ∷ s.dev.started } }))

unfoldable pub fail_queue : Option (List Request) → State → State
unfolding fail_each
fail_queue none s = s
fail_queue (some q) s =
    let s' = fail_each q s in record s' { dev = record s'.dev { blkq = some [] } }

-- The loop of `aoeblk_request` for a device that is not up, and of `aoedev_downdev`.
unfoldable pub fail_pending : State → State
unfolding fail_queue
fail_pending s = fail_queue s.dev.blkq s
