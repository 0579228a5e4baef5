-- ===== src/Frames.antt =====
-- The frames of a device, aoecmd.c: `getframe`, `getframe_deferred`, `fhash`, `aoe_freetframe`, the
-- skb pool, `newtframe` and `newframe`.
pub mod Hash
pub mod Quiet
pub mod Newframe
pub mod View
pub mod Home
pub mod Chosen
pub mod Sound
use aoe.Prelude.{
  ℕ, zero, suc, ◌+◌, ◌*◌, ◌%◌, ◌^◌, Bool, true, false, Option, none, some, List, [], ◌∷◌, ◌++◌, ltb,
  leb, ◌==◌, ◌&&◌, ◌||◌, not, if◌then◌else◌, length, get_or, modify,
}
use aoe.Types.{
  AoeDev, AoeTgt, Frame, Skb, State, Kern, Env, next_alloc, zero_iter, zero_hdr, zero_ata, zero_if,
  nothing, nfactive, nskbpoolmax,
}
use aoe.Ifs.{ifrotate, is_null}
use aoe.Targets.{Slots, at_slot, first_null}

-- The walk of `list_for_each_safe` to the first frame with the tag, which leaves the list.
unfoldable pub take_tag : ℕ → List Frame → Option Frame × List Frame
take_tag tag [] = (none, [])
take_tag tag (f ∷ fs) =
    let (found, rest) = take_tag tag fs in if f.tag == tag then (some f, fs) else (found, f ∷ rest)

unfoldable pub getframe : ℕ → List (List Frame) → Option Frame × List (List Frame)
getframe tag buckets =
    let n = tag % nfactive in
    let (found, rest) = take_tag tag (get_or buckets n []) in (found, modify (λ _. rest) buckets n)

unfoldable pub getframe_deferred : ℕ → List Frame → Option Frame × List Frame
getframe_deferred tag rexmitq = take_tag tag rexmitq

unfoldable pub fhash : Frame → List (List Frame) → List (List Frame)
fhash f buckets = modify (λ fs. fs ++ f ∷ []) buckets (f.tag % nfactive)

abbrev pub on_dev : (AoeDev → AoeDev) → State → State
on_dev g s = record s { dev = g s.dev }

abbrev pub on_target : (AoeTgt → AoeTgt) → ℕ → State → State
on_target g i s = record s { dev = record s.dev { targets = at_slot g s.dev.targets i } }

-- The frame goes back to its target's free list; it keeps its skb, its tag and its times.
unfoldable pub aoe_freetframe : Frame → State → State
aoe_freetframe f =
    on_target
      (λ t. record t {
        ffree = record f { buf = none; iter = zero_iter; r_skb = none; probe = false } ∷ t.ffree;
      })
      f.t

-- `new_skb`: an empty skb at a fresh address, or NULL.
unfoldable pub new_skb : Kern → Option Skb × Kern
new_skb k =
    let (ok, rest) = next_alloc k.allocs in
    if ok
    then (
      some (record {
        id = k.fresh;
        hdr = zero_hdr;
        ata = zero_ata;
        data_len = 0;
        payload = nothing;
        dev = none;
      }),
      record k { allocs = rest; fresh = k.fresh + 1 },
    )
    else (none, record k { allocs = rest })

unfoldable pub skb_pool_put : Skb → AoeDev → AoeDev
skb_pool_put skb d = record d { skbpool = d.skbpool ++ skb ∷ [] }

-- A new skb counts as one of the pool's.
pub count_skb : Option Skb × Kern → State → Option Skb × State
count_skb (none, k) s = (none, record s { kern = k })
count_skb (some skb, k) s =
    (some skb, record s { kern = k; dev = record s.dev { nskbpool = s.dev.nskbpool + 1 } })

-- The second part of `skb_pool_get`, where the pool's head is not to be had.
pub grow_skb_pool : State → Option Skb × State
unfolding new_skb count_skb
grow_skb_pool s = if ltb s.dev.nskbpool nskbpoolmax then count_skb (new_skb s.kern) s else (none, s)

pub get_from_pool : Env → List Skb → State → Option Skb × State
get_from_pool e [] s = grow_skb_pool s
get_from_pool e (skb ∷ rest) s =
    if e.busy skb.id
    then grow_skb_pool s
    else (some skb, record s { dev = record s.dev { skbpool = rest } })

unfoldable pub skb_pool_get : Env → State → Option Skb × State
unfolding get_from_pool grow_skb_pool
skb_pool_get e s = get_from_pool e s.dev.skbpool s

-- A frame as `aoe_kcalloc` makes it, for the target in slot `i`.
abbrev pub zero_frame : ℕ → Frame
zero_frame i = record {
  tag = 0;
  sent = 0;
  sent_jiffs = 0;
  waited = 0;
  waited_total = 0;
  t = i;
  skb = none;
  r_skb = none;
  buf = none;
  iter = zero_iter;
  nout = 0;
  probe = false;
}

-- The outcome of the allocation of a frame.
pub fresh_frame : Bool → ℕ → State → Option Frame × State
fresh_frame false i s = (none, s)
fresh_frame true i s =
    (some (zero_frame i), on_target (λ t. record t { falloc = t.falloc + 1 }) i s)

-- `newtframe` takes a frame from the target's free list, or allocates one below the cap.
pub frame_for : AoeTgt → List Frame → ℕ → State → Option Frame × State
unfolding fresh_frame
frame_for t [] i s =
    let (ok, rest) = next_alloc s.kern.allocs in
    if leb (nskbpoolmax * 2) t.falloc
    then (none, s)
    else fresh_frame ok i (record s { kern = record s.kern { allocs = rest } })
frame_for t (f ∷ fs) i s = (some f, on_target (λ t. record t { ffree = fs }) i s)

abbrev pub trimmed : Skb → Skb
trimmed skb = record skb { data_len = 0; payload = nothing }

-- The frame's skb goes to the pool for the one that came from it; without one the frame is freed.
pub swap_skb : Frame → Skb → Option Skb × State → Option Frame × State
unfolding skb_pool_put aoe_freetframe
swap_skb f skb (none, s) = (none, aoe_freetframe (record f { skb = some skb }) s)
swap_skb f skb (some other, s) =
    (some (record f { skb = some (trimmed other) }), on_dev (skb_pool_put skb) s)

-- The frame has an skb: take another from the pool if the network layer still holds it.
pub with_idle_skb : Env → Frame → Skb → State → Option Frame × State
unfolding skb_pool_get swap_skb
with_idle_skb e f skb s =
    if e.busy skb.id
    then swap_skb f skb (skb_pool_get e s)
    else (some (record f { skb = some (trimmed skb) }), s)

pub first_skb : Env → Frame → Option Skb × Kern → State → Option Frame × State
unfolding with_idle_skb aoe_freetframe
first_skb e f (none, k) s = (none, aoe_freetframe f (record s { kern = k }))
first_skb e f (some skb, k) s = with_idle_skb e f skb (record s { kern = k })

pub any_skb : Env → Frame → Option Skb → State → Option Frame × State
unfolding first_skb new_skb
any_skb e f none s = first_skb e f (new_skb s.kern) s
any_skb e f (some skb) s = with_idle_skb e f skb s

pub with_skb : Env → Option Frame × State → Option Frame × State
unfolding any_skb
with_skb e (none, s) = (none, s)
with_skb e (some f, s) = any_skb e f f.skb s

-- `newtframe` for the target `t` in slot `i`; none is NULL.
unfoldable pub newtframe : Env → AoeTgt → ℕ → State → Option Frame × State
unfolding frame_for with_skb
newtframe e t i s = with_skb e (frame_for t t.ffree i s)

-- What a round of `newframe`'s search comes to.
pub data Search : Type 0 where
  found : Frame → Search
  gave_up : ℕ → Search
  out_of_fuel : Search

-- Whether the search may use a target.
abbrev pub is_usable : AoeTgt → Bool → Bool
is_usable t use_tainted =
    ltb t.nout t.maxout
    && (use_tainted || t.taint == 0)
    && not (is_null (get_or t.ifs t.ifp zero_if).nd)

abbrev pub rotated : AoeTgt → AoeTgt
rotated t = elim (ifrotate t) [ none ↦ t | some t' ↦ t' ]

pub settle : ℕ → Option Frame × State → Option Frame × State
unfolding ifrotate
settle slot (none, s) = (none, s)
settle slot (some f, s) = (some f, on_dev (λ d. record d { tgt = slot }) (on_target rotated slot s))

-- `newtframe` for a usable target; on success the target's interface moves on, and `d->tgt` is it.
pub try_target : Env → AoeTgt → ℕ → Bool → State → Option Frame × State
unfolding newtframe settle
try_target e t slot use_tainted s =
    if is_usable t use_tainted then settle slot (newtframe e t slot s) else (none, s)

-- The slot behind `slot`, or the first one behind the table's end and before an empty slot.
abbrev pub next_slot : Slots → ℕ → ℕ
next_slot ts slot = elim (get_or ts (slot + 1) none) [ none ↦ 0 | some t ↦ slot + 1 ]

-- The variables of `newframe`'s loop; `slot` is that of `tt`.
pub record Hunt : Type 0 where
  pub slot : ℕ
  pub use_tainted : Bool
  pub has_untainted : Bool
  pub totout : ℕ
  pub state : State

pub data Round : Type 0 where
  stop : Search → State → Round
  go : Hunt → Round

-- The end of a round: back at the target used last, the search goes round once more, with the tainted
-- targets, if it met no other.
pub after_try : Hunt → Option Frame × State → Round
after_try h (some f, s) = stop (found f) s
after_try h (none, s) =
    if h.slot == s.dev.tgt
    then (if not h.use_tainted && not h.has_untainted
        then go (record h { use_tainted = true; state = s })
        else stop (gave_up h.totout) s)
    else go (record h { state = s })

-- What a round counts of the target that it looks at.
pub tally : Hunt → AoeTgt → Hunt
tally h t =
    if t.taint == 0 then record h { has_untainted = true; totout = h.totout + t.nout } else h

pub visit : Env → Hunt → Option AoeTgt → Round
unfolding after_try try_target tally
visit e h none = stop (gave_up h.totout) h.state
visit e h (some t) = after_try (tally h t) (try_target e t h.slot h.use_tainted h.state)

-- One round of the loop.
pub search_round : Env → Hunt → Round
unfolding visit
search_round e h =
    let slot' = next_slot h.state.dev.targets h.slot in
    visit e (record h { slot = slot' }) (get_or h.state.dev.targets slot' none)

unfoldable pub search_from : ℕ → Env → Hunt → Search × State
unfolding search_round
search_from zero e h = (out_of_fuel, h.state)
search_from (suc fuel) e h = elim (search_round e h) [
  | stop r s ↦ (r, s)
  | go h' ↦ search_from fuel e h'
]

-- What `newframe` does with the search's outcome: where nothing is outstanding at the untainted
-- targets, the timer is asked to start the device again.
pub conclude : Search × State → Option Frame × State
conclude (found f, s) = (some f, s)
conclude (out_of_fuel, s) = (none, s)
conclude (gave_up totout, s) =
    if totout == 0
    then (
      none,
      on_dev (λ d. record d { kicked = d.kicked + 1; flags = record d.flags { kickme = true } }) s,
    )
    else (none, s)

abbrev pub start_hunt : State → Hunt
start_hunt s = record {
  slot = s.dev.tgt;
  use_tainted = false;
  has_untainted = false;
  totout = 0;
  state = s;
}

-- `newframe`. The search goes round the targets at most twice.
unfoldable pub newframe : Env → State → Option Frame × State
unfolding search_from conclude
newframe e s =
    if first_null s.dev.targets == 0
    then (none, s)
    else conclude (search_from (2 * length s.dev.targets) e (start_hunt s))
