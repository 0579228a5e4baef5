-- ===== src/Io/Loop.antt =====
-- A completion thread's round, aoecmd.c: `ktio`.
pub mod Bounds
use aoe.Prelude.{
  ℕ, zero, suc, ◌+◌, ◌%◌, Bool, true, false, Option, none, some, List, [], ◌∷◌, ◌++◌, leb, ◌==◌,
  ◌&&◌, not, if◌then◌else◌, get_or, modify,
}
use aoe.Types.{Frame, State, Env}
use aoe.Io.{ktiocomplete}

-- `active` of each of `kts`, and the device whose frames are completed.
pub record Thread : Type 0 where
  pub active : List Bool
  pub state : State

-- `aoe_maxioc`, `ncpus`, the frames that come while the i-th one is completed, and whether
-- `aoe_ktstart` succeeds then.
pub record Load : Type 0 where
  pub aoe_maxioc : ℕ
  pub ncpus : ℕ
  pub arrive : ℕ → List Frame
  pub starts : ℕ → Bool

-- How a round ends: responses remain, or none do, or `BUG_ON` stops it.
pub data Round : Type 0 where
  remain : Round
  done : Round
  bug : Round

abbrev pub actual_id : Load → State → ℕ
actual_id l s = s.dev.aoeminor % l.ncpus

abbrev pub is_active : Load → Thread → Bool
is_active l k = get_or k.active (actual_id l k.state) false

-- The i-th frame is completed, with no lock held.
unfoldable pub complete_one : Env → Frame → Thread → Thread
unfolding ktiocomplete
complete_one e f k = record k { state = ktiocomplete e f k.state }

-- The thread that the device should have is started where it does not run.
abbrev pub spawned : Load → ℕ → Thread → Thread
spawned l i k =
    if not (is_active l k) && l.starts i
    then record k { active = modify (λ a. true) k.active (actual_id l k.state) }
    else k

abbrev pub at_limit : Load → ℕ → Bool
at_limit l i = not (l.aoe_maxioc == 0) && leb l.aoe_maxioc i

-- The round, what is left of the thread's list, and the state.
abbrev pub Result : Type 0
Result = Round × List Frame × Thread

-- The loop of `ktio` on fuel, over the list `iocq[id]`, whose frames are one device's.
unfoldable pub ktio_loop : ℕ → Env → Load → ℕ → ℕ → List Frame → Thread → Option Result
unfolding complete_one
ktio_loop zero e l id i q k = none
ktio_loop (suc fuel) e l id i [] k =
    if at_limit l i then some (remain, [], k) else some (done, [], k)
ktio_loop (suc fuel) e l id i (f ∷ q) k =
    let k' = complete_one e f k in
    let rest = ktio_loop fuel e l id (suc i) (q ++ l.arrive i) (spawned l i k') in
    if at_limit l i
    then some (remain, f ∷ q, k)
    else if not (is_active l k') && not (id == 0)
    then some (bug, q, k')
    else rest

-- `ktio` of thread `id`, for at most `fuel` frames.
unfoldable pub ktio : ℕ → Env → Load → ℕ → List Frame → Thread → Option Result
unfolding ktio_loop
ktio fuel e l id q k = ktio_loop (suc fuel) e l id 0 q k
