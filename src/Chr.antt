-- ===== src/Chr.antt =====
-- The error messages that a reader gets from /dev/etherd/err, aoechr.c: `aoechr_error`,
-- `aoechr_read`. A message is its bytes.
pub mod Fifo
use aoe.Prelude.{
  ℕ, ◌+◌, ◌%◌, Bool, true, false, Option, none, some, List, [], ◌∷◌, ltb, ◌==◌, ◌||◌, if◌then◌else◌,
  length, get_or, set,
}

abbrev pub nmsg : ℕ
nmsg = 100

-- `emsgs` with its two indices; an entry is valid if it holds a message.
pub record Ring : Type 0 where
  pub emsgs : List (Option (List ℕ))
  pub head : ℕ
  pub tail : ℕ

pub error_at : Option (List ℕ) → Bool → List ℕ → Ring → Ring
error_at (some m) allocated msg r = r
error_at none false msg r = r
error_at none true msg r = record r {
  emsgs = set r.emsgs r.tail (some msg);
  tail = (r.tail + 1) % length r.emsgs;
}

-- `aoechr_error`, given whether the copy of the message can be allocated.
unfoldable pub aoechr_error : Bool → List ℕ → Ring → Ring
unfolding error_at
aoechr_error allocated msg r = error_at (get_or r.emsgs r.tail none) allocated msg r

-- What a read answers: a message, EAGAIN, or that it waits for a message.
pub data ReadAnswer : Type 0 where
  message : List ℕ → ReadAnswer
  again : ReadAnswer
  waits : ReadAnswer

-- The oldest message leaves the ring.
abbrev pub advance : Ring → Ring
advance r = record r { emsgs = set r.emsgs r.head none; head = (r.head + 1) % length r.emsgs }

pub read_at : Option (List ℕ) → Bool → ℕ → Ring → ReadAnswer × Ring
read_at none ndelay cnt r = (if ndelay then again else waits, r)
read_at (some m) ndelay cnt r = if ltb cnt (length m) then (again, r) else (message m, advance r)

-- `aoechr_read` of the file with the messages, with the copy to the user done: one pass of its loop.
unfoldable pub aoechr_read : Bool → ℕ → Ring → ReadAnswer × Ring
unfolding read_at
aoechr_read ndelay cnt r = read_at (get_or r.emsgs r.head none) ndelay cnt r
