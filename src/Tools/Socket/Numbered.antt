-- ===== src/Tools/Socket/Numbered.antt =====
-- The tags of the packets that a tool has sent count up from a first one, in 32 bits.
use aoe.Prelude.{
  ℕ, suc, ◌+◌, ◌%◌, ◌^◌, ◌≤◌, ◌≡◌, inl, inr, ap, sym, ◌∙◌, Bool, true, false, List, [], ◌∷◌, length,
  Bool-cases, arith,
}
use aoe.Tools.Socket.{
  Packet, Event, failed, timed_out, got, Socket, Ran, stopped, ran, written, send, and_then,
  read_until, receive, fits,
}

abbrev pub Numbered : ℕ → List Packet → Type 0
Numbered t [] = Unit
Numbered t (p ∷ ps) = (p.hdr.tag ≡ (t + length ps) % 2 ^ 32) × Numbered t ps

-- With `n` packets sent.
abbrev pub Sent : ℕ → ℕ → Socket → Type 0
Sent t n s = Numbered t s.sent × (length s.sent ≡ n)

-- At most `m` packets are sent at the end, and exactly `n` where the tool goes on.
abbrev pub After : {A : Type 0} → ℕ → ℕ → ℕ → Ran A → Type 0
After t n m (stopped e s) = Numbered t s.sent × (length s.sent ≤ m)
After t n m (ran a s) = Sent t n s

pub After-and_then :
    {A B : Type 0} (t n n' m : ℕ) (r : Ran A) (k : A → Socket → Ran B)
    → After t n m r
    → ((a : A) (s : Socket) → Sent t n s → After t n' m (k a s))
    → After t n' m (and_then r k)
After-and_then t n n' m (stopped e s) k h f = h
After-and_then t n n' m (ran a s) k h f = f a s h

-- At most `m`, however it ends.
abbrev pub UpTo : {A : Type 0} → ℕ → ℕ → Ran A → Type 0
UpTo t m (stopped e s) = Numbered t s.sent × (length s.sent ≤ m)
UpTo t m (ran a s) = Numbered t s.sent × (length s.sent ≤ m)

pub UpTo-and_then :
    {A B : Type 0} (t n m : ℕ) (r : Ran A) (k : A → Socket → Ran B)
    → After t n m r
    → ((a : A) (s : Socket) → Sent t n s → UpTo t m (k a s))
    → UpTo t m (and_then r k)
UpTo-and_then t n m (stopped e s) k h f = h
UpTo-and_then t n m (ran a s) k h f = f a s h

written-After :
    (t n m : ℕ) (ws : List Bool) (p : Packet) (s : Socket)
    → p.hdr.tag ≡ (t + n) % 2 ^ 32
    → suc n ≤ m
    → Sent t n s
    → After t (suc n) m (written ws p s)
written-After t n m [] p s h l k =
    ((h ∙ ap (λ i. (t + i) % 2 ^ 32) (sym k.1), k.0), omega (arith, k.1))
written-After t n m (true ∷ ws) p s h l k =
    ((h ∙ ap (λ i. (t + i) % 2 ^ 32) (sym k.1), k.0), omega (arith, k.1))
written-After t n m (false ∷ ws) p s h l k = (k.0, omega (arith, k.1, l))

pub send-After :
    (t n m : ℕ) (p : Packet) (s : Socket)
    → p.hdr.tag ≡ (t + n) % 2 ^ 32
    → suc n ≤ m
    → Sent t n s
    → After t (suc n) m (send p s)
unfolding send
send-After t n m p s = written-After t n m s.writes p s

read_until-After :
    (t n m : ℕ) (ok : Packet → Bool) (rs : List Event) (s : Socket)
    → n ≤ m
    → Sent t n s
    → After t n m (read_until ok rs s)
unfolding read_until
read_until-After t n m ok [] s l k = (k.0, omega (arith, k.1, l))
read_until-After t n m ok (failed ∷ rs) s l k = (k.0, omega (arith, k.1, l))
read_until-After t n m ok (timed_out ∷ rs) s l k = (k.0, omega (arith, k.1, l))
read_until-After t n m ok (got p ∷ rs) s l k = elim (Bool-cases (fits ok p)) [
  | inl y ↦ rw y k
  | inr z ↦ rw z (read_until-After t n m ok rs s l k)
]

pub receive-After :
    (t n m : ℕ) (ok : Packet → Bool) (s : Socket) → n ≤ m → Sent t n s → After t n m (receive ok s)
unfolding receive
receive-After t n m ok s = read_until-After t n m ok s.reads s
