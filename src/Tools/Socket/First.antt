-- ===== src/Tools/Socket/First.antt =====
-- Which packet a loop of `read` answers.
use aoe.Prelude.{
  ◌≡◌, ◌↔◌, inl, inr, refl, ap, ◌∙◌, Bool, true, false, List, [], ◌∷◌, ◌++◌, map, All, Bool-cases,
}
use mathlib.Core.Path.{subst}
use aoe.Tools.Socket.{
  Packet, Event, failed, timed_out, got, Socket, Ran, stopped, ran, read_until, receive, fits,
}

-- The packet is the first that passes the test: those before do not, and nothing else comes before.
abbrev pub IsFirst : (Packet → Bool) → List Event → Packet → List Event → Type 0
IsFirst ok rs p rest =
    (ps : List Packet) × (rs ≡ map got ps ++ got p ∷ rest)
    × All (λ q. fits ok q ≡ false) ps
    × (fits ok p ≡ true)

read_until-IsFirst :
    (ok : Packet → Bool) (ps : List Packet) (p : Packet) (rest : List Event) (s : Socket)
    → All (λ q. fits ok q ≡ false) ps
    → fits ok p ≡ true
    → read_until ok (map got ps ++ got p ∷ rest) s ≡ ran p (record s { reads = rest })
unfolding read_until
read_until-IsFirst ok [] p rest s a h = rw h refl
read_until-IsFirst ok (q ∷ ps) p rest s a h = rw a.0 (read_until-IsFirst ok ps p rest s a.1 h)

-- What the result says of the events.
abbrev Told : (Packet → Bool) → List Event → Socket → Ran Packet → Type 0
Told ok rs s (stopped e s') = Unit
Told ok rs s (ran p s') = IsFirst ok rs p s'.reads × (s' ≡ record s { reads = s'.reads })

told_behind :
    (ok : Packet → Bool) (q : Packet) (rs : List Event) (s : Socket) (r : Ran Packet)
    → fits ok q ≡ false
    → Told ok rs s r
    → Told ok (got q ∷ rs) s r
told_behind ok q rs s (stopped e s') h t = tt
told_behind ok q rs s (ran p s') h t =
    let f = t.0 in ((q ∷ f.0, ap (λ w. got q ∷ w) f.1, (h, f.2), f.3), t.1)

told : (ok : Packet → Bool) (rs : List Event) (s : Socket) → Told ok rs s (read_until ok rs s)
unfolding read_until
told ok [] s = tt
told ok (failed ∷ rs) s = tt
told ok (timed_out ∷ rs) s = tt
told ok (got p ∷ rs) s = elim (Bool-cases (fits ok p)) [
  | inl y ↦ rw y (([], refl, tt, y), refl)
  | inr n ↦ rw n (told_behind ok p rs s (read_until ok rs s) n (told ok rs s))
]

-- A loop of `read` answers a packet exactly where it is the first of at least 60 bytes that passes
-- the test, and no failure and no end of the time came before it; it reads no further.
pub receive_lem :
    (ok : Packet → Bool) (s : Socket) (p : Packet) (rest : List Event)
    → (receive ok s ≡ ran p (record s { reads = rest })) ↔ IsFirst ok s.reads p rest
unfolding receive
receive_lem ok s p rest = (forth, back)
  where
    forth : receive ok s ≡ ran p (record s { reads = rest }) → IsFirst ok s.reads p rest
    forth h = (subst (Told ok s.reads s) h (told ok s.reads s)).0

    back : IsFirst ok s.reads p rest → receive ok s ≡ ran p (record s { reads = rest })
    back h = ap (λ rs. read_until ok rs s) h.1 ∙ read_until-IsFirst ok h.0 p rest s h.2 h.3
