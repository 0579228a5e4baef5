-- ===== src/Open/Parts.antt =====
-- Identification, and the parts of the work that shows a disk, keep a device coherent.
use aoe.Prelude.{
  choose, ℕ, ◌≡◌, refl, ◌∙◌, true, false, Option, none, some, List, arith, ◌&&◌, ◌||◌, not,
  Bool-cases, inl, inr,
}
use aoe.Types.{AoeDev, DevFlags, State}
use aoe.Frames.{on_dev}
use aoe.Ident.{sectors_of, identified, resized, schedule_work, ataid_complete, sleepwork_newsize}
use aoe.Open.{gd_begin, gd_fail, gd_publish, no_gd_now, in_making, is_in_making}
use aoe.Open.Life.{Phase, resting, building, showing, begun, Agrees, Making, IsCoherent}

pub Making-same :
    (p : Phase) (d d' : AoeDev) → is_in_making d' ≡ is_in_making d → Making p d → Making p d'
Making-same resting d d' e m = tt
Making-same building d d' e m = e ∙ m
Making-same showing d d' e m = tt

is_made : (d : AoeDev) → d.flags.gdalloc ≡ false → is_in_making d ≡ false
is_made d g = rw g (ground arith)

Agrees-due :
    (f : DevFlags) (o : Option ℕ) → o ≡ none → Agrees f o → Agrees (record f { gdalloc = true }) o
Agrees-due f none e a = a
Agrees-due f (some n) e a = absurd (cc e)

making_due :
    (f : DevFlags) (o : Option ℕ)
    → (f.gdalloc && not f.tkill && not f.gd_now) ≡ true
    → Agrees f o
    → (f.gdalloc && not f.tkill && elim o [ none ↦ true | some n ↦ false ] && not f.up) ≡ true
making_due f none y a = ground (arith, a.0)
making_due f (some n) y a = ground (arith, a)

resized-IsCoherent :
    (o : Option ℕ) (n : ℕ) (s : State) (p : Phase)
    → s.dev.capacity ≡ o
    → s.dev.flags.gdalloc ≡ false
    → IsCoherent (s, p)
    → IsCoherent (record s { dev = resized o n s.dev; kern = schedule_work s.kern }, p)
resized-IsCoherent none n s resting e g c = record {
  agrees = Agrees-due s.dev.flags s.dev.capacity e c.agrees;
  making = tt;
}
resized-IsCoherent none n s showing e g c = record {
  agrees = Agrees-due s.dev.flags s.dev.capacity e c.agrees;
  making = tt;
}
resized-IsCoherent none n s building e g c = absurd (cc (c.making, is_made s.dev g))
resized-IsCoherent (some old) n s resting e g c = record { agrees = g; making = tt }
resized-IsCoherent (some old) n s showing e g c = record { agrees = g; making = tt }
resized-IsCoherent (some old) n s building e g c = absurd (cc (c.making, is_made s.dev g))

pub ident-IsCoherent :
    (id : List ℕ) (s : State) (p : Phase) → IsCoherent (s, p) → IsCoherent (ataid_complete id s, p)
unfolding ataid_complete
ident-IsCoherent id s p c =
    let t : State = record s { dev = identified id s.dev } in
    let ct : IsCoherent (t, p) = record {
      agrees = c.agrees;
      making = Making-same p s.dev t.dev refl c.making;
    } in
    elim (Bool-cases (s.dev.flags.gdalloc || s.dev.flags.newsize)) [
      | inl y ↦ rw y ct
      | inr n ↦ rw n (resized-IsCoherent s.dev.capacity (sectors_of id) t p refl (ground arith) ct)
    ]

pub begin-IsCoherent : (s : State) → IsCoherent (s, resting) → IsCoherent (begun s (gd_begin s.dev))
unfolding gd_begin
begin-IsCoherent s c =
    elim (Bool-cases (s.dev.flags.gdalloc && not s.dev.flags.tkill && not s.dev.flags.gd_now)) [
      | inl y ↦
          rw y (record {
            agrees = c.agrees;
            making = making_due s.dev.flags s.dev.capacity y c.agrees;
          })
      | inr n ↦ rw n c
    ]

pub publish-IsCoherent :
    (s : State) → IsCoherent (s, building) → IsCoherent (on_dev gd_publish s, showing)
unfolding gd_publish
publish-IsCoherent s c = record { agrees = refl; making = tt }

pub fail-IsCoherent : (s : State) → IsCoherent (s, building) → IsCoherent (gd_fail s, resting)
unfolding gd_fail
fail-IsCoherent s c = record { agrees = c.agrees; making = tt }

pub finish-IsCoherent :
    (s : State) → IsCoherent (s, showing) → IsCoherent (on_dev no_gd_now s, resting)
finish-IsCoherent s c = record { agrees = c.agrees; making = tt }

Agrees-up :
    (f : DevFlags) (o : Option ℕ)
    → f.newsize ≡ true
    → Agrees f o
    → Agrees (record f { up = true; newsize = false }) o
Agrees-up f none e a = absurd (cc (a.1, e))
Agrees-up f (some n) e a = a

no_news : (f : DevFlags) (o : Option ℕ) → f.newsize ≡ true → Agrees f o → in_making f o ≡ false
no_news f none e a = absurd (cc (a.1, e))
no_news f (some n) e a = ground arith

Making-up :
    (p : Phase) (s : State)
    → s.dev.flags.newsize ≡ true
    → IsCoherent (s, p)
    → Making p (record s.dev { flags = record s.dev.flags { up = true; newsize = false } })
Making-up resting s e c = tt
Making-up showing s e c = tt
Making-up building s e c = absurd (cc (c.making, no_news s.dev.flags s.dev.capacity e c.agrees))

pub newsize-IsCoherent :
    (s : State) (p : Phase) → IsCoherent (s, p) → IsCoherent (on_dev sleepwork_newsize s, p)
unfolding sleepwork_newsize
newsize-IsCoherent s p c =
    choose (λ d. IsCoherent (record s { dev = d }, p)) s.dev.flags.newsize
      (record s.dev { flags = record s.dev.flags { up = true; newsize = false } }) s.dev
      (λ y. record {
        agrees = Agrees-up s.dev.flags s.dev.capacity y c.agrees;
        making = Making-up p s y c;
      })
      (λ n. c)
