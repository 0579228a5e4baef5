-- ===== src/Tgt/Window.antt =====
-- The congestion window and the taint stay in bounds.
use aoe.Prelude.{zero, suc, refl, ℕ, ◌+◌, ◌≤◌, ◌<◌, ◌≡◌, ◌↔◌, ◌⊎◌, arith}
use aoe.Types.{AoeTgt, max_taint}
use aoe.Tgt.{aoecmd_wreset, scorn, grow_window, note_loss, less_tainted, new_target, set_nframes}

-- The window is at most the target's buffer count, or one where that is 0.
pub record IsBounded (t : AoeTgt) : Type 0 where
  pub window : (t.maxout ≤ 1) ⊎ (t.maxout ≤ t.nframes)
  pub taint : t.taint ≤ max_taint

pub new_target-IsBounded : (addr n : ℕ) → IsBounded (new_target addr n)
unfolding new_target
new_target-IsBounded addr n = ground arith

-- The reset of the window, scorn, growth, a loss, the taint that a probe's success takes away, and a
-- new number of buffers keep a target's window and taint in bounds, and a new target has them so.
pub window_ops-IsBounded :
    (t : AoeTgt) (n addr : ℕ)
    → IsBounded t
    → IsBounded (aoecmd_wreset t)
      × IsBounded (scorn t)
      × IsBounded (grow_window t)
      × IsBounded (note_loss t)
      × IsBounded (less_tainted t)
      × IsBounded (set_nframes t n)
      × IsBounded (new_target addr n)
unfolding aoecmd_wreset scorn grow_window note_loss set_nframes
window_ops-IsBounded t n addr h = (
  ground arith,
  ground arith,
  ground arith,
  ground arith,
  record { window = h.window; taint = omega (arith, h.taint) },
  ground arith,
  new_target-IsBounded addr n,
)

-- The target after the window's share of `n` responses.
pub responses : ℕ → AoeTgt → AoeTgt
unfolding grow_window
responses zero t = t
responses (suc n) t = grow_window (responses n t)

-- Slow start: a response grows the window, as long as it is below both the threshold and the
-- target's buffer count, so `n` responses open it by `n` up to the lesser of the two; they leave
-- the threshold and the buffer count alone.
pub slow_start :
    (n : ℕ) (t : AoeTgt)
    → t.maxout + n ≤ t.ssthresh
    → t.maxout + n ≤ t.nframes
    → ((responses n t).maxout ≡ t.maxout + n)
      × ((responses n t).ssthresh ≡ t.ssthresh)
      × ((responses n t).nframes ≡ t.nframes)
unfolding responses
slow_start zero t h k = (omega arith, refl, refl)
slow_start (suc n) t h k = ground (arith, slow_start n t (omega arith) (omega arith))

-- Scorning raises the taint to at least three times what it was, or to the cap.
pub scorn_grows :
    (t : AoeTgt)
    → t.taint ≤ max_taint
    → (t.taint ≤ (scorn t).taint)
      × (((scorn t).taint ≡ max_taint) ⊎ (t.taint + t.taint + t.taint < (scorn t).taint))
unfolding scorn
scorn_grows t h = (ground arith, ground arith)

-- A new target has an open window exactly when it announced at least two buffers: with one, its
-- window is 0.
pub new_target_window : (addr n : ℕ) → (0 < (new_target addr n).maxout) ↔ (2 ≤ n)
unfolding new_target
new_target_window addr n = (λ h. omega arith, λ h. omega arith)
