-- ===== src/Control/Timers.antt =====
-- How long the saving of images stays on.
use deepstream_fpfilter.Prelude.{
  ℕ, zero, suc, ◌+◌, ◌≤◌, ◌≡◌, refl, sym, ap, ◌∙◌, Bool, true, false, List, [], ◌∷◌, ◌++◌, ◌&&◌,
  ◌||◌, not, leb, ltb, ◌==◌, arith,
}
use deepstream_fpfilter.Control.MainLoop.{MainLoop, IsPrompt, count_due, undue}
use deepstream_fpfilter.Control.App.{
  App, enable_fpfilter_images_save, enable_fpfilter_images_save_duration, call_back, tick,
}

-- Some timer is due at the time `t`.
abbrev any_due : ℕ → List ℕ → Bool
any_due t [] = false
any_due t (due ∷ ts) = leb due t || any_due t ts

-- What is due by a later time is due now or still waits.
any_due-undue :
    (t u : ℕ) (ts : List ℕ) → t ≤ u → any_due u ts ≡ (any_due t ts || any_due u (undue t ts))
any_due-undue t u [] h = refl
any_due-undue t u (due ∷ ts) h = ground (arith, any_due-undue t u ts h)

and_not_or : (b c d : Bool) → ((b && not c) && not d) ≡ (b && not (c || d))
and_not_or true c d = ground arith
and_not_or false c d = refl

any_due-mem :
    (t due : ℕ) (before after : List ℕ) → due ≤ t → any_due t (before ++ (due ∷ after)) ≡ true
any_due-mem t due [] after h = ground arith
any_due-mem t due (x ∷ before) after h = ground (arith, any_due-mem t due before after h)

any_due-count_due : (t : ℕ) (ts : List ℕ) → any_due t ts ≡ not (count_due t ts == 0)
any_due-count_due t [] = refl
any_due-count_due t (due ∷ ts) = ground (arith, any_due-count_due t ts)

module _ (M : MainLoop) {World : Type 0} where
  -- `n` milliseconds in which nothing but the timers happens.
  abbrev pub ticks : ℕ → App World M.Loop → App World M.Loop
  ticks zero a = a
  ticks (suc n) a = ticks n (tick M a)

  call_back_lem :
      (n : ℕ) (a : App World M.Loop)
      → call_back M n a ≡ record a { save_fpfilter_images = a.save_fpfilter_images && (n == 0) }
  unfolding call_back
  call_back_lem zero a = ground arith
  call_back_lem (suc n) a =
      ground (arith, call_back_lem n (record a { save_fpfilter_images = false }))

  tick_lem :
      (a : App World M.Loop)
      → tick M a ≡ record a {
        save_fpfilter_images = a.save_fpfilter_images && ((M.pass false a.main_loop).0 == 0);
        main_loop = (M.pass false a.main_loop).1;
      }
  unfolding tick
  tick_lem a =
      call_back_lem (M.pass false a.main_loop).0
        (record a { main_loop = (M.pass false a.main_loop).1 })

module _ (M : MainLoop) (R : IsPrompt M) {World : Type 0} where
  -- Some timer that waits in the main loop of `a` is due at the time `t`.
  abbrev due_by : ℕ → App World M.Loop → Bool
  due_by t a = any_due t (M.pending a.main_loop)

  tick-save :
      (a : App World M.Loop)
      → (tick M a).save_fpfilter_images
        ≡ (a.save_fpfilter_images && not (due_by (suc (M.clock a.main_loop)) a))
  tick-save a =
      ap {A = App World M.Loop} (λ x. x.save_fpfilter_images) (tick_lem M a)
      ∙ rw (R.calls-pass a.main_loop)
          (ground (arith, any_due-count_due (suc (M.clock a.main_loop)) (M.pending a.main_loop)))

  tick-main_loop : (a : App World M.Loop) → (tick M a).main_loop ≡ (M.pass false a.main_loop).1
  tick-main_loop a = ap {A = App World M.Loop} (λ x. x.main_loop) (tick_lem M a)

  -- What is due at a later time after a millisecond has passed.
  tick-due_by :
      (t : ℕ) (a : App World M.Loop)
      → due_by t (tick M a) ≡ any_due t (undue (suc (M.clock a.main_loop)) (M.pending a.main_loop))
  tick-due_by t a =
      ap (λ l. any_due t (M.pending l)) (tick-main_loop a)
      ∙ ap (any_due t) (R.pending-pass a.main_loop)

  tick-clock : (a : App World M.Loop) → M.clock (tick M a).main_loop ≡ suc (M.clock a.main_loop)
  tick-clock a = ap M.clock (tick-main_loop a) ∙ R.clock-pass a.main_loop

  -- While nothing but time passes, on a main loop that is never busy, after one millisecond or more
  -- the saving is on exactly if it was on and no pending timer, whoever set it, has come due.
  save_after_ticks :
      (n : ℕ) (a : App World M.Loop)
      → (ticks M (suc n) a).save_fpfilter_images
        ≡ (a.save_fpfilter_images && not (due_by (M.clock a.main_loop + suc n) a))
  save_after_ticks zero a =
      tick-save a ∙ ap (λ t. a.save_fpfilter_images && not (due_by t a)) (omega arith)
  save_after_ticks (suc n) a =
      let t = M.clock a.main_loop in
      let ts = M.pending a.main_loop in
      let e : suc t + suc n ≡ t + suc (suc n) = omega arith in
      save_after_ticks n (tick M a)
      ∙ ap (λ c. (tick M a).save_fpfilter_images && not (due_by (c + suc n) (tick M a)))
          (tick-clock a)
      ∙ ap (λ d. (tick M a).save_fpfilter_images && not d) (tick-due_by (suc t + suc n) a)
      ∙ ap (λ b. b && not (any_due (suc t + suc n) (undue (suc t) ts))) (tick-save a)
      ∙ and_not_or a.save_fpfilter_images (any_due (suc t) ts)
          (any_due (suc t + suc n) (undue (suc t) ts))
      ∙ ap (λ d. a.save_fpfilter_images && not d)
          (sym (any_due-undue (suc t) (suc t + suc n) ts (omega arith)) ∙ ap (λ u. any_due u ts) e)

  -- With no timer pending, the saving that is enabled for a duration is on after `n + 1` milliseconds
  -- exactly if these are fewer than the duration, as long as nothing else switches it and the main
  -- loop is never busy.
  pub enable_duration_exact :
      (n duration_ms : ℕ) (a : App World M.Loop)
      → M.pending a.main_loop ≡ []
      → (ticks M
          (suc n)
          (enable_fpfilter_images_save_duration M duration_ms a)).save_fpfilter_images
        ≡ ltb (suc n) duration_ms
  unfolding enable_fpfilter_images_save_duration
  enable_duration_exact n duration_ms a h =
      save_after_ticks n (enable_fpfilter_images_save_duration M duration_ms a)
      ∙ rw
          (
            R.clock-timeout_add duration_ms a.main_loop,
            R.pending-timeout_add duration_ms a.main_loop,
            h,
          )
          (ground arith)

  -- A timer is never taken back: the saving that is enabled without a duration is off again once a
  -- timer that an earlier request set has come due, on a main loop that is never busy.
  pub enable_cut_short :
      (n due : ℕ) (before after : List ℕ) (a : App World M.Loop)
      → M.pending a.main_loop ≡ before ++ (due ∷ after)
      → due ≤ M.clock a.main_loop + suc n
      → (ticks M (suc n) (enable_fpfilter_images_save a)).save_fpfilter_images ≡ false
  unfolding enable_fpfilter_images_save
  enable_cut_short n due before after a h le =
      save_after_ticks n (enable_fpfilter_images_save a)
      ∙ rw h (ap not (any_due-mem (M.clock a.main_loop + suc n) due before after le))
