-- ===== src/Control/MainLoop.antt =====
-- The timers of GLib's main loop, as a parameter.
use deepstream_fpfilter.Prelude.{
  ℕ, suc, ◌+◌, ◌≡◌, refl, Bool, false, List, [], ◌∷◌, ◌++◌, leb, if◌then◌else◌,
}

-- Times are in milliseconds.
pub record MainLoop : Type 1 where
  pub Loop : Type 0
  pub clock : Loop → ℕ
  -- when each timer that waits is due
  pub pending : Loop → List ℕ
  -- `g_timeout_add`
  pub timeout_add : ℕ → Loop → Loop
  -- A millisecond passes, in which the callbacks return this value: how many calls there are.
  pub pass : Bool → Loop → ℕ × Loop

abbrev pub count_due : ℕ → List ℕ → ℕ
count_due t [] = 0
count_due t (due ∷ ts) = if leb due t then suc (count_due t ts) else count_due t ts

abbrev pub undue : ℕ → List ℕ → List ℕ
undue t [] = []
undue t (due ∷ ts) = if leb due t then undue t ts else due ∷ undue t ts

-- A main loop that is never busy: a timer calls back when it is due, and is gone once its callback
-- returns FALSE.
pub record IsPrompt (M : MainLoop) : Type 0 where
  pub clock-timeout_add : (d : ℕ) (l : M.Loop) → M.clock (M.timeout_add d l) ≡ M.clock l
  pub pending-timeout_add :
      (d : ℕ) (l : M.Loop) → M.pending (M.timeout_add d l) ≡ M.pending l ++ ((M.clock l + d) ∷ [])
  pub clock-pass : (l : M.Loop) → M.clock (M.pass false l).1 ≡ suc (M.clock l)
  pub calls-pass : (l : M.Loop) → (M.pass false l).0 ≡ count_due (suc (M.clock l)) (M.pending l)
  pub pending-pass :
      (l : M.Loop) → M.pending (M.pass false l).1 ≡ undue (suc (M.clock l)) (M.pending l)

-- A list of timers with a clock is such a main loop.
abbrev pub timers : MainLoop
timers = record {
  Loop = ℕ × List ℕ;
  clock = λ l. l.0;
  pending = λ l. l.1;
  timeout_add = λ d l. (l.0, l.1 ++ ((l.0 + d) ∷ []));
  pass =
      λ again l. (count_due (suc l.0) l.1, (suc l.0, if again then l.1 else undue (suc l.0) l.1));
}

pub timers-IsPrompt : IsPrompt timers
timers-IsPrompt = record {
  clock-timeout_add = λ d l. refl;
  pending-timeout_add = λ d l. refl;
  clock-pass = λ l. refl;
  calls-pass = λ l. refl;
  pending-pass = λ l. refl;
}
