-- ===== src/Replay/Runs.antt =====
-- Whole runs of the filter of replay.go: the answers to a sequence of counters.
use wireguard_go.Base.{ℕ, ◌≡◌, refl, ap₂, ◌∙◌, Bool, true, false, List, [], ◌∷◌, arith}
use wireguard_go.Replay.{ReplayFilter, zero_filter, init, validate_counter}
use wireguard_go.Replay.Spec.{Window, member, fresh, accept}
use wireguard_go.Replay.Refinement.{Refines, init-Refines, validate_counter-Refines}

-- The filter after it has been asked about each counter in turn, and its answers.
abbrev pub run : ReplayFilter → List ℕ → ReplayFilter
run f [] = f
run f (c ∷ cs) = run (validate_counter f c).0 cs

abbrev pub answers : ReplayFilter → List ℕ → List Bool
answers f [] = []
answers f (c ∷ cs) = (validate_counter f c).1 ∷ answers (validate_counter f c).0 cs

abbrev pub window_answers : Window → List ℕ → List Bool
window_answers w [] = []
window_answers w (c ∷ cs) = (accept w c).1 ∷ window_answers (accept w c).0 cs

abbrev pub window_run : Window → List ℕ → Window
window_run w [] = w
window_run w (c ∷ cs) = window_run (accept w c).0 cs

answers-Refines :
    (f : ReplayFilter) (w : Window) (cs : List ℕ) → Refines f w → answers f cs ≡ window_answers w cs
answers-Refines f w [] r = refl
answers-Refines f w (c ∷ cs) r =
    let (same, next) = validate_counter-Refines f w c r in
    ap₂ ◌∷◌ same (answers-Refines (validate_counter f c).0 (accept w c).0 cs next)

pub run-Refines :
    (f : ReplayFilter) (w : Window) (cs : List ℕ)
    → Refines f w
    → Refines (run f cs) (window_run w cs)
run-Refines f w [] r = r
run-Refines f w (c ∷ cs) r =
    run-Refines (validate_counter f c).0 (accept w c).0 cs (validate_counter-Refines f w c r).1

-- From a new key pair on, the filter gives to every sequence of counters the answers of the
-- specification: a counter is accepted exactly when it is below RejectAfterMessages and either
-- above all accepted ones, or at most 1984 behind the greatest of them and itself not yet accepted.
pub answers-init : (cs : List ℕ) → answers (init zero_filter) cs ≡ window_answers fresh cs
answers-init cs = answers-Refines (init zero_filter) fresh cs init-Refines

member-accept :
    (w : Window) (c d : ℕ) → member c w.seen ≡ true → member c (accept w d).0.seen ≡ true
member-accept w c d h = ground arith

member-window_run :
    (w : Window) (c : ℕ) (cs : List ℕ)
    → member c w.seen ≡ true
    → member c (window_run w cs).seen ≡ true
member-window_run w c [] h = h
member-window_run w c (d ∷ cs) h = member-window_run (accept w d).0 c cs (member-accept w c d h)

accepted_member : (w : Window) (c : ℕ) → (accept w c).1 ≡ true → member c (accept w c).0.seen ≡ true
accepted_member w c h = ground arith

member_refused :
    (f : ReplayFilter) (w : Window) (c : ℕ)
    → Refines f w
    → member c w.seen ≡ true
    → (accept w c).1 ≡ false
member_refused f w c r h = ground (arith, r.seen_le c h)

-- Replay protection: a counter that the filter of a new key pair accepted after any history is
-- refused for ever after, whatever counters are asked about in between.
pub replay_refused :
    (before : List ℕ) (c : ℕ) (between : List ℕ)
    → (validate_counter (run (init zero_filter) before) c).1 ≡ true
    → (validate_counter (run (validate_counter (run (init zero_filter) before) c).0 between) c).1
      ≡ false
replay_refused before c between ok =
    let r = run-Refines (init zero_filter) fresh before init-Refines in
    let (same, next) = validate_counter-Refines _ _ c r in
    let later = run-Refines _ _ between next in
    (validate_counter-Refines _ _ c later).0
    ∙ member_refused _ _ c later
        (member-window_run _ c between (accepted_member _ c (ground (arith, same))))
