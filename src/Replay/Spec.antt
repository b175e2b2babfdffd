-- ===== src/Replay/Spec.antt =====
-- What the filter of replay.go promises: the greatest counter, and every counter accepted so far.
use wireguard_go.Base.{
  ℕ, ◌-◌, max, Bool, true, false, not, ◌&&◌, ◌||◌, List, [], ◌∷◌, ltb, leb, ◌==◌, if◌then◌else◌,
}
use wireguard_go.Constants.{reject_after_messages}

abbrev pub member : ℕ → List ℕ → Bool
member c [] = false
member c (x ∷ xs) = if c == x then true else member c xs

pub record Window : Type 0 where
  pub highest : ℕ
  pub seen : List ℕ

abbrev pub fresh : Window
fresh = record { highest = 0; seen = [] }

-- A counter is good if it is below the protocol's limit and new: above all others, or at most
-- 1984 behind the greatest and not accepted before.
abbrev pub is_good : Window → ℕ → Bool
is_good w c =
    ltb c reject_after_messages
    && (ltb w.highest c || (leb (w.highest - c) 1984 && not (member c w.seen)))

abbrev pub accept : Window → ℕ → Window × Bool
accept w c =
    if is_good w c
    then (record { highest = max w.highest c; seen = c ∷ w.seen }, true)
    else (w, false)
