-- ===== src/Replay/Words.antt =====
-- The words of the filter of replay.go under `clear_words`.
use wireguard_go.Base.{
  ℕ, zero, suc, ◌+◌, ◌%◌, ◌≤◌, ◌<◌, ◌≡◌, refl, ◌∙◌, ◌≢◌, inl, inr, List, arith, get_or, set, length,
  length-set, get_or-set_self, get_or-set_ne, ◌==◌, Bool-cases, ==→eq, ==-false→ne,
}
use wireguard_go.Replay.{clear_words, backtrack_words}

pub length-clear_words : (n cur i : ℕ) (ws : List ℕ) → length (clear_words n cur i ws) ≡ length ws
unfolding clear_words
length-clear_words zero cur i ws = refl
length-clear_words (suc n) cur i ws =
    length-clear_words n cur (i + 1) _ ∙ length-set ws ((cur + i) % backtrack_words) 0

-- A word out of the cleared range stays.
pub clear_words_kept :
    (n cur i : ℕ) (ws : List ℕ) (j : ℕ)
    → ((k : ℕ) → i ≤ k → k < i + n → (cur + k) % backtrack_words ≢ j)
    → get_or (clear_words n cur i ws) j 0 ≡ get_or ws j 0
unfolding clear_words
clear_words_kept zero cur i ws j out = refl
clear_words_kept (suc n) cur i ws j out =
    clear_words_kept n cur (i + 1) _ j (λ k p q. out k (omega arith) (omega arith))
    ∙ get_or-set_ne ws _ j 0 0 (out i (omega arith) (omega arith))

zero_word_stays :
    (n cur i : ℕ) (ws : List ℕ) (j : ℕ)
    → length ws ≡ backtrack_words
    → get_or ws j 0 ≡ 0
    → get_or (clear_words n cur i ws) j 0 ≡ 0
unfolding clear_words
zero_word_stays zero cur i ws j len e = e
zero_word_stays (suc n) cur i ws j len e =
    zero_word_stays n cur (i + 1) (set ws ((cur + i) % backtrack_words) 0) j
      (length-set ws _ 0 ∙ len)
      (elim (Bool-cases ((cur + i) % backtrack_words == j)) [
        | inl hit ↦ subst_index (==→eq _ _ hit) (get_or-set_self ws _ 0 0 (omega arith))
        | inr miss ↦ get_or-set_ne ws _ j 0 0 (==-false→ne _ _ miss) ∙ e
      ])
  where
    subst_index : {a : ℕ} → a ≡ j → get_or (set ws a 0) a 0 ≡ 0 → get_or (set ws a 0) j 0 ≡ 0
    subst_index p h = rw (← p) h

-- A word in the cleared range is 0.
pub clear_words_cleared :
    (n cur i : ℕ) (ws : List ℕ) (k : ℕ)
    → length ws ≡ backtrack_words
    → i ≤ k
    → k < i + n
    → get_or (clear_words n cur i ws) ((cur + k) % backtrack_words) 0 ≡ 0
unfolding clear_words
clear_words_cleared zero cur i ws k len p q = absurd (omega arith)
clear_words_cleared (suc n) cur i ws k len p q = elim (Bool-cases (i == k)) [
  | inl now ↦
      zero_word_stays n cur (i + 1) (set ws ((cur + i) % backtrack_words) 0) _
        (length-set ws _ 0 ∙ len) (subst_k (==→eq _ _ now))
  | inr later ↦
      clear_words_cleared n cur (i + 1) (set ws ((cur + i) % backtrack_words) 0) k
        (length-set ws _ 0 ∙ len) (omega (arith, ==-false→ne i k later)) (omega arith)
]
  where
    subst_k :
        {b : ℕ}
        → i ≡ b
        → get_or (set ws ((cur + i) % backtrack_words) 0) ((cur + b) % backtrack_words) 0 ≡ 0
    subst_k e = rw (← e) (get_or-set_self ws _ 0 0 (omega arith))
