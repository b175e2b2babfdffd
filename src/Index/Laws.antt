-- ===== src/Index/Laws.antt =====
-- What NewIndex of index.go guarantees, whatever other goroutines do.
use wireguard_go.Base.{
  ℕ, ◌≡◌, ◌∙◌, ◌≢◌, ◌⊎◌, inl, inr, true, false, none, List, [], ◌∷◌, ◌++◌, map, ne→==-false, arith,
  ◌==◌, subst, is_some, Bool-cases, Option-cases,
}
use wireguard_go.Index.{
  RandBytes, IndexTable, Round, NewIndexResult, mapped, handshake_entry, insert, rand_uint32,
  check_round, new_index,
}

-- Every entry of the list satisfies P.
abbrev pub All {ℓ κ} : {A : Type ℓ} → (A → Type κ) → List A → Type κ
All P [] = Unit
All P (x ∷ xs) = P x × All P xs

-- Random bytes that give 0 or an index in use.
abbrev pub IsUnusable : IndexTable → RandBytes → Type 0
IsUnusable table r =
    (r.failed ≡ false) × ((rand_uint32 r ≡ 0) ⊎ (is_some (table (rand_uint32 r)) ≡ true))

-- Where a round's answer comes from.
check_round_mapped :
    (rand : RandBytes) (t t' : IndexTable) (peer : ℕ) (retry retry' : NewIndexResult) (index : ℕ)
    (after : IndexTable)
    → check_round rand t t' peer retry retry' ≡ mapped index after
    → (retry ≡ mapped index after)
      ⊎ ((retry' ≡ mapped index after)
          ⊎ ((rand_uint32 rand ≡ index)
              × (index ≢ 0)
              × (t index ≡ none)
              × (t' index ≡ none)
              × (after ≡ insert t' index (handshake_entry peer))))
unfolding check_round
check_round_mapped rand t t' peer retry retry' index after e = elim (Bool-cases rand.failed) [
  | inl failed ↦ ground arith
  | inr drawn ↦ elim (Bool-cases (rand_uint32 rand == 0)) [
    | inl z ↦ inl (ground arith)
    | inr nz ↦ elim (Option-cases (t (rand_uint32 rand))) [
      | inr (entry, used) ↦ inl (ground arith)
      | inl free ↦ elim (Option-cases (t' (rand_uint32 rand))) [
        | inr (entry, used) ↦ inr (inl (ground arith))
        | inl free' ↦
            let done : mapped (rand_uint32 rand)
                  (insert t' (rand_uint32 rand) (handshake_entry peer))
                ≡ mapped index after =
              ground arith in
            let same : rand_uint32 rand ≡ index = cc in inr (inr (same, ground arith, cc, cc, cc))
      ]
    ]
  ]
]

-- In a round that draws `index` NewIndex sees the table `seen` at its first check, and holds the
-- write lock on the table `t`: each round that is given up leaves the next one a table that its
-- other goroutines have made.
pub data Locked : IndexTable → List Round → ℕ → IndexTable → IndexTable → Type 0 where
  in_round :
      (table : IndexTable) (round : Round) (rounds : List Round)
      → Locked table
          (round ∷ rounds)
          (rand_uint32 round.rand)
          (round.before table)
          (round.between (round.before table))
  after_first :
      {table : IndexTable} {rounds : List Round} {index : ℕ} {seen t : IndexTable} (round : Round)
      → Locked (round.before table) rounds index seen t
      → Locked table (round ∷ rounds) index seen t
  after_second :
      {table : IndexTable} {rounds : List Round} {index : ℕ} {seen t : IndexTable} (round : Round)
      → Locked (round.between (round.before table)) rounds index seen t
      → Locked table (round ∷ rounds) index seen t

-- An index that NewIndex returns is not 0 and was drawn in one of the rounds. No entry had it in the
-- table that this round saw at its first check, and none in the table as other goroutines have left
-- it when the write lock is held; the result is the latter table with the index mapped to the peer's
-- handshake. The random source and the other goroutines may do anything.
pub new_index_fresh :
    (table : IndexTable) (peer : ℕ) (rounds : List Round) (index : ℕ) (after : IndexTable)
    → new_index table peer rounds ≡ mapped index after
    → (seen : IndexTable) × (t : IndexTable) × Locked table rounds index seen t
      × (index ≢ 0)
      × (seen index ≡ none)
      × (t index ≡ none)
      × (after ≡ insert t index (handshake_entry peer))
unfolding new_index
new_index_fresh table peer [] index after e = absurd cc
new_index_fresh table peer (round ∷ rounds) index after e =
    elim (check_round_mapped round.rand (round.before table) (round.between (round.before table))
      peer _ _ index after e) [
        | inl again ↦
            let (seen, t, held, nonzero, unseen, unused, result) =
              new_index_fresh (round.before table) peer rounds index after again in
            (seen, t, after_first round held, nonzero, unseen, unused, result)
        | inr (inl again) ↦
            let (seen, t, held, nonzero, unseen, unused, result) =
              new_index_fresh (round.between (round.before table)) peer rounds index after again in
            (seen, t, after_second round held, nonzero, unseen, unused, result)
        | inr (inr (drawn, nonzero, unseen, unused, result)) ↦ (
          round.before table,
          round.between (round.before table),
          subst
              (λ i.
                Locked table (round ∷ rounds) i (round.before table)
                  (round.between (round.before table)))
              drawn (in_round table round rounds),
          nonzero,
          unseen,
          unused,
          result,
        )
      ]

-- A round in which no other goroutine touches the table.
abbrev pub quiet : RandBytes → Round
quiet rand = record { rand = rand; before = λ t. t; between = λ t. t }

-- Undisturbed, NewIndex ends as soon as the random source gives an index that is not 0 and not in
-- use, after any number of draws that are, none of which fails; the table then differs at that
-- index alone.
pub new_index_ends :
    (table : IndexTable) (peer : ℕ) (bad : List RandBytes) (good : RandBytes) (rest : List Round)
    → All (IsUnusable table) bad
    → good.failed ≡ false
    → rand_uint32 good ≢ 0
    → table (rand_uint32 good) ≡ none
    → new_index table peer (map quiet bad ++ quiet good ∷ rest)
      ≡ mapped (rand_uint32 good) (insert table (rand_uint32 good) (handshake_entry peer))
unfolding new_index
new_index_ends table peer [] good rest h fine nz free =
    unfold check_round in simp (fine, ne→==-false (rand_uint32 good) 0 nz, free)
new_index_ends table peer (b ∷ bad) good rest (h, hs) fine nz free =
    skip h ∙ new_index_ends table peer bad good rest hs fine nz free
  where
    skip : {r : NewIndexResult} → IsUnusable table b → check_round b table table peer r r ≡ r
    skip (fine, inl z) = unfold check_round in simp (fine, z)
    skip (fine, inr used) = unfold check_round in simp fine (ground (arith, used))
