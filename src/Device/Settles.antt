-- ===== src/Device/Settles.antt =====
-- deviceUpdateState comes to rest, and the peers follow the device.
use wireguard_go.Base.{
  ℕ, suc, ◌≡◌, refl, sym, ap, subst, ◌∙◌, inl, inr, ◌||◌, Bool, true, false, not, some, List,
  if◌then◌else◌, Bool-cases,
}
use wireguard_go.Device.{Device}
use wireguard_go.Device.Bind.{BindResults, unsafe_close_bind, bind_update, bind_close}
use wireguard_go.Device.State.{start_each, change_state, device_update_state, up, down}
use wireguard_go.Device.Running.{
  AllRunning, start_each-keeps, start_each-AllRunning, stop_each-keeps, stop_each-AllRunning,
  close_bind-keeps, bind_update-keeps,
}

-- No state change is under way, and the peers run exactly when the device is up.
pub record IsSettled (d : Device) : Type 0 where
  pub unchanging : d.changing ≡ false
  pub is_current : d.current ≡ d.is_up
  pub follow : AllRunning d.is_up d.key_map d.peers

-- The rounds of deviceUpdateState.
round_rests :
    (rounds now : ℕ) (results : ℕ → BindResults) (d : Device)
    → d.changing ≡ false
    → d.current ≡ d.is_up
    → device_update_state (suc rounds) now results d ≡ some (record d { changing = false })
unfolding device_update_state
round_rests rounds now results d unchanging same = elim (Bool-cases d.is_up) [
  | inl up_ ↦ let current = same ∙ up_ in simp (unchanging, up_, current) refl
  | inr down_ ↦ let current = same ∙ down_ in simp (unchanging, down_, current) refl
]

-- What a round that changes the state leaves to the next one.
abbrev changed_by : ℕ → BindResults → Bool → Device → Device
changed_by now r b d = record (change_state now r b (record d { changing = true })) {
  current = b;
  changing = false;
}

round_changes :
    (rounds now : ℕ) (results : ℕ → BindResults) (b : Bool) (d : Device)
    → d.changing ≡ false
    → d.is_up ≡ b
    → d.current ≡ not b
    → device_update_state (suc rounds) now results d
      ≡ device_update_state rounds now results (changed_by now (results rounds) b d)
unfolding device_update_state
round_changes rounds now results true d unchanging up_ current_ =
    simp (unchanging, up_, current_) refl
round_changes rounds now results false d unchanging down_ current_ =
    simp (unchanging, down_, current_) refl

settled :
    (b : Bool) (keys : List (List ℕ × ℕ)) (d : Device)
    → d.changing ≡ false
    → d.current ≡ b
    → d.is_up ≡ b
    → d.key_map ≡ keys
    → AllRunning b keys d.peers
    → IsSettled d
settled b keys d unchanging current_ up_ keys_ all = record {
  unchanging = unchanging;
  is_current = current_ ∙ sym up_;
  follow =
      subst (λ k. AllRunning d.is_up k d.peers) (sym keys_)
        (subst (λ x. AllRunning x keys d.peers) (sym up_) all);
}

-- A change to "down" comes to rest.
change_down-IsSettled :
    (now : ℕ) (r : BindResults) (d : Device)
    → d.is_up ≡ false
    → IsSettled (changed_by now r false d) × ((changed_by now r false d).is_up ≡ false)
unfolding change_state bind_close
change_down-IsSettled now r d down_ =
    let d1 : Device = record d { changing = true } in
    let d2 : Device = (unsafe_close_bind r d1).0 in
    let (same_up, same_keys) = stop_each-keeps d2.key_map d2 in
    let down3 = same_up ∙ (close_bind-keeps r d1).0 ∙ down_ in
    (
      settled false d2.key_map (changed_by now r false d) refl refl down3 same_keys
          (stop_each-AllRunning d2.key_map d2),
      down3,
    )

-- A change to "up" comes to rest when the bind is updated, and else leaves a device that is to go
-- down.
change_up-IsSettled :
    (now : ℕ) (r : BindResults) (d : Device)
    → d.is_up ≡ true
    → d.is_closed ≡ false
    → (bind_update r (record d { changing = true })).1 ≡ true
    → IsSettled (changed_by now r true d) × ((changed_by now r true d).is_up ≡ true)
unfolding change_state
change_up-IsSettled now r d up_ live ok =
    let d1 : Device = record d { changing = true } in
    let d2 : Device = (bind_update r d1).0 in
    let (kept_up, kept_closed) = bind_update-keeps r d1 in
    let (same_up, same_keys) = start_each-keeps now d2.key_map d2 in
    let d3 : Device = record (start_each now d2.key_map d2) { current = true; changing = false } in
    let up3 = same_up ∙ kept_up ∙ up_ in
    let result : IsSettled d3 × (d3.is_up ≡ true) = (
      settled true d2.key_map d3 refl refl up3 same_keys
          (start_each-AllRunning now d2.key_map d2 (kept_closed ∙ live)),
      up3,
    ) in
    simp ok result

change_up_fails :
    (now : ℕ) (r : BindResults) (d : Device)
    → (bind_update r (record d { changing = true })).1 ≡ false
    → (changed_by now r true d).is_up ≡ false
unfolding change_state
change_up_fails now r d failed = simp failed refl

-- The last rounds, from a device that is to go down, and from one that is to go up.
down_rounds :
    (n now : ℕ) (results : ℕ → BindResults) (d : Device)
    → d.changing ≡ false
    → d.is_up ≡ false
    → d.current ≡ true
    → (d' : Device) × (device_update_state (suc (suc n)) now results d ≡ some d')
      × IsSettled d'
      × (d'.is_up ≡ false)
down_rounds n now results d unchanging down_ current_ =
    let d' = changed_by now (results (suc n)) false d in
    let (rests, down') = change_down-IsSettled now (results (suc n)) d down_ in
    let round = round_changes (suc n) now results false d unchanging down_ current_ in
    (d', round ∙ round_rests n now results d' refl (IsSettled.is_current rests), rests, down')

up_rounds :
    (n now : ℕ) (results : ℕ → BindResults) (d : Device)
    → d.changing ≡ false
    → d.is_up ≡ true
    → d.current ≡ false
    → d.is_closed ≡ false
    → (d' : Device) × (device_update_state (suc (suc (suc n))) now results d ≡ some d')
      × IsSettled d'
      × (d'.is_up ≡ (bind_update (results (suc (suc n))) (record d { changing = true })).1)
up_rounds n now results d unchanging up_ current_ live =
    let r = results (suc (suc n)) in
    let e = changed_by now r true d in
    let round = round_changes (suc (suc n)) now results true d unchanging up_ current_ in
    elim (Bool-cases (bind_update r (record d { changing = true })).1) [
      | inl ok ↦
          let (rests, up') = change_up-IsSettled now r d up_ live ok in
          (
            e,
            round ∙ round_rests (suc n) now results e refl (IsSettled.is_current rests),
            rests,
            up' ∙ sym ok,
          )
      | inr failed ↦
          let fails = change_up_fails now r d failed in
          let (d', rounds, rests, down') = down_rounds n now results e refl fails refl in
          (d', round ∙ rounds, rests, down' ∙ sym failed)
    ]

up-device_update_state :
    (rounds now : ℕ) (results : ℕ → BindResults) (d d' : Device)
    → d.is_closed ≡ false
    → device_update_state rounds now results (record d { is_up = true }) ≡ some d'
    → up rounds now results d ≡ some d'
unfolding up
up-device_update_state rounds now results d d' live h =
    let next = device_update_state rounds now results (record d { is_up = true }) in
    ap (λ b. if b then some d else next) live ∙ h

-- Up on a settled device that is not closed comes to rest within three rounds of
-- deviceUpdateState: no state change is under way, and the peers run exactly when the device is up.
-- It is up if it was up, and otherwise exactly if BindUpdate has succeeded.
pub up_settles :
    (n now : ℕ) (results : ℕ → BindResults) (d : Device)
    → IsSettled d
    → d.is_closed ≡ false
    → (d' : Device) × (up (suc (suc (suc n))) now results d ≡ some d')
      × IsSettled d'
      × (d'.is_up ≡ (
          d.is_up
          || (bind_update (results (suc (suc n))) (record d { is_up = true; changing = true })).1))
up_settles n now results d settled_ live = elim (Bool-cases d.is_up) [
  | inr down_ ↦
      let (d', rounds, rests, is_up') =
        up_rounds n now results (record d { is_up = true }) (IsSettled.unchanging settled_) refl
          (IsSettled.is_current settled_ ∙ down_) live in
      (
        d',
        up-device_update_state (suc (suc (suc n))) now results d d' live rounds,
        rests,
        is_up'
            ∙ ap
                (λ b.
                  b
                  || (bind_update (results (suc (suc n)))
                      (record d { is_up = true; changing = true })).1)
                (sym down_),
      )
  | inl up_ ↦
      let e : Device = record d { is_up = true; changing = false } in
      let current_ = IsSettled.is_current settled_ ∙ up_ in
      let round =
        round_rests (suc (suc n)) now results (record d { is_up = true })
          (IsSettled.unchanging settled_) current_ in
      let all = subst (λ b. AllRunning b d.key_map d.peers) up_ (IsSettled.follow settled_) in
      (
        e,
        up-device_update_state (suc (suc (suc n))) now results d e live round,
        settled true d.key_map e refl current_ refl refl all,
        simp up_ refl,
      )
]

-- Down on a settled device comes to rest within two rounds of deviceUpdateState: the device is
-- down, no state change is under way, and no peer runs. What closing the sockets answers does not
-- matter.
pub down_settles :
    (n now : ℕ) (results : ℕ → BindResults) (d : Device)
    → IsSettled d
    → (d' : Device) × (down (suc (suc n)) now results d ≡ some d')
      × IsSettled d'
      × (d'.is_up ≡ false)
unfolding down
down_settles n now results d settled_ =
    let e : Device = record d { is_up = false } in
    elim (Bool-cases d.is_up) [
      | inl up_ ↦
          down_rounds n now results e (IsSettled.unchanging settled_) refl
            (IsSettled.is_current settled_ ∙ up_)
      | inr down_ ↦
          let d' : Device = record d { is_up = false; changing = false } in
          let current_ = IsSettled.is_current settled_ ∙ down_ in
          let round = round_rests (suc n) now results e (IsSettled.unchanging settled_) current_ in
          let all = subst (λ b. AllRunning b d.key_map d.peers) down_ (IsSettled.follow settled_) in
          (d', round, settled false d.key_map d' refl current_ refl refl all, refl)
    ]
