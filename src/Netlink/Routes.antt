-- ===== src/Netlink/Routes.antt =====
-- The loops over messages and attributes come to an end or do not, and what they clear.
use wireguard_go.Base.{
  ℕ, zero, suc, ◌+◌, ◌≤◌, ◌<◌, ◌≡◌, refl, ap, ap₂, sym, not, ◌∙◌, ◌⊎◌, inl, inr, Bool, true, false,
  ◌&&◌, ◌||◌, Option, none, some, List, [], ◌∷◌, length, drop, ltb, ◌==◌, if◌then◌else◌, arith,
  Bool-cases, le→ltb-false, lt→ltb, ltb-false→le, length-drop,
}
use wireguard_go.Endpoint.{NativeEndpoint, clear_src, src4_ifindex}
use wireguard_go.Netlink.{
  sizeof_rt_attr, rta_oif, number_at, hdr_len, attr_len, attr_type, Listener, clear_elsewhere,
  scan_attrs, handle_message, scan_messages,
}

-- A message whose header says that it has no length is read again and again: the loop has no end,
-- however many rounds it is given.
pub scan_messages_stuck :
    (n last_mark : ℕ) (remain : List ℕ) (l : Listener)
    → 16 ≤ length remain
    → hdr_len remain ≡ 0
    → scan_messages n last_mark remain l ≡ none
unfolding scan_messages
scan_messages_stuck zero last_mark remain l long empty = refl
scan_messages_stuck (suc n) last_mark remain l long empty =
    let next = drop (hdr_len remain) remain in
    let l' = handle_message last_mark remain l in
    let again =
      ap (λ k. scan_messages n last_mark (drop k remain) l') empty
      ∙ scan_messages_stuck n last_mark remain l' long empty in
    ap₂ (λ b c. if b then some l else if c then some l else scan_messages n last_mark next l')
      (le→ltb-false (length remain) 16 long)
      (le→ltb-false (length remain) (hdr_len remain) (omega (arith, empty)))
    ∙ again

-- The attributes of a message, as they follow each other: every one up to the end of the message.
unfoldable pub attributes : ℕ → List ℕ → List (List ℕ)
attributes zero attr = []
attributes (suc n) attr =
    let rest = attr ∷ attributes n (drop (attr_len attr) attr) in
    if ltb (length attr) sizeof_rt_attr
    then []
    else if ltb (attr_len attr) sizeof_rt_attr || ltb (length attr) (attr_len attr)
    then []
    else rest

-- Whether an attribute is an outgoing interface other than `ifindex`.
abbrev leads_elsewhere : ℕ → List ℕ → Bool
leads_elsewhere ifindex attr =
    (attr_type attr == rta_oif && attr_len attr == sizeof_rt_attr + 4)
    && not (ifindex == number_at 4 8 attr)

unfoldable pub any_elsewhere : ℕ → List (List ℕ) → Bool
any_elsewhere ifindex [] = false
any_elsewhere ifindex (attr ∷ attrs) = leads_elsewhere ifindex attr || any_elsewhere ifindex attrs

clear_elsewhere_cases :
    (attr : List ℕ) (end : NativeEndpoint)
    → clear_elsewhere attr end
      ≡ (if leads_elsewhere (src4_ifindex end) attr then clear_src end else end)
unfolding clear_elsewhere
clear_elsewhere_cases attr end =
    split_if (attr_type attr == rta_oif && attr_len attr == sizeof_rt_attr + 4)
      (src4_ifindex end == number_at 4 8 attr) end (clear_src end)
  where
    split_if :
        (oif same : Bool) (x y : NativeEndpoint)
        → (if oif then (if same then x else y) else x) ≡ (if oif && not same then y else x)
    split_if true true x y = refl
    split_if true false x y = refl
    split_if false same x y = refl

clear_elsewhere_cleared :
    (attr : List ℕ) (end : NativeEndpoint) → clear_elsewhere attr (clear_src end) ≡ clear_src end
unfolding clear_src wireguard_go.Base.Endian.little_endian
clear_elsewhere_cleared attr end =
    clear_elsewhere_cases attr (clear_src end) ∙ same (leads_elsewhere 0 attr) (clear_src end)
  where
    same : (b : Bool) (x : NativeEndpoint) → (if b then x else x) ≡ x
    same true x = refl
    same false x = refl

-- The three ends of a round, by its two tests.
same_ends : (a b : Bool) (x y : NativeEndpoint) → y ≡ x → (if a then x else if b then x else y) ≡ x
same_ends true b x y h = refl
same_ends false true x y h = refl
same_ends false false x y h = h

scan_attrs_cleared :
    (n : ℕ) (attr : List ℕ) (end : NativeEndpoint)
    → scan_attrs n attr (clear_src end) ≡ clear_src end
unfolding scan_attrs
scan_attrs_cleared zero attr end = refl
scan_attrs_cleared (suc n) attr end =
    let next = drop (attr_len attr) attr in
    same_ends (ltb (length attr) sizeof_rt_attr)
      (ltb (attr_len attr) sizeof_rt_attr || ltb (length attr) (attr_len attr)) (clear_src end)
      (scan_attrs n next (clear_elsewhere attr (clear_src end)))
      (ap (scan_attrs n next) (clear_elsewhere_cleared attr end) ∙ scan_attrs_cleared n next end)

any_ends :
    (a b : Bool) (ifindex : ℕ) (attr : List ℕ) (attrs : List (List ℕ)) (x y z : NativeEndpoint)
    → y ≡ (if any_elsewhere ifindex (attr ∷ attrs) then z else x)
    → (if a then x else if b then x else y)
      ≡ (if any_elsewhere ifindex (if a then [] else if b then [] else attr ∷ attrs) then z else x)
unfolding any_elsewhere
any_ends true b ifindex attr attrs x y z h = refl
any_ends false true ifindex attr attrs x y z h = refl
any_ends false false ifindex attr attrs x y z h = h

-- A round by whether its attribute leads elsewhere.
scan_next :
    (leads : Bool) (n : ℕ) (next : List ℕ) (attrs : List (List ℕ)) (end : NativeEndpoint)
    → scan_attrs n next end
      ≡ (if any_elsewhere (src4_ifindex end) attrs then clear_src end else end)
    → scan_attrs n next (if leads then clear_src end else end)
      ≡ (if leads || any_elsewhere (src4_ifindex end) attrs then clear_src end else end)
scan_next true n next attrs end h = scan_attrs_cleared n next end
scan_next false n next attrs end h = h

-- The loop over the attributes clears the source if one of them is an outgoing interface other
-- than the one at which the last datagram came in, and else leaves the endpoint, with any number
-- of rounds.
pub scan_attrs-any_elsewhere :
    (n : ℕ) (attr : List ℕ) (end : NativeEndpoint)
    → scan_attrs n attr end
      ≡ (if any_elsewhere (src4_ifindex end) (attributes n attr) then clear_src end else end)
unfolding scan_attrs attributes any_elsewhere
scan_attrs-any_elsewhere zero attr end = refl
scan_attrs-any_elsewhere (suc n) attr end =
    let next = drop (attr_len attr) attr in
    any_ends (ltb (length attr) sizeof_rt_attr)
      (ltb (attr_len attr) sizeof_rt_attr || ltb (length attr) (attr_len attr)) (src4_ifindex end)
      attr (attributes n next) end (scan_attrs n next (clear_elsewhere attr end)) (clear_src end)
      (ap (scan_attrs n next) (clear_elsewhere_cases attr end)
        ∙ scan_next (leads_elsewhere (src4_ifindex end) attr) n next (attributes n next) end
            (scan_attrs-any_elsewhere n next end))

-- Two rounds with the same tests, whose rests are the same where the loop goes on.
same_rests :
    (a b : Bool) (x y y' : NativeEndpoint)
    → (a ≡ false → b ≡ false → y ≡ y')
    → (if a then x else if b then x else y) ≡ (if a then x else if b then x else y')
same_rests true b x y y' h = refl
same_rests false true x y y' h = refl
same_rests false false x y y' h = h refl refl

or-false_attr : (a b : Bool) → (a || b) ≡ false → a ≡ false
or-false_attr false b h = refl
or-false_attr true b h = h

-- As many rounds as there are bytes are enough: one more changes nothing.
pub scan_attrs_enough :
    (n : ℕ) (attr : List ℕ) (end : NativeEndpoint)
    → length attr ≤ n
    → scan_attrs (suc n) attr end ≡ scan_attrs n attr end
unfolding scan_attrs
scan_attrs_enough zero attr end short =
    ap
      (λ b.
        if b
        then end
        else if ltb (attr_len attr) sizeof_rt_attr || ltb (length attr) (attr_len attr)
        then end
        else clear_elsewhere attr end)
      (lt→ltb (length attr) 4 (omega (arith, short)))
scan_attrs_enough (suc n) attr end short =
    let next = drop (attr_len attr) attr in
    same_rests (ltb (length attr) sizeof_rt_attr)
      (ltb (attr_len attr) sizeof_rt_attr || ltb (length attr) (attr_len attr)) end
      (scan_attrs (suc n) next (clear_elsewhere attr end))
      (scan_attrs n next (clear_elsewhere attr end))
      (λ a b.
        let large =
          ltb-false→le (attr_len attr) 4 (or-false_attr _ (ltb (length attr) (attr_len attr)) b) in
        scan_attrs_enough n next (clear_elsewhere attr end)
          (omega (arith, length-drop (attr_len attr) attr, large, short)))
