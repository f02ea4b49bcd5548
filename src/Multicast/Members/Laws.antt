-- ===== src/Multicast/Members/Laws.antt =====
-- What the recipients of a multicast are.
use mathlib.Core.List.{append_assoc}
use lohpi.Common.{
  if◌then◌else◌, Bool-cases, Option-cases, length, take, get_elem?-length, length-append, ok, ℕ,
  ◌+◌, ◌≤◌, ◌<◌, String, ◌≡◌, refl, ap, ◌∙◌, ◌≢◌, inl, inr, Bool, false, ◌&&◌, ◌||◌, not, Option,
  none, some, List, [], ◌∷◌, ◌++◌, arith, str_eq, eq_iff,
}
use lohpi.Multicast.Members.{
  Count, below, at, MembershipManager, ip_is_ignored, all_members, set_ignored_ifrit_nodes,
  lookup_count, put_count, kept_count, update_loop, update_lru_members, adjust_recipients,
  pick_loop, random_members_of,
}

pick_loop-eq-take :
    (p : List ℕ) (before members : List String)
    → length p ≤ length members
    → pick_loop p (length before) (before ++ members) ≡ ok (take (length p) members)
unfolding pick_loop
pick_loop-eq-take [] before members h = refl
pick_loop-eq-take (_ ∷ p) before [] h = absurd (omega arith)
pick_loop-eq-take (_ ∷ p) before (m ∷ members) h =
    let next = pick_loop-eq-take p (before ++ m ∷ []) members (omega arith) in
    let moved : pick_loop p (length before + 1) (before ++ m ∷ members)
        ≡ ok (take (length p) members) =
      rw (← append_assoc before (m ∷ []) members) (rw (← (length-append before (m ∷ []))) next) in
    rw (pick_loop, get_elem?-length before members m, moved)

adjust_recipients-le :
    (available : ℕ) (n : Count) → 0 < available → adjust_recipients available n ≤ available
unfolding adjust_recipients
adjust_recipients-le available below h = ground arith
adjust_recipients-le available (at n) h = ground arith

-- The "random" members are a fixed prefix of the list, whatever permutation is drawn, as long as
-- the drawing gives as many positions as it is asked for; an empty list is the only error.
pub random_members_of-eq-take :
    (perm : ℕ → List ℕ) (members : List String) (n : Count)
    → ((k : ℕ) → length (perm k) ≡ k)
    → members ≢ []
    → random_members_of perm members n ≡ ok (take (adjust_recipients (length members) n) members)
unfolding random_members_of
random_members_of-eq-take perm [] n drawn h = absurd (h refl)
random_members_of-eq-take perm (m ∷ members) n drawn h =
    let k = adjust_recipients (length (m ∷ members)) n in
    pick_loop-eq-take (perm k) [] (m ∷ members)
      (omega (arith, drawn k, adjust_recipients-le (length (m ∷ members)) n (omega arith)))
    ∙ ap (λ j. ok (take j (m ∷ members))) (drawn k)

pub listed : String → List String → Bool
listed k [] = false
listed k (j ∷ l) = str_eq j k || listed k l

lookup_count-put_count :
    (k j : String) (n : ℕ) (m : List (String × ℕ))
    → lookup_count j (put_count k n m) ≡ (if str_eq k j then some n else lookup_count j m)
unfolding lookup_count put_count
lookup_count-put_count k j n [] = refl
lookup_count-put_count k j n ((i, v) ∷ m) =
    ground (arith, eq_iff k j, eq_iff i k, eq_iff i j, lookup_count-put_count k j n m)

ip_is_ignored-eq-listed :
    (ignored : List String) (k : String) → ip_is_ignored ignored k ≡ listed k ignored
unfolding ip_is_ignored listed
ip_is_ignored-eq-listed [] k = refl
ip_is_ignored-eq-listed (j ∷ ignored) k =
    ap (λ b. str_eq j k || b) (ip_is_ignored-eq-listed ignored k)

-- the count of a member, which is 0 where there is none
abbrev pub or_zero : Option ℕ → ℕ
or_zero none = 0
or_zero (some n) = n

kept_count-eq-or_zero :
    (old : List (String × ℕ)) (k : String) → kept_count old k ≡ or_zero (lookup_count k old)
unfolding kept_count
kept_count-eq-or_zero old k = elim (Option-cases (lookup_count k old)) [
  | inl e ↦ rw (kept_count, e) refl
  | inr (n, e) ↦ rw (kept_count, e) refl
]

abbrev wanted : List String → List String → String → Bool
unfolding listed
wanted ignored network k = listed k network && not (ip_is_ignored ignored k)

lookup_count-update_loop :
    (ignored : List String) (old : List (String × ℕ)) (network : List String)
    (new : List (String × ℕ)) (k : String)
    → lookup_count k (update_loop ignored old network new)
      ≡ (if wanted ignored network k then some (kept_count old k) else lookup_count k new)
unfolding update_loop listed
lookup_count-update_loop ignored old [] new k = refl
lookup_count-update_loop ignored old (member ∷ network) new k =
    let rest =
      lookup_count-update_loop ignored old network
        (if ip_is_ignored ignored member then new else put_count member (kept_count old member) new)
        k in
    elim (Bool-cases (str_eq member k)) [
      | inl same ↦
          let e = (eq_iff member k).0 same in
          ground (
            arith,
            rest,
            lookup_count-put_count member k (kept_count old member) new,
            same,
            ap (ip_is_ignored ignored) e,
            ap (kept_count old) e,
          )
      | inr other ↦
          ground (arith, rest, lookup_count-put_count member k (kept_count old member) new, other)
    ]

-- After `updateLruMembers` the map counts exactly the members of the network that are not among the
-- ignored ones: a member that was counted keeps its count, a new one starts at 0, and any other is
-- gone. The only call of the function stands below the `return` of `lruMembers`.
pub lookup_count-update_lru_members :
    (network : List String) (m : MembershipManager) (k : String)
    → lookup_count k (update_lru_members network m).lru_nodes_map ≡ (
        if listed k network && not (listed k m.ignored_ip_addresses)
        then some (or_zero (lookup_count k m.lru_nodes_map))
        else none)
unfolding update_lru_members listed wanted
lookup_count-update_lru_members network m k =
    rw
      (
        ← (ip_is_ignored-eq-listed m.ignored_ip_addresses k),
        ← (kept_count-eq-or_zero m.lru_nodes_map k),
      )
      (lookup_count-update_loop m.ignored_ip_addresses m.lru_nodes_map network [] k
        ∙ unfold lookup_count in refl)

abbrev pub occurrences : String → List String → ℕ
occurrences k [] = 0
occurrences k (j ∷ l) = if str_eq j k then occurrences k l + 1 else occurrences k l

occurrences_kept :
    (ignored network : List String) (k : String)
    → occurrences k (all_members ignored network)
      ≡ (if ip_is_ignored ignored k then 0 else occurrences k network)
unfolding all_members
occurrences_kept ignored [] k = ground arith
occurrences_kept ignored (addr ∷ network) k = elim (Bool-cases (str_eq addr k)) [
  | inl same ↦ ground (
    arith,
    occurrences_kept ignored network k,
    same,
    ap (ip_is_ignored ignored) ((eq_iff addr k).0 same),
  )
  | inr other ↦ ground (arith, occurrences_kept ignored network k, other)
]

-- Once `setIgnoredIfritNodes` has set the ignored addresses, `AllMembers` lists a client that is
-- among them nowhere, and any other client as often as the network lists it.
pub occurrences-all_members :
    (ignored network : List String) (m : MembershipManager) (k : String)
    → occurrences k (all_members (set_ignored_ifrit_nodes ignored m).ignored_ip_addresses network)
      ≡ (if listed k ignored then 0 else occurrences k network)
unfolding set_ignored_ifrit_nodes
occurrences-all_members ignored network m k =
    rw (← (ip_is_ignored-eq-listed ignored k)) (occurrences_kept ignored network k)
