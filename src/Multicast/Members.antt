-- ===== src/Multicast/Members.antt =====
-- `membershipManager` of core/policystore/multicast/membership.go, and `getMessageRecipients` of
-- manager.go. Go's `int` is a ℤ-like value; a negative count is `below`.
pub mod Laws
use lohpi.Common.{
  ltb, if◌then◌else◌, length, get_elem?, invalid_mode, empty_members, Outcome, ok, err, panic,
  ◌>>=◌, ℕ, ◌+◌, String, Bool, false, ◌||◌, Option, none, some, List, [], ◌∷◌, str_eq,
}

-- the messaging modes of manager.go, and any other byte
pub data MessageMode : Type 0 where
  lru_members random_members other_mode : MessageMode

-- an `int` argument: `below` stands for any negative number
pub data Count : Type 0 where
  below : Count
  at : ℕ → Count

pub record MembershipManager : Type 0 where
  pub lru_nodes_map : List (String × ℕ)
  pub ignored_ip_addresses : List String  -- the keys of the map

-- `_, ok := m.ignoredIPAddresses[ip]`
pub ip_is_ignored : List String → String → Bool
ip_is_ignored [] ip = false
ip_is_ignored (j ∷ ignored) ip = str_eq j ip || ip_is_ignored ignored ip

-- the loop of `AllMembers` over `ifritClient.Members()`, which is given
pub all_members : List String → List String → List String
unfolding ip_is_ignored
all_members ignored [] = []
all_members ignored (addr ∷ network) =
    let rest = all_members ignored network in
    if ip_is_ignored ignored addr then rest else addr ∷ rest

pub set_ignored_ifrit_nodes : List String → MembershipManager → MembershipManager
set_ignored_ifrit_nodes ignored m = record m { ignored_ip_addresses = ignored }

pub lookup_count : String → List (String × ℕ) → Option ℕ
lookup_count k [] = none
lookup_count k ((j, n) ∷ m) = if str_eq j k then some n else lookup_count k m

-- `m.lruNodesMap[k] = n`
pub put_count : String → ℕ → List (String × ℕ) → List (String × ℕ)
put_count k n [] = (k, n) ∷ []
put_count k n ((j, v) ∷ m) = if str_eq j k then (j, n) ∷ m else (j, v) ∷ put_count k n m

-- the count that `updateLruMembers` gives a member: the old one, or 0 for a new member
pub kept_count : List (String × ℕ) → String → ℕ
unfolding lookup_count
kept_count old k = elim (lookup_count k old) [ none ↦ 0 | some n ↦ n ]

-- the loop of `updateLruMembers`: `old` is `tempMap`, `new` the map being filled
update_loop : List String → List (String × ℕ) → List String → List (String × ℕ) → List (String × ℕ)
unfolding ip_is_ignored put_count kept_count
update_loop ignored old [] new = new
update_loop ignored old (member ∷ network) new =
    update_loop ignored old network
      (if ip_is_ignored ignored member then new else put_count member (kept_count old member) new)

pub update_lru_members : List String → MembershipManager → MembershipManager
unfolding update_loop
update_lru_members network m = record m {
  lru_nodes_map = update_loop m.ignored_ip_addresses m.lru_nodes_map network [];
}

-- `lruMembers` returns at once; what stands below its first `return` is never run
pub lru_members_of : List String → Count → Outcome (List String)
lru_members_of members n = ok []

-- a negative `numDirectRecipients` is set to 1
to_positive : Count → ℕ
to_positive below = 1
to_positive (at n) = n

-- the three corrections of `numDirectRecipients`, in the code's order
pub adjust_recipients : ℕ → Count → ℕ
unfolding to_positive
adjust_recipients available n =
    let wanted = to_positive n in
    let capped = if ltb available wanted then available else wanted in
    if ltb 4 available then 1 else capped

-- `for i := range p { result = append(result, members[i]) }`: the loop runs over the positions of
-- the permutation, so its values are not read; reading past the end would panic
pick_loop : List ℕ → ℕ → List String → Outcome (List String)
pick_loop [] i members = ok []
pick_loop (_ ∷ p) i members = elim (get_elem? members i) [
  | none ↦ panic
  | some m ↦ pick_loop p (i + 1) members >>= λ rest. ok (m ∷ rest)
]

-- `perm` is `rand.Perm`
unfoldable pub random_members_of : (ℕ → List ℕ) → List String → Count → Outcome (List String)
unfolding adjust_recipients pick_loop
random_members_of perm [] n = err empty_members
random_members_of perm (m ∷ members) n =
    pick_loop (perm (adjust_recipients (length (m ∷ members)) n)) 0 (m ∷ members)

unfoldable pub get_message_recipients :
    (ℕ → List ℕ) → List String → MessageMode → Count → Outcome (List String)
unfolding lru_members_of random_members_of
get_message_recipients perm members lru_members n = lru_members_of members n
get_message_recipients perm members random_members n = random_members_of perm members n
get_message_recipients perm members other_mode n = err invalid_mode
