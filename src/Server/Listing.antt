-- ===== src/Server/Listing.antt =====
-- The list that `handle_list_users` of src/server/server.cpp answers with.
use Prim.Native.String.{String}
use mathlib.Core.Path.{ap₂}
use mathlib.Core.List.{Perm}
use mathlib.Core.List.Perm
use simple_chat_protocol.Prelude.{
  ℕ, true, false, ◌≡◌, refl, ap, ◌∙◌, some, List, [], ◌∷◌, ◌++◌, arith, map, All, if_cases,
  nat_equality,
}
use simple_chat_protocol.Prelude.Map.{Map, find, modify}
use simple_chat_protocol.Protocol.MsgType
use simple_chat_protocol.Messages.{World, ListUsers, all_users}
use simple_chat_protocol.Server.State.{SessionInfo, Sent, Server}
use simple_chat_protocol.Server.Session.{set_last_activity, touch_activity}
use simple_chat_protocol.Server.Sorting.{str_lt, User, insert_sorted, sort}
use simple_chat_protocol.Server.Handlers.{user_of, list_of_users, handle_list_users}
use simple_chat_protocol.Server.Registry.{IsConsistent}
use simple_chat_protocol.Server.Requests.{handle_list_users-registered}

-- No name in the list comes before the name.
abbrev pub IsFirst : String → List User → Type 0
IsFirst a us = All (λ (u : User). str_lt u.0 a ≡ false) us

-- In alphabetical order.
abbrev pub IsSorted : List User → Type 0
IsSorted [] = Unit
IsSorted (u ∷ us) = IsFirst u.0 us × IsSorted us

pub str_lt_asym : (a b : String) → str_lt a b ≡ true → str_lt b a ≡ false
unfolding str_lt
str_lt_asym String.[] String.[] h = refl
str_lt_asym String.[] (String.◌∷◌ d t) h = refl
str_lt_asym (String.◌∷◌ c s) String.[] h = absurd cc
str_lt_asym (String.◌∷◌ c s) (String.◌∷◌ d t) h = ground (arith, h, str_lt_asym s t)

-- What comes before the one comes before the other.
pub str_lt_trans : (a b c : String) → str_lt b a ≡ false → str_lt c b ≡ false → str_lt c a ≡ false
unfolding str_lt
str_lt_trans String.[] b String.[] h k = refl
str_lt_trans (String.◌∷◌ x s) String.[] c h k = absurd cc
str_lt_trans String.[] b (String.◌∷◌ z u) h k = refl
str_lt_trans (String.◌∷◌ x s) (String.◌∷◌ y t) String.[] h k = absurd cc
str_lt_trans (String.◌∷◌ x s) (String.◌∷◌ y t) (String.◌∷◌ z u) h k =
    ground (arith, h, k, str_lt_trans s t u)

IsFirst-insert_sorted :
    (a : String) (u : User) (us : List User)
    → str_lt u.0 a ≡ false
    → IsFirst a us
    → IsFirst a (insert_sorted u us)
unfolding insert_sorted
IsFirst-insert_sorted a u [] h k = (h, tt)
IsFirst-insert_sorted a u (v ∷ vs) h k =
    if_cases (IsFirst a) (str_lt v.0 u.0) _ _ (λ _. (k.0, IsFirst-insert_sorted a u vs h k.1))
      (λ _. (h, k))

IsFirst-trans : (a b : String) (us : List User) → str_lt b a ≡ false → IsFirst b us → IsFirst a us
IsFirst-trans a b [] h k = tt
IsFirst-trans a b (u ∷ us) h k = (str_lt_trans a b u.0 h k.0, IsFirst-trans a b us h k.1)

insert_sorted-IsSorted : (u : User) (us : List User) → IsSorted us → IsSorted (insert_sorted u us)
unfolding insert_sorted
insert_sorted-IsSorted u [] h = (tt, tt)
insert_sorted-IsSorted u (v ∷ vs) h =
    if_cases IsSorted (str_lt v.0 u.0) _ _
      (λ lt. (
        IsFirst-insert_sorted v.0 u vs (str_lt_asym v.0 u.0 lt) h.0,
        insert_sorted-IsSorted u vs h.1,
      ))
      (λ ge. ((ge, IsFirst-trans u.0 v.0 vs ge h.0), h))

insert_sorted-Perm : (u : User) (us : List User) → Perm (u ∷ us) (insert_sorted u us)
unfolding insert_sorted
insert_sorted-Perm u [] = Perm.refl (u ∷ [])
insert_sorted-Perm u (v ∷ vs) =
    if_cases (Perm (u ∷ v ∷ vs)) (str_lt v.0 u.0) _ _
      (λ _. Perm.trans (Perm.swap v u vs) (Perm.cons v (insert_sorted-Perm u vs)))
      (λ _. Perm.refl (u ∷ v ∷ vs))

sort-IsSorted : (us : List User) → IsSorted (sort us)
unfolding sort
sort-IsSorted [] = tt
sort-IsSorted (u ∷ us) = insert_sorted-IsSorted u (sort us) (sort-IsSorted us)

sort-Perm : (us : List User) → Perm us (sort us)
unfolding sort
sort-Perm [] = Perm.refl []
sort-Perm (u ∷ us) = Perm.trans (Perm.cons u (sort-Perm us)) (insert_sorted-Perm u (sort us))

-- The time of an activity is no part of the list.
users-modify :
    (fd now : ℕ) (m : Map ℕ SessionInfo)
    → map user_of (modify fd (set_last_activity now) m) ≡ map user_of m
unfolding modify
users-modify fd now [] = refl
users-modify fd now ((j, i) ∷ m) = ground (arith, users-modify fd now m)

abbrev pub listing : ℕ → List User → Sent
listing fd users = record {
  fd = fd;
  msg_type = MsgType.all_users;
  proto = all_users (record { usernames = map (λ u. u.0) users; status = map (λ u. u.1) users });
}

-- The list that is sent, in terms of the sort of the code.
pub sent_listing :
    (w : World) (now fd : ℕ) (payload : List ℕ) (lu : ListUsers) (i : SessionInfo) (s : Server)
    → IsConsistent s
    → find fd s.sessions ≡ some i
    → w.list_users.parse_from_string payload ≡ some lu
    → (handle_list_users w now fd payload s).sent
      ≡ s.sent ++ listing fd (sort (map user_of s.sessions)) ∷ []
unfolding list_of_users touch_activity
sent_listing w now fd payload lu i s h found parse =
    ap (λ (q : Server). q.sent) (handle_list_users-registered w now fd payload s i lu found parse)
    ∙ ap₂ (λ (j : ℕ) us. s.sent ++ listing j (sort us) ∷ []) (h.indexed fd i found).socket
        (users-modify fd now s.sessions)

-- In a consistent registry, the answer to a registered user whose message parses is the list of
-- the names and statuses of all sessions, each once, in alphabetical order
-- of the names, whatever the order in which the map holds them. Nothing else is sent; in particular
-- the question does not end an inactivity.
pub handle_list_users-sent :
    (w : World) (now fd : ℕ) (payload : List ℕ) (lu : ListUsers) (i : SessionInfo) (s : Server)
    → IsConsistent s
    → find fd s.sessions ≡ some i
    → w.list_users.parse_from_string payload ≡ some lu
    → (users : List User) × Perm (map user_of s.sessions) users
      × IsSorted users
      × ((handle_list_users w now fd payload s).sent ≡ s.sent ++ listing fd users ∷ [])
handle_list_users-sent w now fd payload lu i s h found parse =
    let users = map user_of s.sessions in
    (
      sort users,
      sort-Perm users,
      sort-IsSorted users,
      sent_listing w now fd payload lu i s h found parse,
    )
