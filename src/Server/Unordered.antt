-- ===== src/Server/Unordered.antt =====
-- The order in which the maps of src/server/server.cpp hold their entries, and the list of users.
use Prim.Native.String.{String}
use Prim.Native.Char.{code}
use mathlib.Core.Logic.{∥∥₁_elim}
use mathlib.Core.List.{Perm, Permᴰ}
use mathlib.Core.List.Perm
use text.Mathlib.TextEquality.{Char-path, IsScalar-prop}
use simple_chat_protocol.Prelude.{
  ℕ, Bool, true, false, ◌≡◌, ◌≢◌, refl, sym, ap, ◌∙◌, subst, some, none, List, [], ◌∷◌, ◌++◌, arith,
  map, All, nat_equality, string_equality, Bool-cases, inl, inr,
}
use mathlib.Core.Path.{ap₂}
use simple_chat_protocol.Prelude.Map.{Map, find, Distinct, All-entries, find-head, find-tail}
use simple_chat_protocol.Server.State.{SessionInfo, Server}
use simple_chat_protocol.Server.Registry.{Registry, IsConsistent}
use simple_chat_protocol.Server.Handlers.{user_of, handle_list_users}
use simple_chat_protocol.Server.Sorting.{str_lt, User, insert_sorted, sort}
use simple_chat_protocol.Server.Listing.{str_lt_asym, str_lt_trans, listing, sent_listing}
use simple_chat_protocol.Messages.{World, ListUsers}

-- The order is total.
str_lt_total : (a b : String) → str_lt a b ≡ false → str_lt b a ≡ false → a ≡ b
unfolding str_lt
str_lt_total String.[] String.[] h k = refl
str_lt_total String.[] (String.◌∷◌ d t) h k = absurd cc
str_lt_total (String.◌∷◌ c s) String.[] h k = absurd cc
str_lt_total (String.◌∷◌ c s) (String.◌∷◌ d t) h k =
    let same : code c ≡ code d = ground (arith, h, k) in
    let rest : s ≡ t = ground (arith, h, k, same, str_lt_total s t) in
    ap₂ String.◌∷◌ (Char-path c d same) rest

str_lt_differ : (a b : String) → a ≢ b → str_lt a b ≡ false → str_lt b a ≡ true
str_lt_differ a b d h = elim (Bool-cases (str_lt b a)) [
  | inl e ↦ e
  | inr e ↦ absurd (d (str_lt_total a b h e))
]

-- Two users of different names are inserted in either order.
insert_sorted_comm :
    (u v : User) (l : List User)
    → u.0 ≢ v.0
    → insert_sorted u (insert_sorted v l) ≡ insert_sorted v (insert_sorted u l)
unfolding insert_sorted
insert_sorted_comm u v [] d =
    ground (arith, str_lt_asym u.0 v.0, str_lt_asym v.0 u.0, str_lt_differ u.0 v.0 d)
insert_sorted_comm u v (x ∷ l) d = ground (
  arith,
  str_lt_asym u.0 v.0,
  str_lt_asym v.0 u.0,
  str_lt_differ u.0 v.0 d,
  str_lt_trans v.0 u.0 x.0,
  str_lt_trans u.0 v.0 x.0,
  insert_sorted_comm u v l d,
)

-- The names of the list are distinct.
abbrev Apart : List User → Type 0
Apart [] = Unit
Apart (u ∷ us) = All (λ (v : User). u.0 ≢ v.0) us × Apart us

All-Permᴰ : (P : User → Type 0) (us vs : List User) → Permᴰ us vs → All P us → All P vs
All-Permᴰ P us vs Permᴰ.nil h = h
All-Permᴰ P us vs (Permᴰ.cons {a} {b} {l₁} {l₂} e p) h = (subst P e h.0, All-Permᴰ P l₁ l₂ p h.1)
All-Permᴰ P us vs (Permᴰ.swap e f) h = (subst P f h.1.0, (subst P e h.0, h.1.1))
All-Permᴰ P us vs (Permᴰ.trans {l₂ = ws} p p') h = All-Permᴰ P ws vs p' (All-Permᴰ P us ws p h)

Apart-Permᴰ : (us vs : List User) → Permᴰ us vs → Apart us → Apart vs
Apart-Permᴰ us vs Permᴰ.nil h = h
Apart-Permᴰ us vs (Permᴰ.cons {a} {b} {l₁} {l₂} e p) h = (
  subst (λ (u : User). All (λ (v : User). u.0 ≢ v.0) l₂) e
      (All-Permᴰ (λ (v : User). a.0 ≢ v.0) l₁ l₂ p h.0),
  Apart-Permᴰ l₁ l₂ p h.1,
)
Apart-Permᴰ us vs (Permᴰ.swap {a} {b} {a'} {b'} {l} e f) h = (
  (
    λ q. h.0.0 (ap (λ (u : User). u.0) e ∙ sym q ∙ ap (λ (u : User). u.0) (sym f)),
    subst (λ (u : User). All (λ (v : User). u.0 ≢ v.0) l) f h.1.0,
  ),
  (subst (λ (u : User). All (λ (v : User). u.0 ≢ v.0) l) e h.0.1, h.1.1),
)
Apart-Permᴰ us vs (Permᴰ.trans {l₂ = ws} p p') h = Apart-Permᴰ ws vs p' (Apart-Permᴰ us ws p h)

sort-cons : (u : User) (us : List User) → sort (u ∷ us) ≡ insert_sorted u (sort us)
unfolding sort
sort-cons u us = refl

sort-Permᴰ : (us vs : List User) → Permᴰ us vs → Apart us → sort us ≡ sort vs
sort-Permᴰ us vs Permᴰ.nil h = refl
sort-Permᴰ us vs (Permᴰ.cons {a} {b} {l₁} {l₂} e p) h =
    sort-cons a l₁ ∙ ap₂ insert_sorted e (sort-Permᴰ l₁ l₂ p h.1) ∙ sym (sort-cons b l₂)
sort-Permᴰ us vs (Permᴰ.swap {a} {b} {a'} {b'} {l} e f) h =
    sort-cons a (b ∷ l)
    ∙ ap (insert_sorted a) (sort-cons b l)
    ∙ insert_sorted_comm a b (sort l) h.0.0
    ∙ ap₂ insert_sorted f (ap (λ u. insert_sorted u (sort l)) e)
    ∙ ap (insert_sorted a') (sym (sort-cons b' l))
    ∙ sym (sort-cons a' (b' ∷ l))
sort-Permᴰ us vs (Permᴰ.trans {l₂ = ws} p p') h =
    sort-Permᴰ us ws p h ∙ sort-Permᴰ ws vs p' (Apart-Permᴰ us ws p h)

users_IsSet : IsSet (List User)
users_IsSet = hlevel (IsScalar-prop)

pub sort_unordered : (us vs : List User) → Perm us vs → Apart us → sort us ≡ sort vs
sort_unordered us vs p h = ∥∥₁_elim p (users_IsSet _ _) (λ d. sort-Permᴰ us vs d h)

other_key :
    (j k : ℕ) (v : SessionInfo) (l : Map ℕ SessionInfo)
    → find j l ≡ none
    → find k l ≡ some v
    → j ≢ k
other_key j k v l new there same = absurd (cc (new, there, same))

All-users :
    (i : SessionInfo) (l : Map ℕ SessionInfo)
    → All (λ (e : ℕ × SessionInfo). i.username ≢ e.1.username) l
    → All (λ (v : User). i.username ≢ v.0) (map user_of l)
All-users i [] h = tt
All-users i (e ∷ l) h = (h.0, All-users i l h.1)

-- Names of different sessions differ, since `username_to_fd` leads from a name to one session.
module _ {live : Bool} {m : Map ℕ SessionInfo} {names ips : Map String ℕ}
    (r : Registry live m names ips) where
  names_differ :
      (j k : ℕ) (i d : SessionInfo)
      → find j m ≡ some i
      → find k m ≡ some d
      → j ≢ k
      → i.username ≢ d.username
  names_differ j k i d here there other same =
      let lead : some j ≡ some k =
        sym (r.indexed j i here).name ∙ ap (λ u. find u names) same ∙ (r.indexed k d there).name in
      other cc

  users_of-Apart :
      (l : Map ℕ SessionInfo)
      → Distinct l
      → ((j : ℕ) (i : SessionInfo) → find j l ≡ some i → find j m ≡ some i)
      → Apart (map user_of l)
  users_of-Apart [] d h = tt
  users_of-Apart ((j, i) ∷ l) d h = (
    All-users i l (
        All-entries (λ (k : ℕ) (v : SessionInfo). i.username ≢ v.username) l d.1
          λ k v there.
            names_differ j k i v (h j i (find-head j i l)) (h k v (find-tail j i l k v d.0 there))
              (other_key j k v l d.0 there)),
    users_of-Apart l d.1 (λ k v there. h k v (find-tail j i l k v d.0 there)),
  )

-- Suppose that two servers with consistent registries have the same sessions, in any two orders,
-- and have sent the same messages, and that a registered user asks for the users with a message
-- that parses. Then both send the same answer.
pub handle_list_users_unordered :
    (w : World) (now fd : ℕ) (payload : List ℕ) (lu : ListUsers) (i : SessionInfo) (s s' : Server)
    → IsConsistent s
    → IsConsistent s'
    → Perm s.sessions s'.sessions
    → s.sent ≡ s'.sent
    → find fd s.sessions ≡ some i
    → find fd s'.sessions ≡ some i
    → w.list_users.parse_from_string payload ≡ some lu
    → (handle_list_users w now fd payload s).sent ≡ (handle_list_users w now fd payload s').sent
handle_list_users_unordered w now fd payload lu i s s' h h' same log found found' parse =
    sent_listing w now fd payload lu i s h found parse
    ∙ ap₂ (λ l us. l ++ listing fd us ∷ []) log
        (sort_unordered (map user_of s.sessions) (map user_of s'.sessions) (Perm.map user_of same)
          (users_of-Apart h s.sessions h.distinct_sessions (λ j v e. e)))
    ∙ sym (sent_listing w now fd payload lu i s' h' found' parse)
