-- ===== src/Server/Tests/Unordered.antt =====
-- The list of users, in the chat of two users and in the same chat with its map in another order.
use mathlib.Core.List.Perm
use simple_chat_protocol.Prelude.{
  ℕ, ◌≡◌, refl, sym, ◌∙◌, [], ◌∷◌, arith, nat_equality, string_equality,
}
use simple_chat_protocol.Prelude.Map.{find}
use simple_chat_protocol.Server.State.{Server}
use simple_chat_protocol.Server.Handlers.{handle_list_users}
use simple_chat_protocol.Server.Registry.{IsConsistent}
use simple_chat_protocol.Server.Unordered.{handle_list_users_unordered}
use simple_chat_protocol.Server.Tests.{toy, lobby, ana, bob, lobby-IsConsistent, found_ana}

-- The same chat, with its sessions in the other order.
abbrev lobby_reversed : Server
lobby_reversed = record lobby { sessions = (5, bob) ∷ (4, ana) ∷ [] }

find_reversed : (j : ℕ) → find j lobby_reversed.sessions ≡ find j lobby.sessions
unfolding find
find_reversed j = ground arith

lobby_reversed-IsConsistent : IsConsistent lobby_reversed
unfolding find
lobby_reversed-IsConsistent =
    let h = lobby-IsConsistent in
    record {
      distinct_sessions = (refl, (refl, tt));
      distinct_names = h.distinct_names;
      distinct_ips = h.distinct_ips;
      indexed = λ fd i e. h.indexed fd i (sym (find_reversed fd) ∙ e);
      name_owner =
          λ u fd e. let (i, here, is) = h.name_owner u fd e in (i, find_reversed fd ∙ here, is);
      ip_owner =
          λ a fd e. let (i, here, is) = h.ip_owner a fd e in (i, find_reversed fd ∙ here, is);
    }

handle_list_users_unordered_example :
    (handle_list_users toy 9 4 (1 ∷ []) lobby).sent
    ≡ (handle_list_users toy 9 4 (1 ∷ []) lobby_reversed).sent
unfolding find
handle_list_users_unordered_example =
    handle_list_users_unordered toy 9 4 (1 ∷ []) (record { username = ""; ip = "" }) ana lobby
      lobby_reversed lobby-IsConsistent lobby_reversed-IsConsistent (Perm.swap (5, bob) (4, ana) [])
      refl found_ana refl refl
