-- ===== src/Server/Sorting.antt =====
-- `std::sort` of the user list in `handle_list_users`, by `a.first < b.first`. The names are
-- distinct there, so any correct sort gives the list that this insertion sort gives.
use Prim.Native.Char.{code}
use Prim.Native.String.{String}
use simple_chat_protocol.Prelude.{Bool, true, false, ◌==◌, ltb, List, [], ◌∷◌, if◌then◌else◌}
use simple_chat_protocol.Protocol.Status.{StatusEnum}

-- operator< on std::string: by bytes, which on UTF-8 is by code points.
unfoldable pub str_lt : String → String → Bool
str_lt s String.[] = false
str_lt String.[] (String.◌∷◌ d t) = true
str_lt (String.◌∷◌ c s) (String.◌∷◌ d t) =
    if ltb (code c) (code d) then true else if code c == code d then str_lt s t else false

abbrev pub User : Type 0
User = String × StatusEnum

unfoldable pub insert_sorted : User → List User → List User
insert_sorted u [] = u ∷ []
insert_sorted u (v ∷ vs) = if str_lt v.0 u.0 then v ∷ insert_sorted u vs else u ∷ v ∷ vs

unfoldable pub sort : List User → List User
unfolding insert_sorted
sort [] = []
sort (u ∷ us) = insert_sorted u (sort us)
