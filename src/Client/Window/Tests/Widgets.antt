-- ===== src/Client/Window/Tests/Widgets.antt =====
-- A combo box and a tab widget that are lists with the current index.
use simple_chat_protocol.Prelude.{
  ℕ, zero, suc, ◌+◌, String, ◌≡◌, ◌≢◌, refl, ap, ◌∙◌, Option, none, some, List, [], ◌∷◌, ◌++◌,
  arith, map, get_elem?, erase_idx, if◌then◌else◌, nat_equality, string_equality,
}
use simple_chat_protocol.Prelude.Eq.{Equality}
use simple_chat_protocol.Prelude.Map.{map_option}
use simple_chat_protocol.Client.Qt.{Qt, ComboBox, TabWidget}
use simple_chat_protocol.Client.Window.Tests.Section.{front, front-append}

module _ {A : Type 0} ⦃e : Equality A⦄ where
  -- The first place of a key.
  unfoldable pub place : List A → A → Option ℕ
  place [] a = none
  place (x ∷ l) a =
      let rest = place l a in if e.beq x a then some 0 else map_option (λ i. 1 + i) rest

  pub place-found : (l : List A) (a : A) (i : ℕ) → place l a ≡ some i → get_elem? l i ≡ some a
  unfolding place
  place-found [] a i h = absurd cc
  place-found (x ∷ l) a zero h = ground (arith, h, e.beq_iff x a)
  place-found (x ∷ l) a (suc i) h = ground (arith, h, e.beq_iff x a, place-found l a i)

  pub place-missing : (l : List A) (a : A) (i : ℕ) → place l a ≡ none → get_elem? l i ≢ some a
  unfolding place
  place-missing [] a i h = λ p. absurd cc
  place-missing (x ∷ l) a zero h = ground (arith, h, e.beq_iff x a)
  place-missing (x ∷ l) a (suc i) h = ground (arith, h, e.beq_iff x a, place-missing l a i)

-- The items with their data, and the current index.
abbrev Choice : Type 0
Choice = List (String × ℕ) × Option ℕ

abbrev entry : List (String × ℕ) → Option ℕ → Option (String × ℕ)
entry l none = none
entry l (some i) = get_elem? l i

abbrev value_of : Option (String × ℕ) → ℕ
value_of none = 0
value_of (some e) = e.1

abbrev label_of : Option (String × ℕ) → String
label_of none = ""
label_of (some e) = e.0

abbrev first_item : List (String × ℕ) → Option ℕ → Option ℕ
first_item [] o = some 0
first_item (x ∷ l) o = o

pub first_item-cons : (l : List (String × ℕ)) (o : Option ℕ) → l ≢ [] → first_item l o ≡ o
first_item-cons [] o h = absurd (h refl)
first_item-cons (x ∷ l) o h = refl

abbrev pub choices : ComboBox
choices = record {
  C = Choice;
  new_combo = ([], none);
  add_item = λ t d c. (c.0 ++ (t, d) ∷ [], first_item c.0 c.1);
  clear = λ c. ([], none);
  current_index = λ c. c.1;
  set_current_index = λ i c. (c.0, some i);
  item_data = λ c o. value_of (entry c.0 o);
  find_text = λ c t. place (map (λ e. e.0) c.0) t;
  current_text = λ c. label_of (entry c.0 c.1);
  items = λ c. c.0;
  items_new = refl;
  items_add = λ t d c. refl;
  items_clear = λ c. refl;
  items_set = λ i c. refl;
  current_add = λ t d c h. first_item-cons c.0 c.1 h;
  current_set = λ i c h. refl;
  data_within = λ c i e h. ap value_of h;
  data_outside = λ c i h. ap value_of h;
  data_none = λ c. refl;
  find_found = λ c t i h. place-found (map (λ e. e.0) c.0) t i h;
  find_missing = λ c t i h. place-missing (map (λ e. e.0) c.0) t i h;
  text_within = λ c i e h k. ap label_of (ap (entry c.0) h ∙ k);
}

-- The pages with their labels, and the current index.
abbrev Book : Type 0
Book = List (ℕ × String) × Option ℕ

abbrev tab_of : Option (ℕ × String) → String
tab_of none = ""
tab_of (some e) = e.1

abbrev pub book : TabWidget
book = record {
  T = Book;
  new_tabs = ([], none);
  add_tab = λ page t x. (x.0 ++ (page, t) ∷ [], x.1);
  index_of = λ x page. place (map (λ e. e.0) x.0) page;
  tab_text = λ x i. tab_of (get_elem? x.0 i);
  remove_tab = λ i x. (erase_idx x.0 i, none);
  set_current_tab = λ i x. (x.0, some i);
  current_tab = λ x. x.1;
  pages = λ x. x.0;
  pages_new = refl;
  pages_add = λ page t x h. refl;
  pages_remove = λ i x. refl;
  pages_set = λ i x. refl;
  current_set_tab = λ i x h. refl;
  text_of = λ x i e h. ap tab_of h;
  index_found = λ x page i h. place-found (map (λ e. e.0) x.0) page i h;
  index_missing = λ x page i h. place-missing (map (λ e. e.0) x.0) page i h;
}

-- Texts have no blanks to trim here and no characters to escape.
abbrev pub simple : Qt
simple = record {
  combo_box = choices;
  tab_widget = book;
  trimmed = λ s. s;
  to_html_escaped = λ s. s;
  number = λ n. "200";
  section = front;
  section_front = front-append;
}
