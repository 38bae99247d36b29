-- ===== src/Client/Qt.antt =====
-- What src/client/mainwindow.cpp uses of Qt that does more than keep a value: three functions of
-- QString, QComboBox and QTabWidget. Qt is another project, hence a parameter of the model. Each
-- widget has an observation, what it shows, and the laws say what Qt documents of the calls.
use simple_chat_protocol.Prelude.{
  ℕ, ◌<◌, String, ◌≡◌, ◌≢◌, ◌<>◌, Option, none, some, List, [], ◌∷◌, ◌++◌, length, map, get_elem?,
  erase_idx,
}

-- `none` stands for the index -1. An item without data has the data 0, which is what `toInt` makes
-- of an invalid QVariant.
pub record ComboBox : Type 1 where
  pub C : Type 0
  pub new_combo : C
  pub add_item : String → ℕ → C → C
  pub clear : C → C
  pub current_index : C → Option ℕ
  pub set_current_index : ℕ → C → C
  pub item_data : C → Option ℕ → ℕ
  pub find_text : C → String → Option ℕ
  pub current_text : C → String
  pub items : C → List (String × ℕ)
  pub items_new : items new_combo ≡ []
  pub items_add : (t : String) (d : ℕ) (c : C) → items (add_item t d c) ≡ items c ++ (t, d) ∷ []
  pub items_clear : (c : C) → items (clear c) ≡ []
  pub items_set : (i : ℕ) (c : C) → items (set_current_index i c) ≡ items c
  pub current_add :
      (t : String) (d : ℕ) (c : C) → items c ≢ [] → current_index (add_item t d c) ≡ current_index c
  pub current_set :
      (i : ℕ) (c : C) → i < length (items c) → current_index (set_current_index i c) ≡ some i
  pub data_within :
      (c : C) (i : ℕ) (e : String × ℕ) → get_elem? (items c) i ≡ some e → item_data c (some i) ≡ e.1
  pub data_outside : (c : C) (i : ℕ) → get_elem? (items c) i ≡ none → item_data c (some i) ≡ 0
  pub data_none : (c : C) → item_data c none ≡ 0
  pub find_found :
      (c : C) (t : String) (i : ℕ)
      → find_text c t ≡ some i
      → get_elem? (map (λ e. e.0) (items c)) i ≡ some t
  pub find_missing :
      (c : C) (t : String) (i : ℕ)
      → find_text c t ≡ none
      → get_elem? (map (λ e. e.0) (items c)) i ≢ some t
  pub text_within :
      (c : C) (i : ℕ) (e : String × ℕ)
      → current_index c ≡ some i
      → get_elem? (items c) i ≡ some e
      → current_text c ≡ e.0

-- A page is a widget, here the number of a QTextEdit.
pub record TabWidget : Type 1 where
  pub T : Type 0
  pub new_tabs : T
  pub add_tab : ℕ → String → T → T
  pub index_of : T → ℕ → Option ℕ
  pub tab_text : T → ℕ → String
  pub remove_tab : ℕ → T → T
  pub set_current_tab : ℕ → T → T
  pub current_tab : T → Option ℕ
  pub pages : T → List (ℕ × String)
  pub pages_new : pages new_tabs ≡ []
  pub pages_add :
      (page : ℕ) (t : String) (x : T)
      → index_of x page ≡ none
      → pages (add_tab page t x) ≡ pages x ++ (page, t) ∷ []
  pub pages_remove : (i : ℕ) (x : T) → pages (remove_tab i x) ≡ erase_idx (pages x) i
  pub pages_set : (i : ℕ) (x : T) → pages (set_current_tab i x) ≡ pages x
  pub current_set_tab :
      (i : ℕ) (x : T) → i < length (pages x) → current_tab (set_current_tab i x) ≡ some i
  pub text_of :
      (x : T) (i : ℕ) (e : ℕ × String) → get_elem? (pages x) i ≡ some e → tab_text x i ≡ e.1
  pub index_found :
      (x : T) (page i : ℕ)
      → index_of x page ≡ some i
      → get_elem? (map (λ e. e.0) (pages x)) i ≡ some page
  pub index_missing :
      (x : T) (page i : ℕ)
      → index_of x page ≡ none
      → get_elem? (map (λ e. e.0) (pages x)) i ≢ some page

-- In `a`, with the separator behind it, the separator occurs nowhere before the end.
abbrev pub Precedes : String → String → Type 0
Precedes a sep = (u v : String) → a <> sep ≡ u <> sep <> v → v ≡ ""

-- `number` is `QString::number` of an int, given by its 32-bit pattern; `section s sep` is
-- `s.section(sep, 0, 0)`, what stands before the first separator.
pub record Qt : Type 1 where
  pub combo_box : ComboBox
  pub tab_widget : TabWidget
  pub trimmed : String → String
  pub to_html_escaped : String → String
  pub number : ℕ → String
  pub section : String → String → String
  pub section_front : (a sep b : String) → Precedes a sep → section (a <> sep <> b) sep ≡ a
