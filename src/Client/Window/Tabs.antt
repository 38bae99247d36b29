-- ===== src/Client/Window/Tabs.antt =====
-- The tabs of src/client/mainwindow.cpp.
use simple_chat_protocol.Prelude.{
  ℕ, zero, suc, ◌+◌, ◌≤◌, ◌<◌, String, ◌≡◌, ◌≢◌, refl, sym, ap, ◌∙◌, subst, none, some, List, [],
  ◌∷◌, ◌++◌, arith, All, All-append, map, get_elem?, erase_idx, inl, inr, Option-cases,
  string_equality, nat_equality,
}
use simple_chat_protocol.Prelude.Map.{
  Map, find, insert, erase, Distinct, find-insert, find-erase, insert-Distinct, erase-Distinct,
}
use simple_chat_protocol.Client.Window.Pages.{append-Distinct, erase_idx-Distinct}
use simple_chat_protocol.Client.Qt.{TabWidget}
use simple_chat_protocol.Client.Window.State.{general_chat, system_log}

-- The two tabs that are always there.
abbrev pub fixed_tabs : List (ℕ × String)
fixed_tabs = (general_chat, "💬 General") ∷ (system_log, "🖥\u{fe0f} Sistema") ∷ []

no_peer : (peer : String) (page : ℕ) → find peer [] ≢ some page
unfolding find
no_peer peer page e = cc

new_pages-Distinct :
    (p r : ℕ) (t t' : String) → p ≢ r → Distinct {V = String} ((p, t) ∷ (r, t') ∷ [])
unfolding find
new_pages-Distinct p r t t' d = (ground (arith, d), (refl, tt))

module _ (b : TabWidget) where
  open b use {
    T, new_tabs, pages, index_of, add_tab, remove_tab, set_current_tab, index_found, pages_new,
    pages_add, pages_remove, pages_set,
  }

  -- The first two tabs are those, no page is twice there, all are such as `new` has given out, and
  -- the page of a peer in `dm_tabs` is none of the first two, nor that of another peer.
  pub record Tabs (tabs : T) (dm_tabs : Map String ℕ) (next_page : ℕ) : Type 0 where
    pub others : List (ℕ × String)
    pub shape : pages tabs ≡ fixed_tabs ++ others
    pub given : All (λ e. e.0 < next_page) (pages tabs)
    pub pages_distinct : Distinct (pages tabs)
    pub enough : 2 ≤ next_page
    pub distinct : Distinct dm_tabs
    pub of_peer :
        (peer : String) (page : ℕ) → find peer dm_tabs ≡ some page → (2 ≤ page) × (page < next_page)
    pub apart :
        (peer other : String) (page : ℕ)
        → find peer dm_tabs ≡ some page
        → find other dm_tabs ≡ some page
        → peer ≡ other

  All-get :
      (n i page : ℕ) (l : List (ℕ × String))
      → All (λ e. e.0 < n) l
      → get_elem? (map (λ e. e.0) l) i ≡ some page
      → page < n
  All-get n i page [] h e = absurd cc
  All-get n zero page (x ∷ l) h e = let same : x.0 ≡ page = cc in omega (arith, h.0, same)
  All-get n (suc i) page (x ∷ l) h e = All-get n i page l h.1 e

  -- A page that `new` has not given out is not among the tabs.
  fresh_page : (tabs : T) (n : ℕ) → All (λ e. e.0 < n) (pages tabs) → index_of tabs n ≡ none
  fresh_page tabs n h = elim (Option-cases (index_of tabs n)) [
    | inl e ↦ e
    | inr (i, e) ↦ absurd (omega (arith, All-get n i n (pages tabs) h (index_found tabs n i e)))
  ]

  All-later : (n : ℕ) (l : List (ℕ × String)) → All (λ e. e.0 < n) l → All (λ e. e.0 < n + 1) l
  All-later n [] h = tt
  All-later n (x ∷ l) h = (omega (arith, h.0), All-later n l h.1)

  pub add_tab-Tabs :
      (tabs : T) (dm : Map String ℕ) (n : ℕ) (peer label : String)
      → Tabs tabs dm n
      → Tabs (add_tab n label tabs) (insert peer n dm) (n + 1)
  add_tab-Tabs tabs dm n peer label h =
      let added = pages_add n label tabs (fresh_page tabs n h.given) in
      record {
        others = h.others ++ (n, label) ∷ [];
        shape = added ∙ ap (λ l. l ++ (n, label) ∷ []) h.shape;
        given = subst (All (λ e. e.0 < n + 1)) (sym added) (
            All-append (λ e. e.0 < n + 1) (pages tabs) ((n, label) ∷ [])
              (All-later n (pages tabs) h.given) (omega arith, tt));
        pages_distinct =
            subst Distinct (sym added)
              (append-Distinct n label (pages tabs) h.pages_distinct h.given);
        enough = omega (arith, h.enough);
        distinct = insert-Distinct peer n dm h.distinct;
        of_peer =
            λ p page e. ground (arith, find-insert peer p n dm, e, h.of_peer p page, h.enough);
        apart = λ p p' page e e'. ground (
          arith,
          find-insert peer p n dm,
          find-insert peer p' n dm,
          string_equality.beq_iff peer p,
          string_equality.beq_iff peer p',
          e,
          e',
          h.of_peer p page,
          h.of_peer p' page,
          h.apart p p' page,
        );
      }

  erase_idx-All :
      (n i : ℕ) (l : List (ℕ × String)) → All (λ e. e.0 < n) l → All (λ e. e.0 < n) (erase_idx l i)
  erase_idx-All n i [] h = tt
  erase_idx-All n zero (x ∷ l) h = h.1
  erase_idx-All n (suc i) (x ∷ l) h = (h.0, erase_idx-All n i l h.1)

  -- Closing another tab than the first two.
  pub remove_tab-Tabs :
      (tabs : T) (dm : Map String ℕ) (n i : ℕ) (label : String)
      → 2 ≤ i
      → Tabs tabs dm n
      → Tabs (remove_tab i tabs) (erase label dm) n
  remove_tab-Tabs tabs dm n zero label le h = absurd (omega arith)
  remove_tab-Tabs tabs dm n (suc zero) label le h = absurd (omega arith)
  remove_tab-Tabs tabs dm n (suc (suc i)) label le h = record {
    others = erase_idx h.others i;
    shape = pages_remove (suc (suc i)) tabs ∙ ap (λ l. erase_idx l (suc (suc i))) h.shape;
    given =
        subst (All (λ e. e.0 < n)) (sym (pages_remove (suc (suc i)) tabs))
          (erase_idx-All n (suc (suc i)) (pages tabs) h.given);
    pages_distinct =
        subst Distinct (sym (pages_remove (suc (suc i)) tabs))
          (erase_idx-Distinct (suc (suc i)) (pages tabs) h.pages_distinct);
    enough = h.enough;
    distinct = erase-Distinct label dm h.distinct;
    of_peer = λ p page e. ground (arith, find-erase label p dm h.distinct, e, h.of_peer p page);
    apart = λ p p' page e e'. ground (
      arith,
      find-erase label p dm h.distinct,
      find-erase label p' dm h.distinct,
      e,
      e',
      h.apart p p' page,
    );
  }

  pub set_current_tab-Tabs :
      (tabs : T) (dm : Map String ℕ) (n i : ℕ) → Tabs tabs dm n → Tabs (set_current_tab i tabs) dm n
  set_current_tab-Tabs tabs dm n i h = record {
    others = h.others;
    shape = pages_set i tabs ∙ h.shape;
    given = subst (All (λ e. e.0 < n)) (sym (pages_set i tabs)) h.given;
    pages_distinct = subst Distinct (sym (pages_set i tabs)) h.pages_distinct;
    enough = h.enough;
    distinct = h.distinct;
    of_peer = h.of_peer;
    apart = h.apart;
  }

  pub new_tabs-Tabs :
      Tabs (add_tab system_log "🖥\u{fe0f} Sistema" (add_tab general_chat "💬 General" new_tabs)) [] 2
  new_tabs-Tabs =
      let one : pages (add_tab general_chat "💬 General" new_tabs) ≡ (0, "💬 General") ∷ [] =
        pages_add 0 "💬 General" new_tabs
          (fresh_page new_tabs 0 (subst (All (λ e. e.0 < 0)) (sym pages_new) tt))
        ∙ ap (λ l. l ++ (0, "💬 General") ∷ []) pages_new in
      let two =
        pages_add 1 "🖥\u{fe0f} Sistema" (add_tab general_chat "💬 General" new_tabs)
          (fresh_page _ 1 (subst (All (λ e. e.0 < 1)) (sym one) (omega arith, tt)))
        ∙ ap (λ l. l ++ (1, "🖥\u{fe0f} Sistema") ∷ []) one in
      record {
        others = [];
        shape = two;
        given = subst (All (λ e. e.0 < 2)) (sym two) (omega arith, (omega arith, tt));
        pages_distinct =
            subst Distinct (sym two)
              (new_pages-Distinct 0 1 "💬 General" "🖥\u{fe0f} Sistema" (omega arith));
        enough = omega arith;
        distinct = tt;
        of_peer = λ peer page e. absurd (no_peer peer page e);
        apart = λ peer other page e _. absurd (no_peer peer page e);
      }
