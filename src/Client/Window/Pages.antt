-- ===== src/Client/Window/Pages.antt =====
-- The list of tabs of a QTabWidget, as src/client/mainwindow.cpp adds and removes them: no page
-- twice.
use simple_chat_protocol.Prelude.{
  ℕ, zero, suc, ◌<◌, String, ◌≡◌, ◌≢◌, refl, none, some, [], ◌∷◌, ◌++◌, arith, All, get_elem?,
  erase_idx,
}
use simple_chat_protocol.Prelude.Eq.{nat_equality}
use simple_chat_protocol.Prelude.Map.{Map, find, Distinct}

pub find_fresh : (n : ℕ) (l : Map ℕ String) → All (λ e. e.0 < n) l → find n l ≡ none
unfolding find
find_fresh n [] h = refl
find_fresh n ((page, t) ∷ l) h = ground (arith, h.0, find_fresh n l h.1)

find-append :
    (k n : ℕ) (t : String) (l : Map ℕ String)
    → find k l ≡ none
    → k ≢ n
    → find k (l ++ (n, t) ∷ []) ≡ none
unfolding find
find-append k n t [] h d = ground (arith, d)
find-append k n t ((page, t') ∷ l) h d = ground (arith, h, d, find-append k n t l)

pub append-Distinct :
    (n : ℕ) (t : String) (l : Map ℕ String)
    → Distinct l
    → All (λ e. e.0 < n) l
    → Distinct (l ++ (n, t) ∷ [])
unfolding find
append-Distinct n t [] d h = (refl, tt)
append-Distinct n t ((page, t') ∷ l) d h =
    (find-append page n t l d.0 (λ same. omega (arith, h.0, same)), append-Distinct n t l d.1 h.1)

find-erase_idx : (k i : ℕ) (l : Map ℕ String) → find k l ≡ none → find k (erase_idx l i) ≡ none
unfolding find
find-erase_idx k i [] h = refl
find-erase_idx k zero ((page, t) ∷ l) h = ground (arith, h)
find-erase_idx k (suc i) ((page, t) ∷ l) h = ground (arith, h, find-erase_idx k i l)

pub erase_idx-Distinct : (i : ℕ) (l : Map ℕ String) → Distinct l → Distinct (erase_idx l i)
erase_idx-Distinct i [] d = tt
erase_idx-Distinct zero (e ∷ l) d = d.1
erase_idx-Distinct (suc i) ((page, t) ∷ l) d =
    (find-erase_idx page i l d.0, erase_idx-Distinct i l d.1)

find-get :
    (i page : ℕ) (t : String) (l : Map ℕ String)
    → get_elem? l i ≡ some (page, t)
    → find page l ≢ none
unfolding find
find-get i page t [] e = cc
find-get zero page t ((p, t') ∷ l) e = let same : p ≡ page = cc in ground (arith, same)
find-get (suc i) page t ((p, t') ∷ l) e = ground (arith, find-get i page t l e)

-- What is taken out of the list is not in it any more.
pub find-erase_idx_at :
    (i page : ℕ) (t : String) (l : Map ℕ String)
    → Distinct l
    → get_elem? l i ≡ some (page, t)
    → find page (erase_idx l i) ≡ none
unfolding find
find-erase_idx_at i page t [] d e = refl
find-erase_idx_at zero page t ((p, t') ∷ l) d e =
    let same : p ≡ page = cc in ground (arith, same, d.0)
find-erase_idx_at (suc i) page t ((p, t') ∷ l) d e =
    ground (arith, d.0, find-get i page t l e, find-erase_idx_at i page t l d.1 e)
