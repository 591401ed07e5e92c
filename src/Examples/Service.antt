-- ===== src/Examples/Service.antt =====
-- template/src on a table of two rows and concrete requests.
use mathlib.Core.List.Permᴰ
use mathlib.Core.List.{Permᴰ}
use maxgame_admin_guard.Base.{
  ℕ, zero, suc, ◌+◌, ◌≤◌, ◌<◌, ◌≡◌, refl, Bool, true, false, none, List, [], ◌∷◌, ok, arith, All,
  length, take, drop,
}
use maxgame_admin_guard.Base.Int.{pos, pos_part}
use maxgame_admin_guard.Template.Example.{offset}
use maxgame_admin_guard.Template.Repo.{ExampleItem, Postgres, visible, list, or_domain_error}
use maxgame_admin_guard.Template.Repo.Order.{IsNewestFirst}
use maxgame_admin_guard.Template.Repo.Laws.{IsSql, IsPublic, gather, page_query, pages-tile}
use maxgame_admin_guard.Template.Service.{public_list, answer, list_public}
use maxgame_admin_guard.Template.Service.Laws.{list_public-IsPublic}

abbrev pub newer : ExampleItem
newer = record { id = "b"; name = "draft"; is_public = false; created_at = 9 }

abbrev pub older : ExampleItem
older = record { id = "a"; name = "news"; is_public = true; created_at = 4 }

abbrev pub rows : List ExampleItem
rows = newer ∷ older ∷ []

-- A database that holds the two rows in every world.
abbrev pub db : Postgres ℕ
db = record {
  fetch_all = λ q w.
      (ok (take (pos_part q.limit) (drop (pos_part q.offset) (visible q.public_only rows))), w + 1);
  fetch_count = λ public_only w. (ok (pos 2), w + 1);
  insert_row = λ name is_public w. (ok newer, w + 1);
  fetch_row = λ id w. (ok none, w + 1);
  select_one = λ w. (ok tt, w + 1);
}

abbrev table : ℕ → List ExampleItem
table w = rows

sorted : (public_only : Bool) → IsNewestFirst (visible public_only rows)
unfolding visible
sorted true = (tt, tt)
sorted false = ((omega arith, tt), (tt, tt))

db-IsSql : IsSql db table
db-IsSql = record {
  fetched = λ public_only limit skip w w' items h. record {
    ordered = visible public_only rows;
    shuffles = Permᴰ.refl (visible public_only rows);
    newest_first = sorted public_only;
    cut = ground (arith, h);
  };
}

list_public-IsPublic_example : All IsPublic (older ∷ []) × (length (older ∷ []) ≤ 100)
list_public-IsPublic_example = list_public-IsPublic db table db-IsSql 3 4 (older ∷ []) shown
  where
    shown : list_public db 3 ≡ (answer 200 (public_list (older ∷ [])), 4)
    shown = unfold list_public list visible or_domain_error in refl

-- One row to a page.
abbrev page : ℕ → List ExampleItem
page zero = newer ∷ []
page (suc zero) = older ∷ []
page (suc (suc k)) = []

pages-tile_example : Permᴰ (gather page 2) rows × IsNewestFirst (gather page 2)
pages-tile_example =
    pages-tile db table db-IsSql rows 1 2 (λ k. 3) (λ k. 4) page (omega arith) (omega arith)
      (omega arith) ((λ e. omega (arith, e), tt), (tt, tt)) shown
  where
    shown :
        (k : ℕ)
        → k < 2
        → (table 3 ≡ rows)
          × (list db false (page_query 1 k).take (offset (page_query 1 k)) 3 ≡ (ok (page k), 4))
    shown zero h = (refl, unfold list visible or_domain_error offset in refl)
    shown (suc zero) h = (refl, unfold list visible or_domain_error offset in refl)
    shown (suc (suc k)) h = absurd (omega (arith, h))
