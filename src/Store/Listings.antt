-- ===== src/Store/Listings.antt =====
-- ListChanges and ListChangesPage.
use runko.Prelude.{
  ℕ, Bool, true, false, not, ◌&&◌, ◌==◌, ltb, Option, none, some, List, text_lt, keep, values,
  sort_with, if◌then◌else◌,
}
use runko.Store.Model.{ChangeState, opened, landed, abandoned, Change, MemStore}
use runko.Store.Reviews.{page}

unfoldable pub same_state : ChangeState → ChangeState → Bool
same_state opened opened = true
same_state landed landed = true
same_state abandoned abandoned = true
same_state _ _ = false

-- the state asked for; `none` is the empty text, which asks for all
in_state : Option ChangeState → Change → Bool
unfolding same_state
in_state none c = true
in_state (some state) c = same_state c.state state

-- the order of the listing: landed ones by their landing, newest first
before : Option ChangeState → Change → Change → Bool
unfolding text_lt same_state
before none a b = text_lt a.change_key b.change_key
before (some state) a b =
    if same_state state landed && not (a.landed_at == b.landed_at)
    then ltb b.landed_at a.landed_at
    else text_lt a.change_key b.change_key

-- ListChanges
unfoldable pub list_changes : Option ChangeState → MemStore → List Change
unfolding in_state before sort_with keep values
list_changes state s = sort_with (before state) (keep (in_state state) (values s.changes))

-- ListChangesPage
unfoldable pub list_changes_page : Option ChangeState → ℕ → ℕ → MemStore → List Change
unfolding page
list_changes_page state limit offset s = page (list_changes state s) limit offset
