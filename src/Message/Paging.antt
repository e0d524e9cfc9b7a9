-- ===== src/Message/Paging.antt =====
-- A client that reads a channel page by page, each page before the cursor of the last one.
use sagiton.Prelude.{ℕ, zero, suc, ◌+◌, ◌≡◌, Option, none, some, List, [], ◌∷◌, ◌++◌, take}
use sagiton.Shared.{AppResult, ok, err}
use sagiton.Database.Table.{find_where, All}
use sagiton.Schema.{MessageRecord}
use sagiton.Message.{MessagePage, is_at, rows_before, repo_list_messages, page_result}
use sagiton.Message.Feed.{UniqueIds}

abbrev pub follow :
    (Option ℕ → List MessageRecord) → Option ℕ → List MessageRecord → List MessageRecord
follow next none messages = messages
follow next (some cursor) messages = messages ++ next (some cursor)

abbrev pub read_page : (Option ℕ → List MessageRecord) → AppResult MessagePage → List MessageRecord
read_page next (ok page) = follow next page.next_cursor page.messages
read_page next (err e) = []

-- The messages of at most `fuel` pages of `limit` messages.
unfoldable pub read_all :
    (fuel scope limit : ℕ) → List MessageRecord → Option ℕ → List MessageRecord
read_all zero scope limit rows before = []
read_all (suc fuel) scope limit rows before =
    read_page (read_all fuel scope limit rows)
      (page_result limit (repo_list_messages scope before (limit + 1) rows))

All-after : (P : MessageRecord → Type 0) (xs ys : List MessageRecord) → All P (xs ++ ys) → All P ys
All-after P [] ys h = h
All-after P (x ∷ xs) ys h = All-after P xs ys h.1

-- A listed message is found by its id.
abbrev FoundAt : ℕ → List MessageRecord → MessageRecord → Type 0
FoundAt scope rows m = find_where (is_at scope m.id) rows ≡ some m

module _ (scope : ℕ) (rows : List MessageRecord) (u : UniqueIds rows) where
  -- All that the channel lists.
  abbrev feed : List MessageRecord
  feed = rows_before scope none rows

  -- A cursor at which `rest` is still to be read.
  abbrev IsAt : Option ℕ → List MessageRecord → Type 0
  IsAt before rest = (n : ℕ) → repo_list_messages scope before n rows ≡ ok (take n rest)
