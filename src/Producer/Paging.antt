-- ===== src/Producer/Paging.antt =====
-- `_iter` of producer/tasks.py: a listing is fetched page by page, each page after the last item of the
-- one before, until a page is empty. Fetching a page is a parameter; it has the limit in it.
pub mod Listing
mod Tests
use designate_private.Prelude.{ℕ, zero, suc, Option, none, some, List, [], ◌∷◌, ◌++◌, ◌>>=◌}

-- items[-1] of x ∷ xs
unfoldable pub last_item {ℓ} : {A : Type ℓ} → A → List A → A
last_item x [] = x
last_item x (y ∷ ys) = last_item y ys

module _ {ℓ} {A : Type ℓ} (id_of : A → ℕ) (fetch : Option ℕ → List A) where
  -- The body of the loop: StopIteration at an empty page.
  abbrev pub yield_page : List A → (Option ℕ → Option (List A)) → Option (List A)
  unfolding last_item
  yield_page [] next = some []
  yield_page (x ∷ xs) next = do more ← next (some (id_of (last_item x xs))); some ((x ∷ xs) ++ more)

  -- The items that are yielded; `none` is that the pages were more than the fuel.
  unfoldable pub iter : ℕ → Option ℕ → Option (List A)
  iter zero marker = none
  iter (suc fuel) marker = yield_page (fetch marker) (iter fuel)
