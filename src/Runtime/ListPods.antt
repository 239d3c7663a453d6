-- ===== src/Runtime/ListPods.antt =====
-- crates/rustern-core/src/runtime/list_pods.rs: the pages of a list of pods.
use rustern.Common.{
  ℕ, zero, suc, ◌≤◌, ◌≡◌, refl, ◌∙◌, ap, List, [], ◌∷◌, ◌++◌, Option, none, some, arith, Text,
  if◌then◌else◌, is_empty, length, Result, ok, err,
}
use mathlib.Core.List.{append_assoc}

abbrev pub max_list_pages : ℕ
max_list_pages = 1000

-- One answer of the API; `P` is a pod.
pub record Page (P : Type 0) : Type 0 where
  pub items : List P
  pub continue_ : Option Text

pub data ListError (E : Type 0) : Type 0 where
  api : E → ListError E
  too_many_pages : ListError E

-- `filter(|c| !c.is_empty())`.
unfoldable pub next_token : Option Text → Option Text
next_token none = none
next_token (some c) = if is_empty c then none else some c

module _ {P E : Type 0} (list : Option Text → Result (Page P) E) where
  -- `list` asks the API for the page of a continue token; the first request has the token of the given
  -- parameters. The `for` has `n` turns left.
  continue_list :
      (Text → List P → Result (List P) (ListError E))
      → List P
      → Option Text
      → Result (List P) (ListError E)
  continue_list rest pods none = ok pods
  continue_list rest pods (some token) = rest token pods

  on_page :
      (Text → List P → Result (List P) (ListError E))
      → List P
      → Result (Page P) E
      → Result (List P) (ListError E)
  unfolding continue_list next_token
  on_page rest pods (err e) = err (api e)
  on_page rest pods (ok page) = continue_list rest (pods ++ page.items) (next_token page.continue_)

  list_pages : ℕ → Option Text → List P → Result (List P) (ListError E)
  unfolding on_page
  list_pages zero token pods = err too_many_pages
  list_pages (suc n) token pods =
      on_page (λ next collected. list_pages n (some next) collected) pods (list token)

  unfoldable pub list_pods_paginated : Option Text → Result (List P) (ListError E)
  unfolding list_pages
  list_pods_paginated token = list_pages max_list_pages token []

  -- The API answers the token with these pages: each but the last one names the token of the next.
  abbrev pub Answers : Option Text → Page P → List (Page P) → Type 0
  Answers token page [] = (list token ≡ ok page) × (next_token page.continue_ ≡ none)
  Answers token page (next ∷ pages) =
      (list token ≡ ok page)
      × ((t : Text) × (next_token page.continue_ ≡ some t) × Answers (some t) next pages)

  unfoldable pub all_items : Page P → List (Page P) → List P
  all_items page [] = page.items
  all_items page (next ∷ pages) = page.items ++ all_items next pages

  list_pages-all :
      (n : ℕ) (token : Option Text) (pods : List P) (page : Page P) (pages : List (Page P))
      → suc (length pages) ≤ n
      → Answers token page pages
      → list_pages n token pods ≡ ok (pods ++ all_items page pages)
  unfolding list_pages on_page continue_list all_items
  list_pages-all zero token pods page pages h a = absurd (omega arith)
  list_pages-all (suc n) token pods page [] h a = rw a.0 (rw a.1 refl)
  list_pages-all (suc n) token pods page (next ∷ pages) h (a, (t, e, rest)) = rw a (
      rw e (
        list_pages-all n (some t) (pods ++ page.items) next pages (omega arith) rest
        ∙ ap ok (append_assoc pods page.items (all_items next pages))))

  -- A list of at most a thousand pages is the items of all of them, in their order.
  pub list_pods-all :
      (token : Option Text) (page : Page P) (pages : List (Page P))
      → suc (length pages) ≤ max_list_pages
      → Answers token page pages
      → list_pods_paginated token ≡ ok (all_items page pages)
  unfolding list_pods_paginated
  list_pods-all token page pages h a = list_pages-all max_list_pages token [] page pages h a

  list_pages-unending :
      (n : ℕ) (token : Option Text) (pods : List P)
      → ((t : Option Text)
          → (page : Page P) × (u : Text) × (list t ≡ ok page)
            × (next_token page.continue_ ≡ some u))
      → list_pages n token pods ≡ err too_many_pages
  unfolding list_pages on_page continue_list
  list_pages-unending zero token pods h = refl
  list_pages-unending (suc n) token pods h =
      let (page, u, e, f) = h token in
      rw e (rw f (list_pages-unending n (some u) (pods ++ page.items) h))

  -- A server that names a next page for ever gives an error, not a list.
  pub list_pods-unending :
      (token : Option Text)
      → ((t : Option Text)
          → (page : Page P) × (u : Text) × (list t ≡ ok page)
            × (next_token page.continue_ ≡ some u))
      → list_pods_paginated token ≡ err too_many_pages
  unfolding list_pods_paginated
  list_pods-unending token h = list_pages-unending max_list_pages token [] h
