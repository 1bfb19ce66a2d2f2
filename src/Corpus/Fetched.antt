-- ===== src/Corpus/Fetched.antt =====
-- The papers that are fetched (corpus_builder/build.py, `_search` and `fetch_papers`).
use mas_research.Text.{Text}
use mas_research.Base.{
  sym, ◌∙◌, leb, ◌==◌, Bool-cases, nat_key, ℕ, zero, suc, ◌+◌, ◌*◌, ◌≤◌, ◌≡◌, refl, Bool, true,
  false, ◌||◌, Option, none, some, List, [], ◌∷◌, ◌++◌, arith, ltb, length, inl, inr, if◌then◌else◌,
  text_key, Option-cases,
}
use mas_research.Base.Dict.{contains}
use mas_research.Corpus.{
  is_transient, Item, Paper, Client, Net, Found, take_items, search_works, attempts, send, wait,
  fetch_from, fetch_papers, max_retries,
}
use mathlib.Core.Path.{subst}
use Prim.Native.Nat.{◌^◌}
use mas_research.Corpus.Titles.{
  titles, usable_titles, distinct, Has, take_items-Has, usable_titles-append,
}

abbrev append_items : Option (List Item) → Option (List Item) → Option (List Item)
append_items none rest = none
append_items (some items) none = none
append_items (some items) (some rest) = some (items ++ rest)

-- The first request from the `n`-th on, among `left`, whose status is neither 429 nor a server's error.
abbrev pub settled : Client → Text → ℕ → ℕ → Option ℕ
settled client query zero n = none
settled client query (suc left) n =
    let rest = settled client query left (n + 1) in
    let status = client.status n query in if status == 429 || leb 500 status then rest else some n

-- What the request has brought; `none` is a raise, for a bad status or for want of such a request.
abbrev pub answer_at : Client → Text → Option ℕ → Option (List Item)
answer_at client query none = none
answer_at client query (some n) =
    if client.raises (client.status n query) then none else some (client.results n query)

abbrev pub next_request : ℕ → ℕ → Option ℕ → ℕ
next_request left n none = n + left
next_request left n (some m) = m + 1

-- The items that the queries bring, in order, from the `n`-th request on; `none` is a raise.
abbrev pub all_items : Client → ℕ → List Text → Option (List Item)
all_items client n [] = some []
all_items client n (query ∷ queries) =
    let found = settled client query 5 n in
    append_items (answer_at client query found) (all_items client (next_request 5 n found) queries)

next_request-suc :
    (left n : ℕ) (found : Option ℕ)
    → next_request left (n + 1) found ≡ next_request (suc left) n found
next_request-suc left n none = omega arith
next_request-suc left n (some m) = refl

attempts-settled :
    (client : Client) (query : Text) (left attempt : ℕ) (net : Net)
    → let found = settled client query left net.sent in
      ((attempts client query left attempt net).0 ≡ answer_at client query found)
      × ((attempts client query left attempt net).1.sent ≡ next_request left net.sent found)
unfolding attempts
attempts-settled client query zero attempt net = (refl, omega arith)
attempts-settled client query (suc left) attempt net =
    let status = client.status net.sent query in
    elim (Bool-cases (is_transient status)) [
      | inl e ↦
          let (answered, counted) =
            attempts-settled client query left (attempt + 1)
              (wait (5_000 * 2 ^ attempt) (send net)) in
          rw e (
            answered,
            counted ∙ next_request-suc left net.sent (settled client query left (net.sent + 1)),
          )
      | inr e ↦ elim (Bool-cases (client.raises status)) [
        | inl bad ↦ rw (e, bad) (refl, refl)
        | inr good ↦ rw (e, good) (refl, refl)
      ]
    ]

-- The pause before a search changes nothing of it.
search_works-settled :
    (client : Client) (query : Text) (index : ℕ) (net : Net)
    → let r = search_works client query (if ltb 0 index then wait 3_000 net else net) in
      let found = settled client query 5 net.sent in
      (r.0 ≡ answer_at client query found) × (r.1.sent ≡ next_request 5 net.sent found)
unfolding search_works
search_works-settled client query index net = elim (Bool-cases (ltb 0 index)) [
  | inl e ↦ rw e (attempts-settled client query 5 0 (wait 3_000 net))
  | inr e ↦ rw e (attempts-settled client query 5 0 net)
]

attempts-sent :
    (client : Client) (query : Text) (left attempt : ℕ) (net : Net)
    → (attempts client query left attempt net).1.sent ≤ net.sent + left
unfolding attempts
attempts-sent client query zero attempt net = omega arith
attempts-sent client query (suc left) attempt net =
    ground
      (arith, attempts-sent client query left (attempt + 1) (wait (5_000 * 2 ^ attempt) (send net)))

-- The papers of the items, where no search raises.
abbrev pub Agrees : (Text → Bool) → Option (List Item) → Option (List Paper) → Type 0
Agrees f none none = Unit {0}
Agrees f (some items) (some papers) =
    (distinct (titles papers) ≡ true)
    × ((j : Text) → contains j (titles papers) ≡ (f j || contains j (usable_titles items)))
Agrees f _ _ = ⊥

Agrees-append :
    (f : Text → Bool) (items : List Item) (rest : Option (List Item)) (papers : Option (List Paper))
    → Agrees (λ j. f j || contains j (usable_titles items)) rest papers
    → Agrees f (append_items (some items) rest) papers
Agrees-append f items none none h = h
Agrees-append f items (some rest) (some papers) (d, e) =
    (d, λ j. ground (arith, e j, usable_titles-append j items rest))
Agrees-append f items none (some papers) h = elim h [ ]
Agrees-append f items (some rest) none h = elim h [ ]

fetch_from-Agrees :
    (f : Text → Bool) (client : Client) (index : ℕ) (queries : List Text) (found : Found)
    (net : Net)
    → Has f found
    → Agrees f (all_items client net.sent queries) (fetch_from client index queries found net).0
unfolding fetch_from contains
fetch_from-Agrees f client index [] found net (d, e, k) = (d, λ j. ground (arith, e j))
fetch_from-Agrees f client index (query ∷ queries) found net h =
    let r = search_works client query (if ltb 0 index then wait 3_000 net else net) in
    let found_at = settled client query 5 net.sent in
    let (answered, counted) = search_works-settled client query index net in
    elim (Option-cases r.0) [
      | inl e ↦
          let raised : answer_at client query found_at ≡ none = sym answered ∙ e in
          rw (raised, e, fetch_from) tt
      | inr (items, e) ↦
          let brought : answer_at client query found_at ≡ some items = sym answered ∙ e in
          let later = fetch_from client (index + 1) queries (take_items items found) r.1 in
          let ih =
            fetch_from-Agrees (λ j. f j || contains j (usable_titles items)) client (index + 1)
              queries (take_items items found) r.1 (take_items-Has f items found h) in
          rw (brought, e, fetch_from)
            (Agrees-append f items (all_items client (next_request 5 net.sent found_at) queries)
              later.0
              (subst
                (λ n.
                  Agrees (λ j. f j || contains j (usable_titles items)) (all_items client n queries)
                    later.0)
                counted ih))
    ]

search_works-sent :
    (client : Client) (query : Text) (net : Net)
    → (search_works client query net).1.sent ≤ net.sent + 5
unfolding search_works
search_works-sent client query net = attempts-sent client query max_retries 0 net

fetch_from-sent :
    (client : Client) (index : ℕ) (queries : List Text) (found : Found) (net : Net)
    → (fetch_from client index queries found net).1.sent ≤ net.sent + 5 * length queries
unfolding fetch_from
fetch_from-sent client index [] found net = omega arith
fetch_from-sent client index (query ∷ queries) found net =
    let start : Net = if ltb 0 index then wait 3_000 net else net in
    let r = search_works client query start in
    let first : r.1.sent ≤ net.sent + 5 = ground (arith, search_works-sent client query start) in
    elim (Option-cases r.0) [
      | inl e ↦ rw (e, fetch_from) (omega (arith, first))
      | inr (items, e) ↦
          let ih = fetch_from-sent client (index + 1) queries (take_items items found) r.1 in
          rw (e, fetch_from) (omega (arith, first, ih))
    ]

-- In total at most five times as many requests are sent as there are queries. The papers are there
-- unless a search raises, and then they are not; a search's answer is that of its first request, of
-- five, whose status is neither 429 nor 500 or more, and it raises for a bad status of that one or
-- where there is none. The papers' titles are those of the items in the answers that have a title
-- and an abstract, both not empty, and no two papers have the same title.
pub fetch_papers-Agrees :
    (client : Client) (queries : List Text) (net : Net)
    → ((fetch_papers client queries net).1.sent ≤ net.sent + 5 * length queries)
      × Agrees (λ j. false) (all_items client net.sent queries) (fetch_papers client queries net).0
unfolding fetch_papers contains
fetch_papers-Agrees client queries net =
    let start : Found = record { seen = []; papers = [] } in
    (
      fetch_from-sent client 0 queries start net,
      fetch_from-Agrees (λ j. false) client 0 queries start net (refl, λ j. refl, λ j. refl),
    )
