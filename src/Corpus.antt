-- ===== src/Corpus.antt =====
-- Building the corpus of the recommender (corpus_builder/build.py): the search with its retries, the
-- papers that are kept, and their abstracts. The client with its answers is a parameter, in the shape
-- that the API documents. Texts are lists of code points. Waiting times are in milliseconds.
pub mod Abstract
pub mod Titles
pub mod Fetched
use mas_research.Text.{Text, text_less, join_with}
use mas_research.Base.{
  ℕ, zero, suc, ◌+◌, ◌*◌, Bool, true, false, not, ◌&&◌, ◌||◌, ◌==◌, Option, none, some, or_else,
  List, [], ◌∷◌, ◌++◌, map, length, is_empty, leb, ltb, if◌then◌else◌, text_key,
}
use mas_research.Base.Int.{ℤ}
use mas_research.Base.Dict.{Dict, contains, add}
use mas_research.Base.Sorting.{sort_by}
use Prim.Native.Nat.{◌^◌}

-- `abstract_inverted_index`: each word with its positions.
abbrev pub InvertedIndex : Type 0
InvertedIndex = Dict Text (List ℕ)

abbrev pub Position : Type 0
Position = ℕ × Text

-- `<` of the pairs (position, word).
unfoldable pub position_less : Position → Position → Bool
unfolding text_less
position_less (p, v) (q, w) = ltb p q || ((p == q) && text_less v w)

abbrev pub at_positions : Text → List ℕ → List Position
at_positions word [] = []
at_positions word (p ∷ ps) = (p, word) ∷ at_positions word ps

-- `positions`, before it is sorted.
abbrev pub positions_of : InvertedIndex → List Position
positions_of [] = []
positions_of ((word, where_at) ∷ index) = at_positions word where_at ++ positions_of index

abbrev pub words_of : List Position → List Text
words_of [] = []
words_of ((p, word) ∷ ps) = word ∷ words_of ps

-- " " and ", "
abbrev pub space : Text
space = 32 ∷ []

abbrev comma : Text
comma = 44 ∷ 32 ∷ []

-- `_reconstruct_abstract`
unfoldable pub reconstruct_abstract : InvertedIndex → Text
unfolding position_less sort_by join_with
reconstruct_abstract index = join_with space (words_of (sort_by position_less (positions_of index)))

-- An item of the answer. A key that is missing and one that is null are the same to the code.
pub record Item : Type 0 where
  pub title : Option Text
  pub abstract_inverted_index : Option InvertedIndex
  pub authorships : List (Option (Option Text))
  pub publication_year : Option ℤ
  pub doi : Option Text
  pub id : Option Text

pub record Paper : Type 0 where
  pub title : Text
  pub abstract : Text
  pub authors : Option Text
  pub year : Option ℤ
  pub url : Option Text

-- The n-th request with its query: the status and the items. `raises` is `raise_for_status`.
pub record Client : Type 0 where
  pub status : ℕ → Text → ℕ
  pub raises : ℕ → Bool
  pub results : ℕ → Text → List Item

-- The requests that were sent and the times that were waited, the last one first.
pub record Net : Type 0 where
  pub sent : ℕ
  pub waits : List ℕ

abbrev pub max_retries : ℕ
max_retries = 5

abbrev pub is_transient : ℕ → Bool
is_transient status = (status == 429) || leb 500 status

abbrev pub send : Net → Net
send net = record { sent = net.sent + 1; waits = net.waits }

abbrev pub wait : ℕ → Net → Net
wait millis net = record { sent = net.sent; waits = millis ∷ net.waits }

-- The loop of `_search` with the attempts that are left; `none` is a raise.
unfoldable pub attempts : Client → Text → ℕ → ℕ → Net → Option (List Item) × Net
attempts client query zero attempt net = (none, net)
attempts client query (suc left) attempt net =
    let again = attempts client query left (attempt + 1) (wait (5_000 * 2 ^ attempt) (send net)) in
    let status = client.status net.sent query in
    if is_transient status
    then again
    else if client.raises status
    then (none, send net)
    else (some (client.results net.sent query), send net)

-- `_search`
unfoldable pub search_works : Client → Text → Net → Option (List Item) × Net
unfolding attempts
search_works client query net = attempts client query max_retries 0 net

-- `x or None` and `x or y` for texts.
abbrev present : Text → Option Text
present [] = none
present (c ∷ cs) = some (c ∷ cs)

abbrev first_present : Option Text → Option Text → Option Text
first_present (some (c ∷ cs)) other = some (c ∷ cs)
first_present _ other = other

abbrev author_names : List (Option (Option Text)) → List Text
author_names [] = []
author_names (some (some (c ∷ cs)) ∷ rest) = (c ∷ cs) ∷ author_names rest
author_names (_ ∷ rest) = author_names rest

abbrev pub paper_of : Text → InvertedIndex → Item → Paper
paper_of title inverted item = record {
  title = title;
  abstract = reconstruct_abstract inverted;
  authors = present (join_with comma (author_names item.authorships));
  year = item.publication_year;
  url = first_present item.doi item.id;
}

-- The title and the index of an item that has both.
abbrev pub usable : Item → Option (Text × InvertedIndex)
usable item = both item.title item.abstract_inverted_index
  where
    both : Option Text → Option InvertedIndex → Option (Text × InvertedIndex)
    both (some (c ∷ cs)) (some (entry ∷ index)) = some (c ∷ cs, entry ∷ index)
    both _ _ = none

-- `seen` and `papers`
pub record Found : Type 0 where
  pub seen : List Text
  pub papers : List Paper

abbrev keep : Item → Option (Text × InvertedIndex) → Found → Found
keep item none found = found
keep item (some (title, inverted)) found = if contains title found.seen then found else record {
  seen = add title found.seen;
  papers = found.papers ++ paper_of title inverted item ∷ [];
}

unfoldable pub take_item : Item → Found → Found
unfolding contains add reconstruct_abstract join_with
take_item item found = keep item (usable item) found

unfoldable pub take_items : List Item → Found → Found
unfolding take_item
take_items [] found = found
take_items (item ∷ items) found = take_items items (take_item item found)

-- The loop over the queries from the `index`-th; `none` is a raise of a search.
unfoldable pub fetch_from : Client → ℕ → List Text → Found → Net → Option (List Paper) × Net
unfolding search_works take_items
fetch_from client index [] found net = (some found.papers, net)
fetch_from client index (query ∷ queries) found net =
    let (answer, after) = search_works client query (if ltb 0 index then wait 3_000 net else net) in
    elim answer [
      | none ↦ (none, after)
      | some items ↦ fetch_from client (index + 1) queries (take_items items found) after
    ]

-- `fetch_papers`
unfoldable pub fetch_papers : Client → List Text → Net → Option (List Paper) × Net
unfolding fetch_from
fetch_papers client queries net =
    fetch_from client 0 queries (record { seen = []; papers = [] }) net
