-- ===== src/Tests/Corpus.antt =====
-- The theorems on the corpus at concrete inputs (corpus_builder/build.py).
use mas_research.Base.{
  ◌+◌, ◌*◌, ◌≤◌, ◌≡◌, ◌==◌, refl, false, some, none, List, [], ◌∷◌, if◌then◌else◌, leb, length,
}
use mas_research.Text.{Text, join_with}
use mas_research.Corpus.{
  InvertedIndex, positions_of, reconstruct_abstract, space, Item, Client, Net, fetch_papers,
}
use mas_research.Corpus.Abstract.{enumerate, reconstruct_abstract-words}
use mas_research.Corpus.Fetched.{Agrees, all_items, fetch_papers-Agrees}
use mathlib.Core.List.{Permᴰ}

-- to do or to
abbrev index : InvertedIndex
index =
    ((116 ∷ 111 ∷ []), 0 ∷ 3 ∷ []) ∷ ((100 ∷ 111 ∷ []), 1 ∷ []) ∷ ((111 ∷ 114 ∷ []), 2 ∷ []) ∷ []

abbrev words : List Text
words = (116 ∷ 111 ∷ []) ∷ (100 ∷ 111 ∷ []) ∷ (111 ∷ 114 ∷ []) ∷ (116 ∷ 111 ∷ []) ∷ []

same_positions : Permᴰ (positions_of index) (enumerate 0 words)
same_positions =
    Permᴰ.cons refl (Permᴰ.trans (Permᴰ.swap refl refl) (Permᴰ.cons refl (Permᴰ.swap refl refl)))

reconstruct_abstract-words_example : reconstruct_abstract index ≡ join_with space words
reconstruct_abstract-words_example = reconstruct_abstract-words index words same_positions

abbrev item_of : Text → Item
item_of title = record {
  title = some title;
  abstract_inverted_index = some index;
  authorships = some (some (97 ∷ [])) ∷ none ∷ [];
  publication_year = none;
  doi = none;
  id = some (98 ∷ []);
}

-- The second request is turned down, and the answers have a title twice.
abbrev client : Client
client = record {
  status = λ n query. if n == 1 then 429 else 200;
  raises = λ status. leb 400 status;
  results = λ n query. item_of query ∷ item_of (99 ∷ []) ∷ [];
}

abbrev idle : Net
idle = record { sent = 0; waits = [] }

abbrev queries : List Text
queries = (120 ∷ []) ∷ (121 ∷ []) ∷ []

fetch_papers-Agrees_example :
    ((fetch_papers client queries idle).1.sent ≤ idle.sent + 5 * length queries)
    × Agrees (λ j. false) (all_items client idle.sent queries) (fetch_papers client queries idle).0
fetch_papers-Agrees_example = fetch_papers-Agrees client queries idle
