-- ===== src/Tests/Trie.antt =====
-- The trie at a few URLs.
use shellinabox.Base.{codes, ℕ, ◌≡◌, refl, true, Option, none, some, List, [], ◌∷◌, Bytes, arith}
use shellinabox.Trie.{add_to_trie, init_trie, get_from_trie}
use shellinabox.Trie.Longest.{longest}
use shellinabox.Trie.Refines.{add_all, registered, get_from_trie-add_all}

abbrev handlers : List (Bytes × Option ℕ)
handlers =
    (codes "/quit", some 1)
    ∷ (codes "/shell", some 2)
    ∷ (codes "/", some 3)
    ∷ (codes "/quiet", some 4)
    ∷ []

get_from_trie-quit :
    get_from_trie (add_all true init_trie handlers) (codes "/quit") ≡ some (some 1, [])
unfolding get_from_trie add_all add_to_trie
get_from_trie-quit = refl

get_from_trie-prefix :
    get_from_trie (add_all true init_trie handlers) (codes "/shell/x?y")
    ≡ some (some 2, codes "/x?y")
unfolding get_from_trie add_all add_to_trie
get_from_trie-prefix = refl

get_from_trie-root :
    get_from_trie (add_all true init_trie handlers) (codes "/qu") ≡ some (some 3, codes "qu")
unfolding get_from_trie add_all add_to_trie
get_from_trie-root = refl

get_from_trie-add_all_example :
    get_from_trie (add_all true init_trie handlers) (codes "/quiz")
    ≡ longest (registered (λ _. none) handlers) (codes "/quiz")
get_from_trie-add_all_example =
    get_from_trie-add_all true handlers (codes "/quiz") (omega arith) (omega arith)
