-- ===== src/Llm/Cost/Overrides.antt =====
-- What an AGENTKIT_PRICES override of agentkit/llm.py does to the price table.
use agent_bakery.Prelude.{
  str_eq, String, ◌≡◌, refl, ap, ◌∙◌, Option, none, some, List, [], ◌∷◌, ◌++◌, if◌then◌else◌,
}
use agent_bakery.Prelude.Dict.{Dict, lookup, insert, lookup-insert}
use agent_bakery.Llm.Cost.{Price, default_prices, merge, load_prices, entries}

-- The entries of an override that are well formed.
abbrev pub good : List (String × Price) → List (String × Option Price)
good [] = []
good ((model, price) ∷ rest) = (model, some price) ∷ good rest

-- The last price that a list of entries gives to a model, or else the one before.
abbrev pub last_price : List (String × Price) → String → Option Price → Option Price
last_price [] model before = before
last_price ((m, price) ∷ rest) model before =
    last_price rest model (if str_eq m model then some price else before)

lookup-merge :
    (model bad : String) (override : List (String × Price)) (rest : List (String × Option Price))
    (prices : Dict Price)
    → lookup model (merge (good override ++ (bad, none) ∷ rest) prices)
      ≡ last_price override model (lookup model prices)
unfolding merge
lookup-merge model bad [] rest prices = refl
lookup-merge model bad ((m, price) ∷ override) rest prices =
    lookup-merge model bad override rest (insert m price prices)
    ∙ ap (last_price override model) (lookup-insert m model price prices)

-- An override with a malformed entry is not ignored: the entries before the malformed one are merged
-- over the defaults, and only those after it are dropped.
pub load_prices_malformed :
    (model bad : String) (override : List (String × Price)) (rest : List (String × Option Price))
    → lookup model (load_prices (entries (good override ++ (bad, none) ∷ rest)))
      ≡ last_price override model (lookup model default_prices)
unfolding load_prices
load_prices_malformed model bad override rest = lookup-merge model bad override rest default_prices
