-- ===== src/Llm/Router/Resolve.antt =====
-- `_resolve_chain` (backend/app/llm/router.py): the user's names that have an active provider row,
-- by priority and then by the place of the name.
use auto_apply.Common.{
  ℕ, ◌+◌, String, Bool, Option, none, some, List, [], ◌∷◌, if◌then◌else◌, str_eq, find_first,
}
use auto_apply.Common.Sort.{sort_by}
use auto_apply.Json.{Value, arr, item, names}
use auto_apply.Llm.Registry.{look_up}
use auto_apply.Llm.Store.{ProviderRow, World, pair_leb, list_active_providers, get_settings}
use auto_apply.Llm.Router.Types.{Request}

-- the stored or the default chain of names (D15)
abbrev pub default_chain : List String
default_chain = "gemini" ∷ "ollama" ∷ "groq" ∷ "openrouter" ∷ []

-- A stored chain is a non-empty list; `SettingsService` stores names only.
abbrev pub stored_names : Option Value → List String
stored_names (some (arr (item v vs))) = names (item v vs)
stored_names _ = default_chain

unfoldable pub chain_names : World → Request → List String
chain_names w rq = elim rq.provider_chain [
  | some (n ∷ ns) ↦ n ∷ ns
  | _ ↦ stored_names (look_up "llm_chain" (get_settings w rq.user_id))
]

abbrev pub Chain : Type 0
Chain = List (String × ProviderRow)

-- `best_by_name` keeps the first row of each name.
abbrev pub best_by_name : String → List ProviderRow → Option ProviderRow
best_by_name name rows = find_first (λ r. str_eq r.name name) rows

unfoldable pub present : List String → List ProviderRow → Chain
present [] rows = []
present (n ∷ ns) rows =
    let rest = present ns rows in
    elim (best_by_name n rows) [ none ↦ rest | some r ↦ (n, r) ∷ rest ]

-- `{name: index for index, name in enumerate(names)}`: the last index of a name
unfoldable pub order_index : List String → ℕ → ℕ → String → ℕ
order_index [] i found name = found
order_index (n ∷ ns) i found name = order_index ns (i + 1) (if str_eq n name then i else found) name

abbrev pub chain_leb : List String → String × ProviderRow → String × ProviderRow → Bool
chain_leb ns (a, r) (b, s) =
    pair_leb r.priority (order_index ns 0 0 a) s.priority (order_index ns 0 0 b)

unfoldable pub resolve_chain : World → Request → Chain
unfolding chain_names present
resolve_chain w rq =
    let ns = chain_names w rq in
    sort_by (chain_leb ns) (present ns (list_active_providers w rq.user_id))
