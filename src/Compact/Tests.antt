-- ===== src/Compact/Tests.antt =====
-- Cuts of a small conversation, and the theorems of this component at it.
use sandbx.Common.{ℕ, List, [], ◌∷◌, none, some, ◌≡◌, ◌≤◌, refl, codes, true}
use sandbx.Compact.{target, opens_a_request, plan_cut, window, over_budget}
use sandbx.Compact.Cut.{IsPlan, plan_cut-IsPlan, plan_cut_holds_floor}
use sandbx.Compact.Window.{window-IsConversation}
use sandbx.Prompt.{user, assistant, text, tool_use, tool_result, RequestMessage}
use sandbx.Prompt.Conversation.{IsConversation}

abbrev chat : List (RequestMessage ℕ)
chat =
    record { role = user; content = text (codes "hi") ∷ [] }
    ∷ record { role = assistant; content = text (codes "hello") ∷ [] }
    ∷ record { role = user; content = text (codes "list it") ∷ [] }
    ∷ record { role = assistant; content = tool_use (codes "c1") (codes "ls") 0 ∷ [] }
    ∷ record {
      role = user;
      content = tool_result (codes "c1") (codes "a b") none ∷ text (codes "go on") ∷ [];
    }
    ∷ []

plans :
    (plan_cut chat 0 (some 2) 0 ≡ some 4)
    × (plan_cut chat 0 (some 3) 0 ≡ some 2)
    × (plan_cut chat 0 (some 4) 0 ≡ some 2)
    × (plan_cut chat 0 none 2 ≡ some 2)
    × (plan_cut chat 0 none 9 ≡ none)
    × (plan_cut chat 0 (some 0) 0 ≡ some 4)
unfolding plan_cut target opens_a_request
plans = (refl, refl, refl, refl, refl, refl)

budget :
    over_budget
      (some
        (record { input_tokens = some 90; cache_read_tokens = none; cache_write_tokens = some 11 }))
      100
    ≡ true
unfolding over_budget
budget = refl

chat-IsConversation : IsConversation chat
chat-IsConversation = (
  (λ e. cc),
  (λ e. cc),
  tt,
  tt,
  (
    (λ e. cc),
    (λ e. cc),
    tt,
    tt,
    (
      (λ e. cc),
      (λ e. cc),
      tt,
      tt,
      ((λ e. cc), (λ e. cc), tt, tt, ((λ e. cc), (λ e. cc), (refl, tt), (refl, tt), tt)),
    ),
  ),
)

plan_cut-IsPlan_example : IsPlan chat (target 5 2 (some 3) 0) (plan_cut chat 2 (some 3) 0)
plan_cut-IsPlan_example = plan_cut-IsPlan chat 2 (some 3) 0

plan_cut_holds_floor_example :
    (c : ℕ) × (plan_cut chat 2 none 2 ≡ some c) × (2 ≤ c) × (opens_a_request chat c ≡ true)
plan_cut_holds_floor_example = plan_cut_holds_floor chat 2 none 2 (unfold opens_a_request in refl)

window-IsConversation_example : IsConversation (window chat 4)
window-IsConversation_example =
    window-IsConversation chat 4 chat-IsConversation (unfold opens_a_request in refl)
