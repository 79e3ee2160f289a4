-- ===== src/AiPreference/Tiers.antt =====
-- What a member's own preference does to the choice, and what clearing it restores.
use doda.Base.{
  ℕ, suc, ◌≡◌, refl, String, Bool, Option, none, some, List, [], ◌∷◌, inl, inr, arith, ap, ◌∙◌, ◌⊎◌,
  Option-cases,
}
use doda.Base.Table.{find, delete}
use doda.Env.{Env}
use doda.Db.{Db, State, ok}
use doda.Db.Upsert.Laws.{upsert_stores}
use doda.Domain.Ai.{Provider, WorkspaceAiPreference, parse_provider, UserAiPreference, Conversation}
use doda.AiPreference.{
  Models, user_column, is_user_preference, set_user_ai_preference, clear_user_ai_preference,
  resolve_provider_choice, pinned_tier, user_tier, choice_of, get_user_ai_preference,
  get_workspace_ai_preference, workspace_tier, is_workspace_preference,
}

find-delete_self : {A : Type 0} (p : A → Bool) (xs : List A) → find p (delete p xs) ≡ none
find-delete_self p [] = refl
find-delete_self p (x ∷ xs) = ground (arith, find-delete_self p xs)

-- The two rows that `set_user_ai_preference` writes.
abbrev chosen : Provider → Option String → UserAiPreference → UserAiPreference
chosen provider model pref = record pref { provider = provider; model = model }

abbrev new_preference : ℕ → ℕ → Provider → Option String → ℕ → UserAiPreference
new_preference customer_id user_id provider model created_at = record {
  customer_id = customer_id;
  user_id = user_id;
  created_at = created_at;
  provider = provider;
  model = model;
}

-- The choice below the member's tier does not depend on the rest of the state.
workspace_tier_value :
    (settings : Models) (pref : Option WorkspaceAiPreference) (e : Env) (s s' : State)
    → (workspace_tier settings pref e s).0 ≡ (workspace_tier settings pref e s').0
unfolding workspace_tier
workspace_tier_value settings (some pref) e s s' = refl
workspace_tier_value settings none e s s' =
    elim (Option-cases (parse_provider settings.ai_default_provider)) [
      | inl unknown ↦ rw unknown refl
      | inr (provider, known) ↦ rw known refl
    ]

module _ (settings : Models) (conversation : Conversation) (customer_id user_id workspace_id : ℕ)
    (e : Env) (s : State) (unpinned : conversation.pinned_provider ≡ none) where
  resolved_by_user :
      (s' : State) (pref : UserAiPreference)
      → find (is_user_preference customer_id user_id) s'.db.user_preferences ≡ some pref
      → (resolve_provider_choice settings conversation customer_id user_id workspace_id e s').0
        ≡ ok (choice_of settings pref.model pref.provider)
  unfolding resolve_provider_choice pinned_tier user_tier get_user_ai_preference
  resolved_by_user s' pref found = rw (unpinned, found) refl

  -- Where a conversation has no pin, the preference that a member saves decides the next choice,
  -- also where another transaction saved one at the same time.
  pub set_then_resolve :
      (meanwhile : Db → Db) (provider : Provider) (model : Option String)
      → (resolve_provider_choice settings conversation customer_id user_id workspace_id e
          (set_user_ai_preference meanwhile customer_id user_id provider model e s).1).0
        ≡ ok (choice_of settings model provider)
  unfolding set_user_ai_preference
  set_then_resolve meanwhile provider model =
      let written =
        upsert_stores user_column (is_user_preference customer_id user_id) (λ rows db. refl)
          meanwhile (chosen provider model)
          (new_preference customer_id user_id provider model (e.clock s.reads)) (λ a h. h)
          (ground arith) e (record s { reads = suc s.reads }) in
      rw written.runs (
        resolved_by_user (record s { reads = suc s.reads; db = written.db }) written.row
          written.stored
        ∙ ap ok (choice_of_stored written.value))
    where
      choice_of_stored :
          {row : UserAiPreference}
          → (row ≡ new_preference customer_id user_id provider model (e.clock s.reads))
            ⊎ ((a : UserAiPreference) × (row ≡ chosen provider model a))
          → choice_of settings row.model row.provider ≡ choice_of settings model provider
      choice_of_stored (inl fresh) = ap (λ p. choice_of settings p.model p.provider) fresh
      choice_of_stored (inr (a, changed)) = ap (λ p. choice_of settings p.model p.provider) changed

  -- Where a conversation has no pin, a member who clears the preference gets the choice of a member
  -- who has none: the workspace's, or the system's.
  pub clear_then_resolve :
      (resolve_provider_choice settings conversation customer_id user_id workspace_id e
        (clear_user_ai_preference customer_id user_id e s).1).0
      ≡ (user_tier settings workspace_id none e s).0
  unfolding resolve_provider_choice pinned_tier user_tier clear_user_ai_preference
      get_user_ai_preference get_workspace_ai_preference workspace_tier
  clear_then_resolve =
      rw (unpinned, find-delete_self (is_user_preference customer_id user_id) s.db.user_preferences)
        (workspace_tier_value settings
          (find (is_workspace_preference workspace_id) s.db.workspace_preferences) e
          (clear_user_ai_preference customer_id user_id e s).1 s)
