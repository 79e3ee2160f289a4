-- ===== src/Authz/Context.antt =====
-- Who gets which context.
use doda.Base.{
  ℕ, Bool, true, false, not, ◌&&◌, Option, none, some, List, [], ◌∷◌, ◌==◌, ◌≡◌, ◌≢◌, ◌⊎◌, refl, ap,
  sym, ◌∙◌, arith, is_none, inl, inr, Bool-cases, Option-cases,
}
use doda.Base.Table.{find}
use doda.Base.Table.Laws.{find_holds}
use doda.Env.{Env}
use doda.Db.{Db, State, ok, err, authorization_error}
use doda.Domain.Security.{WorkspaceRole, CustomerRole, StoredRole, deny}
use doda.Domain.Tenant.{Workspace, WorkspaceMembership, CustomerMembership}
use doda.Authz.{
  WorkspaceContext, get_workspace_context, open_workspace_context, member_context, membership_of,
  is_customer_owner, is_owner_role, joined_row, in_workspace, workspace_row, workspace_of,
  is_auditor_role,
}

-- What entitles a user to a role in a workspace: a membership of its customer as an owner, who is an
-- admin; or else, in the first of its memberships that belongs to a customer membership of the user,
-- the role that it gives, unless that customer membership is an auditor's.
pub data HasRole (user_id : ℕ) (w : Workspace) (workspace_id : ℕ) (db : Db)
    : WorkspaceRole → Type 0 where
  owner :
      (m : CustomerMembership)
      → find (λ m. m.customer_id == w.customer_id && m.user_id == user_id) db.customer_memberships
        ≡ some m
      → m.role ≡ StoredRole.role CustomerRole.customer_owner
      → HasRole user_id w workspace_id db WorkspaceRole.workspace_admin
  member :
      (m : WorkspaceMembership) (c : CustomerMembership)
      → ((o : CustomerMembership)
          → find
              (λ m. m.customer_id == w.customer_id && m.user_id == user_id)
              db.customer_memberships
            ≡ some o
          → o.role ≢ StoredRole.role CustomerRole.customer_owner)
      → find
          (λ x.
            x.workspace_id == workspace_id
            && not (
                is_none (
                  find
                    (λ c. c.id == x.customer_membership_id && c.user_id == user_id)
                    db.customer_memberships)))
          db.workspace_memberships
        ≡ some m
      → find (λ c. c.id == m.customer_membership_id && c.user_id == user_id) db.customer_memberships
        ≡ some c
      → c.role ≢ StoredRole.role CustomerRole.auditor
      → HasRole user_id w workspace_id db m.role

-- What a context means: its workspace exists, is not archived or archived ones are allowed,
-- and has that customer, and its user is
-- entitled to its role there.
pub record IsEntitled (user_id workspace_id : ℕ) (allow_archived : Bool) (db : Db)
    (ctx : WorkspaceContext) : Type 0 where
  pub workspace : Workspace
  pub exists : find (λ w. w.id == workspace_id) db.workspaces ≡ some workspace
  pub entered : (workspace.archived_at ≡ none) ⊎ (allow_archived ≡ true)
  pub has_role : HasRole user_id workspace workspace_id db ctx.role
  pub of_user : ctx.user_id ≡ user_id
  pub of_workspace : ctx.workspace_id ≡ workspace_id
  pub of_customer : ctx.customer_id ≡ workspace.customer_id

owner_is :
    (r : StoredRole) → is_owner_role r ≡ true → r ≡ StoredRole.role CustomerRole.customer_owner
owner_is (StoredRole.role CustomerRole.customer_owner) h = refl
owner_is (StoredRole.role CustomerRole.member) h = cc
owner_is (StoredRole.role CustomerRole.auditor) h = cc
owner_is StoredRole.platform_owner h = cc

auditor_is : (r : StoredRole) → is_auditor_role r ≡ true → r ≡ StoredRole.role CustomerRole.auditor
auditor_is (StoredRole.role CustomerRole.customer_owner) h = cc
auditor_is (StoredRole.role CustomerRole.member) h = cc
auditor_is (StoredRole.role CustomerRole.auditor) h = refl
auditor_is StoredRole.platform_owner h = cc

-- The customer membership that a membership of a workspace belongs to, if it is the user's.
abbrev owned_by : ℕ → List CustomerMembership → WorkspaceMembership → Option CustomerMembership
owned_by user_id members x =
    find (λ c. c.id == x.customer_membership_id && c.user_id == user_id) members

abbrev is_row : ℕ → ℕ → List CustomerMembership → WorkspaceMembership → Bool
is_row user_id workspace_id members x =
    x.workspace_id == workspace_id && not (is_none (owned_by user_id members x))

abbrev with_role :
    ℕ
    → List CustomerMembership
    → Option WorkspaceMembership
    → Option (WorkspaceMembership × StoredRole)
with_role user_id members none = none
with_role user_id members (some x) = elim (owned_by user_id members x) [
  | none ↦ none
  | some c ↦ some (x, c.role)
]

-- The first row of the join is the first membership that has a match, with that.
joined_first :
    (user_id workspace_id : ℕ) (members : List CustomerMembership) (ws : List WorkspaceMembership)
    → joined_row user_id (in_workspace workspace_id ws) members
      ≡ with_role user_id members (find (is_row user_id workspace_id members) ws)
joined_first user_id workspace_id members [] = refl
joined_first user_id workspace_id members (x ∷ ws) =
    let onward = joined_first user_id workspace_id members ws in
    elim (Bool-cases (x.workspace_id == workspace_id)) [
      | inr other ↦ rw other onward
      | inl here ↦ elim (Option-cases (owned_by user_id members x)) [
        | inl none_of ↦ rw here (rw (joined_row, none_of) onward)
        | inr (c, owned) ↦ rw here (rw (owned, joined_row, with_role, owned) refl)
      ]
    ]

module _ (user_id : ℕ) (w : Workspace) (workspace_id : ℕ) (db : Db) where
  -- The row of the join, as the lookups of `HasRole` have it.
  row_cases :
      ((workspace_row user_id workspace_id db ≡ none)
        × (find (is_row user_id workspace_id db.customer_memberships) db.workspace_memberships
            ≡ none))
      ⊎ ((x : WorkspaceMembership) × (c : CustomerMembership) × (workspace_row user_id workspace_id
              db
            ≡ some (x, c.role))
          × (find (is_row user_id workspace_id db.customer_memberships) db.workspace_memberships
              ≡ some x)
          × (owned_by user_id db.customer_memberships x ≡ some c))
  row_cases =
      let members = db.customer_memberships in
      let first = joined_first user_id workspace_id members db.workspace_memberships in
      elim (Option-cases (find (is_row user_id workspace_id members) db.workspace_memberships)) [
        | inl no_row ↦ inl (first ∙ rw no_row refl, no_row)
        | inr (x, row) ↦
            let holds =
              find_holds (is_row user_id workspace_id members) db.workspace_memberships x row in
            elim (Option-cases (owned_by user_id members x)) [
              | inl none_of ↦ let no = rw none_of at holds in ground (arith, no)
              | inr (c, owned) ↦ inr (x, c, first ∙ rw row (rw (with_role, owned) refl), row, owned)
            ]
      ]

  owner_found :
      is_customer_owner user_id w.customer_id db ≡ true
      → HasRole user_id w workspace_id db WorkspaceRole.workspace_admin
  owner_found owns = elim (Option-cases (membership_of user_id w.customer_id db)) [
    | inl missing ↦ let no = rw missing at owns in cc
    | inr (m, found) ↦ owner m found (owner_is m.role (rw found at owns))
  ]

  -- Where the code finds no owner, no membership of the user is an owner's.
  no_owner :
      is_customer_owner user_id w.customer_id db ≡ false
      → (o : CustomerMembership) → membership_of user_id w.customer_id db ≡ some o
      → o.role ≢ StoredRole.role CustomerRole.customer_owner
  no_owner not_owner o found is_owner =
      let no : is_owner_role o.role ≡ false = rw found at not_owner in
      let yes : is_owner_role o.role ≡ true = rw is_owner refl in ground (arith, no, yes)

  -- A user who is no owner and has no row, or an auditor's, has no role.
  no_row_no_role :
      (role : WorkspaceRole)
      → is_customer_owner user_id w.customer_id db ≡ false
      → find (is_row user_id workspace_id db.customer_memberships) db.workspace_memberships ≡ none
      → ¬ HasRole user_id w workspace_id db role
  no_row_no_role _ not_owner no_row (owner m found is) = no_owner not_owner m found is
  no_row_no_role _ not_owner no_row (member m c none_owns row owned acts) =
      ground (arith, no_row, row)

  auditor_no_role :
      (role : WorkspaceRole) (x : WorkspaceMembership) (c : CustomerMembership)
      → is_customer_owner user_id w.customer_id db ≡ false
      → find (is_row user_id workspace_id db.customer_memberships) db.workspace_memberships ≡ some x
      → owned_by user_id db.customer_memberships x ≡ some c
      → is_auditor_role c.role ≡ true
      → ¬ HasRole user_id w workspace_id db role
  auditor_no_role _ x c not_owner row owned audits (owner m found is) =
      no_owner not_owner m found is
  auditor_no_role _ x c not_owner row owned audits (member m c' none_owns row' owned' acts) =
      let first : ◌≡◌ {A = Option WorkspaceMembership} (some m) (some x) = sym row' ∙ row in
      let same : m ≡ x = ground (arith, first) in
      let again : ◌≡◌ {A = Option CustomerMembership} (some c) (some c') =
        sym owned ∙ (ap (owned_by user_id db.customer_memberships) (sym same) ∙ owned') in
      let same_c : c' ≡ c = ground (arith, again) in
      acts (ap (λ (y : CustomerMembership). y.role) same_c ∙ auditor_is c.role audits)

-- A workspace that is not closed to the call may be entered.
entered_of :
    (archived_at : Option ℕ) (allow_archived : Bool)
    → (not (is_none archived_at) && not allow_archived) ≡ false
    → (archived_at ≡ none) ⊎ (allow_archived ≡ true)
entered_of none allow_archived h = inl refl
entered_of (some t) true h = inr refl
entered_of (some t) false h = cc

closed_out :
    (archived_at : Option ℕ) (allow_archived : Bool)
    → (not (is_none archived_at) && not allow_archived) ≡ true
    → ¬ ((archived_at ≡ none) ⊎ (allow_archived ≡ true))
closed_out none allow_archived h e = cc
closed_out (some t) true h e = cc
closed_out (some t) false h (inl e) = cc
closed_out (some t) false h (inr e) = cc

module _ (user_id workspace_id : ℕ) (allow_archived : Bool) (e : Env) (s : State) where
  -- A user who has no role in a workspace that exists is entitled to no context of it.
  nobody_gets_in :
      (w : Workspace)
      → workspace_of workspace_id s.db ≡ some w
      → ((role : WorkspaceRole) → ¬ HasRole user_id w workspace_id s.db role)
      → ¬ ((ctx : WorkspaceContext) × IsEntitled user_id workspace_id allow_archived s.db ctx)
  nobody_gets_in w found nobody (ctx, h) =
      let found' = h.exists in
      let same : h.workspace ≡ w = ground (arith, found, found') in
      nobody ctx.role (rw (← same) h.has_role)

  -- Resolving a context changes nothing, and returns a context that its user is entitled to, or
  -- raises DENY, in which case the user is entitled to none. Entitled, to a workspace that exists
  -- and is not archived, unless archived ones are allowed, is an owner of its customer, as an
  -- admin; and else a user with a membership of the workspace, with the role of the first one, who
  -- is not an auditor of the customer that it belongs to.
  pub get_workspace_context_decides :
      ((ctx : WorkspaceContext) × (get_workspace_context user_id workspace_id allow_archived e s
          ≡ (ok ctx, s))
        × IsEntitled user_id workspace_id allow_archived s.db ctx)
      ⊎ ((get_workspace_context user_id workspace_id allow_archived e s
            ≡ (err (authorization_error deny), s))
          × (¬ (
              (ctx : WorkspaceContext) × IsEntitled user_id workspace_id allow_archived s.db ctx)))
  unfolding get_workspace_context open_workspace_context member_context
  get_workspace_context_decides = elim (Option-cases (workspace_of workspace_id s.db)) [
    | inl missing ↦
        inr (rw missing refl, λ (ctx, h). let f = h.exists in ground (arith, missing, f))
    | inr (w, found) ↦ elim (Bool-cases (not (is_none w.archived_at) && not allow_archived)) [
      | inl closed ↦ inr (
        rw (found, closed) refl,
        λ (ctx, h).
            let found' = h.exists in
            let same : h.workspace ≡ w = ground (arith, found, found') in
            closed_out w.archived_at allow_archived closed (rw (← same) h.entered),
      )
      | inr enters ↦ elim (Bool-cases (is_customer_owner user_id w.customer_id s.db)) [
        | inl owns ↦ inl (
          record {
            customer_id = w.customer_id;
            workspace_id = workspace_id;
            user_id = user_id;
            role = WorkspaceRole.workspace_admin;
          },
          rw (found, enters, owns) refl,
          record {
            workspace = w;
            exists = found;
            entered = entered_of w.archived_at allow_archived enters;
            has_role = owner_found user_id w workspace_id s.db owns;
            of_user = refl;
            of_workspace = refl;
            of_customer = refl;
          },
        )
        | inr not_owner ↦ elim (row_cases user_id w workspace_id s.db) [
          | inl (no_row, no_match) ↦ inr (
            rw (found, enters, not_owner, no_row) refl,
            nobody_gets_in w found
                (λ role. no_row_no_role user_id w workspace_id s.db role not_owner no_match),
          )
          | inr (m, c, row, matches, owned) ↦ elim (Bool-cases (is_auditor_role c.role)) [
            | inl audits ↦ inr (
              rw (found, enters, not_owner, row, audits) refl,
              nobody_gets_in w found (λ role.
                  auditor_no_role user_id w workspace_id s.db role m c not_owner matches owned
                    audits),
            )
            | inr acts ↦ inl (
              record {
                customer_id = w.customer_id;
                workspace_id = workspace_id;
                user_id = user_id;
                role = m.role;
              },
              rw (found, enters, not_owner, row, acts) refl,
              record {
                workspace = w;
                exists = found;
                entered = entered_of w.archived_at allow_archived enters;
                has_role =
                    member m c (no_owner user_id w workspace_id s.db not_owner) matches owned
                      (λ is_auditor. let yes = rw is_auditor at acts in cc);
                of_user = refl;
                of_workspace = refl;
                of_customer = refl;
              },
            )
          ]
        ]
      ]
    ]
  ]

-- An archived workspace denies everybody, where archived ones are not allowed.
pub archived_denies :
    (user_id workspace_id : ℕ) (w : Workspace) (t : ℕ) (e : Env) (s : State)
    → w.archived_at ≡ some t
    → workspace_of workspace_id s.db ≡ some w
    → get_workspace_context user_id workspace_id false e s ≡ (err (authorization_error deny), s)
unfolding get_workspace_context open_workspace_context
archived_denies user_id workspace_id w t e s closed found = rw (found, closed) refl
