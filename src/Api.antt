-- ===== src/Api.antt =====
-- backend/src/doda/api/dependencies.py: from the `Authorization` header to the context of a request.
-- A handler is an action that takes the context; it runs inside the tenant's transaction.
pub mod Actions
pub mod Approving
pub mod Conversations
pub mod Entry
pub mod Errors
pub mod Tasks
use Prim.Native.String.{len, slice}
use text.Mathlib.Text.{starts_with}
use doda.Base.{
  ℕ, zero, suc, String, Bool, true, false, not, Option, none, some, ◌==◌, if◌then◌else◌,
}
use doda.Base.Table.{find}
use doda.Db.{
  Db, M, session_invalid, authorization_error, ◌>>=◌, ◌>>◌, pure, raise, gets, asks, some_or_raise,
  transaction,
}
use doda.Domain.Identity.{Session, AuthStrength}
use doda.Domain.Security.{deny}
use doda.Domain.Tenant.{WorkspaceTenantIndex}
use doda.Session.{resolve_session}
use doda.Authz.{WorkspaceContext, CustomerContext, get_workspace_context, get_customer_context}

-- `authorization.removeprefix("Bearer ")`, once the prefix is tested.
abbrev pub after_prefix : String → String
after_prefix authorization = slice authorization 7 (len authorization)

unfoldable pub parse_header : Option String → M ℕ
parse_header none = raise (session_invalid "missing bearer session token")
parse_header (some authorization) =
    if starts_with authorization "Bearer "
    then (do
      session_id ← asks (λ e. e.parse_uuid (after_prefix authorization))
      some_or_raise session_id (session_invalid "malformed session token"))
    else raise (session_invalid "missing bearer session token")

unfoldable pub parse_bearer_session_id : Option String → M ℕ
unfolding parse_header
parse_bearer_session_id authorization = parse_header authorization

pub record RequestContext : Type 0 where
  pub workspace : WorkspaceContext
  pub auth_strength : AuthStrength

abbrev pub tenant_index : ℕ → Db → Option WorkspaceTenantIndex
tenant_index workspace_id db = find (λ w. w.workspace_id == workspace_id) db.workspace_tenant_index

-- The block of the base session, which ends with a commit.
unfoldable pub resolve_index : ℕ → ℕ → M (Session × Option WorkspaceTenantIndex)
resolve_index session_id workspace_id = do
  session ← resolve_session session_id
  index ← gets (tenant_index workspace_id)
  pure (session, index)

-- The block of the tenant's session, with the handler in place of `yield`.
unfoldable pub in_workspace : {A : Type 0} → Session → ℕ → Bool → (RequestContext → M A) → M A
in_workspace session workspace_id allow_archived handler = do
  workspace ← get_workspace_context session.user_id workspace_id allow_archived
  handler (record { workspace = workspace; auth_strength = session.auth_strength })

unfoldable pub enter_workspace :
    {A : Type 0} → ℕ → Bool → (RequestContext → M A) → Session × Option WorkspaceTenantIndex → M A
unfolding in_workspace
enter_workspace workspace_id allow_archived handler (session, none) =
    raise (authorization_error deny)
enter_workspace workspace_id allow_archived handler (session, some index) =
    transaction (in_workspace session workspace_id allow_archived handler)

unfoldable pub resolve_request_context :
    {A : Type 0} → ℕ → Option String → Bool → (RequestContext → M A) → M A
unfolding resolve_index enter_workspace
resolve_request_context workspace_id authorization allow_archived handler = do
  session_id ← parse_bearer_session_id authorization
  resolved ← transaction (resolve_index session_id workspace_id)
  enter_workspace workspace_id allow_archived handler resolved

unfoldable pub get_request_context : {A : Type 0} → ℕ → Option String → (RequestContext → M A) → M A
unfolding resolve_request_context
get_request_context workspace_id authorization handler =
    resolve_request_context workspace_id authorization false handler

unfoldable pub get_request_context_allow_archived :
    {A : Type 0} → ℕ → Option String → (RequestContext → M A) → M A
unfolding resolve_request_context
get_request_context_allow_archived workspace_id authorization handler =
    resolve_request_context workspace_id authorization true handler

in_customer : {A : Type 0} → Session → ℕ → (CustomerContext → M A) → M A
in_customer session customer_id handler = do
  customer ← get_customer_context session.user_id customer_id
  handler customer

unfoldable pub get_customer_request_context :
    {A : Type 0} → ℕ → Option String → (CustomerContext → M A) → M A
unfolding in_customer
get_customer_request_context customer_id authorization handler = do
  session_id ← parse_bearer_session_id authorization
  session ← transaction (resolve_session session_id)
  transaction (in_customer session customer_id handler)

pub record CurrentIdentity : Type 0 where
  pub user_id : ℕ
  pub session_id : ℕ
  pub auth_strength : AuthStrength

unfoldable pub get_current_identity : Option String → M CurrentIdentity
get_current_identity authorization = do
  session_id ← parse_bearer_session_id authorization
  session ← transaction (resolve_session session_id)
  pure (record {
    user_id = session.user_id;
    session_id = session_id;
    auth_strength = session.auth_strength;
  })
